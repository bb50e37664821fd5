-- ===== src/Routing/Commitment/Plan/Loop.antt =====
-- `commitment_plan`: the loop over the actors returns, with a good cut for every actor.
use argent.Base.{
  Text, ℕ, ◌≡◌, refl, sym, ap, ◌∙◌, subst, inl, inr, true, false, none, some, List, [], ◌∷◌, arith,
  get_elem?, Bool-cases, Option-cases,
}
use argent.Collections.Order.{eqb, eqb_iff, eqb_refl, nat_ord, bytes_ord}
use argent.Collections.BTreeSet.{contains, IsSorted}
use argent.Collections.BTreeMap
use argent.Collections.BTreeMap.{get, contains_key, get-insert}
use argent.Routing.Graph.{IsActor}
use argent.Routing.Graph.Build.{IsWellFormed}
use argent.Routing.Forest.{Cut, is_valid_cut}
use argent.Routing.Forest.Validity.{is_valid_cut_iff}
use argent.Routing.Commitment.{ok, ◌>>=◌}
use argent.Routing.Commitment.Groups.{IsIndex}
use argent.Routing.Commitment.Locations.{Building}
use argent.Routing.Commitment.Locations.Located.{Located}
use argent.Routing.Commitment.Plan.{Context, share, plan_actor, plan_actors}
use argent.Routing.Commitment.Plan.Shape.{forest, Shape-IsCut}
use argent.Routing.Commitment.Plan.Parts.{Known, get-share}
use argent.Routing.Commitment.Plan.Good.{IsGood, single_cut-IsGood, cohort_cut-IsGood}

-- The facts that the loop over the actors uses.
module _ (c : Context) (st : Building) (all : List Text) (w : IsWellFormed c.graph)
    (families : IsIndex c.graph c.constraints.families c.family_by_actor)
    (cohorts : IsIndex c.graph c.constraints.cohorts c.cohort_by_actor)
    (l : Located c.constraints.families c.family_by_actor all st)
    (placed : (a : Text) → IsActor c.graph a → contains a all ≡ true)
    (at : c.locations ≡ record { actor_paths = st.actor_paths; family_paths = st.family_paths })
    (needed : (a : Text)
      → IsActor c.graph a
      → (r : List Text) × (get a c.actor_needs ≡ some r) × Known c.graph r) where
  -- The cuts so far are good, and the members of a cohort agree.
  record Agree (cuts : List (Text × Cut)) : Type 0 where
    good : (a : Text) (cut : Cut) → get a cuts ≡ some cut → IsGood st cut
    shared :
        (i : ℕ) (cohort : List Text)
        → get_elem? c.constraints.cohorts i ≡ some cohort
        → (a b : Text) → contains a cohort ≡ true
        → contains b cohort ≡ true
        → get a cuts ≡ get b cuts

  insert-Agree :
      (cuts : List (Text × Cut)) (x : Text) (cut : Cut)
      → get x c.cohort_by_actor ≡ none
      → IsGood st cut
      → Agree cuts
      → Agree (BTreeMap.insert x cut cuts)
  insert-Agree cuts x cut alone good h = record {
    good = λ a d e. elim (Bool-cases (eqb a x)) [
      | inl same ↦ subst (IsGood st) (ground (arith, get-insert a x cut cuts)) good
      | inr other ↦ h.good a d (ground (arith, get-insert a x cut cuts))
    ];
    shared = λ i cohort e a b m k.
        let away = λ (y : Text) (m' : contains y cohort ≡ true).
          let mine = (cohorts.of_group y i cohort e m').0 in
          let apart : eqb y x ≡ false = ground (arith, eqb_iff y x) in apart in
        ground (
          arith,
          get-insert a x cut cuts,
          get-insert b x cut cuts,
          away a m,
          away b k,
          h.shared i cohort e a b m k,
        );
  }

  share-Agree :
      (cuts : List (Text × Cut)) (j : ℕ) (group : List Text) (cut : Cut)
      → get_elem? c.constraints.cohorts j ≡ some group
      → IsGood st cut
      → Agree cuts
      → Agree (share cut group cuts)
  share-Agree cuts j group cut f good h = record {
    good = λ a d e. elim (Bool-cases (contains a group)) [
      | inl same ↦ subst (IsGood st) (ground (arith, get-share cut group cuts a)) good
      | inr other ↦ h.good a d (ground (arith, get-share cut group cuts a))
    ];
    shared = λ i cohort e a b m k.
        let mine =
          λ (y z : Text) (m' : contains y cohort ≡ true) (k' : contains z cohort ≡ true)
              (in_y : contains y group ≡ true).
            let of_i = cohorts.of_group y i cohort e m' in
            let of_j = cohorts.of_group y j group f in_y in
            let same : cohort ≡ group = ground arith in
            let in_z : contains z group ≡ true = subst (λ q. contains z q ≡ true) same k' in in_z in
        ground (
          arith,
          get-share cut group cuts a,
          get-share cut group cuts b,
          mine a b m k,
          mine b a k m,
          h.shared i cohort e a b m k,
        );
  }

  plan_actor-Agree :
      (cuts : List (Text × Cut)) (x : Text)
      → IsActor c.graph x
      → Agree cuts
      → (next : List (Text × Cut)) × (plan_actor c cuts x ≡ ok next)
        × Agree next
        × (contains_key x next ≡ true)
        × ((a : Text) → contains_key a cuts ≡ true → contains_key a next ≡ true)
  unfolding plan_actor
  plan_actor-Agree cuts x known h = elim (Bool-cases (contains_key x cuts)) [
    | inl old ↦ (cuts, rw old, h, old, λ a k. k)
    | inr new ↦ elim (Option-cases (get x c.cohort_by_actor)) [
      | inl alone ↦
          let (cut, e, good) = single_cut-IsGood c st all w families l placed at needed x known in
          (
            BTreeMap.insert x cut cuts,
            rw new (rw (alone) (rw e refl)),
            insert-Agree cuts x cut alone good h,
            ground (arith, get-insert x x cut cuts, eqb_refl x),
            λ a k. ground (arith, get-insert a x cut cuts),
          )
      | inr (j, mine) ↦
          let (group, f, m) = cohorts.to_group x j mine in cohort_case j mine group f m new
    ]
  ]
    where
      cohort_case :
          (j : ℕ)
          → get x c.cohort_by_actor ≡ some j
          → (group : List Text) → get_elem? c.constraints.cohorts j ≡ some group
          → contains x group ≡ true
          → contains_key x cuts ≡ false
          → (next : List (Text × Cut)) × (plan_actor c cuts x ≡ ok next)
            × Agree next
            × (contains_key x next ≡ true)
            × ((a : Text) → contains_key a cuts ≡ true → contains_key a next ≡ true)
      cohort_case j mine [] f m new = cc
      cohort_case j mine (b ∷ group) f m new =
          let (cut, e, good) =
            cohort_cut-IsGood c st all w families l placed at needed b group
              (λ a k. (cohorts.of_group a j (b ∷ group) f k).1) in
          (
            share cut (b ∷ group) cuts,
            rw new (rw mine (rw f (rw e refl))),
            share-Agree cuts j (b ∷ group) cut f good h,
            ground (arith, get-share cut (b ∷ group) cuts x),
            λ a k. ground (arith, get-share cut (b ∷ group) cuts a),
          )

  plan_actors-Agree :
      (cuts : List (Text × Cut)) (xs : List Text)
      → Known c.graph xs
      → Agree cuts
      → (last : List (Text × Cut)) × (plan_actors c cuts xs ≡ ok last)
        × Agree last
        × ((a : Text) → contains a xs ≡ true → contains_key a last ≡ true)
        × ((a : Text) → contains_key a cuts ≡ true → contains_key a last ≡ true)
  unfolding plan_actors
  plan_actors-Agree cuts [] known h = (cuts, refl, h, λ a m. cc, λ a k. k)
  plan_actors-Agree cuts (x ∷ rest) known h =
      let (next, e, h', has, keep) =
        plan_actor-Agree cuts x (known x (ground (arith, eqb_refl x))) h in
      let (last, e', h'', all', keep') =
        plan_actors-Agree next rest (λ a m. known a (ground arith)) h' in
      (
        last,
        ap (λ r. r >>= λ n. plan_actors c n rest) e ∙ e',
        h'',
        λ a m. elim (Bool-cases (eqb a x)) [
          | inl same ↦
              keep' a (subst (λ z. contains_key z next ≡ true) (sym ((eqb_iff a x).0 same)) has)
          | inr other ↦ all' a (rw other at m)
        ],
        λ a k. keep' a (keep a k),
      )

  empty-Agree : Agree []
  empty-Agree = record { good = λ a d e. cc; shared = λ i cohort e a b m k. refl }

  abbrev pub Outcome : List (Text × Cut) → Type 0
  Outcome cuts =
      ((a : Text)
        → IsActor c.graph a
        → (cut : Cut) × (get a cuts ≡ some cut)
          × IsSorted cut
          × (is_valid_cut (forest st.roots) cut ≡ true))
      × ((i : ℕ) (cohort : List Text)
          → get_elem? c.constraints.cohorts i ≡ some cohort
          → (a b : Text) → contains a cohort ≡ true
          → contains b cohort ≡ true
          → get a cuts ≡ get b cuts)

  pub all_planned :
      (cuts : List (Text × Cut)) × (plan_actors c [] c.graph.actors ≡ ok cuts) × Outcome cuts
  all_planned =
      let (cuts, e, h, has, _) = plan_actors-Agree [] c.graph.actors (λ a m. m) empty-Agree in
      (
        cuts,
        e,
        (
          λ a known. elim (Option-cases (get a cuts)) [
            | inl gone ↦ absurd (ground (arith, has a))
            | inr (cut, found) ↦
                let (s, shape) = h.good a cut found in
                (
                  cut,
                  found,
                  s,
                  (is_valid_cut_iff (forest st.roots) cut s).1 (Shape-IsCut st.roots cut shape),
                )
          ],
          h.shared,
        ),
      )
