-- ===== src/Routing/Commitment/Plan/Related.antt =====
-- `cut_for_needs` and `expose_actors`: a cut selects nothing but the nodes of the actors that it was
-- asked for, and of their families, and it selects all leaves of a family or none.
use argent.Base.{
  Text, ℕ, ◌≡◌, sym, ap, ◌∙◌, subst, ◌⊎◌, inl, inr, true, false, none, some, List, [], ◌∷◌, arith,
  get_elem?, Bool-cases, Option-cases,
}
use argent.Collections.Order.{eqb, eqb_iff, eqb_refl, nat_ord, bytes_ord}
use argent.Collections.BTreeSet
use argent.Collections.BTreeSet.{contains, contains-insert, contains-remove}
use argent.Collections.BTreeMap.{get}
use argent.Routing.Forest.{NodePath, Cut}
use argent.Routing.Commitment.{Membership, ok, ◌>>=◌, expect}
use argent.Routing.Commitment.Locations.{CommitmentLocations}
use argent.Routing.Commitment.Plan.{
  need_path, collect_needs, cut_for_needs, insert_members, open_family, expose_from, expose_actors,
}
use argent.Routing.Commitment.Plan.Serves.{insert_members_kept, insert_members-Leaf, expect_ok}
use argent.Routing.Commitment.Plan.Exposes.{expect-some}

module _ (by_actor : Membership) (locations : CommitmentLocations) where
  -- The path is that of the leaf of an actor outside the families, of the branch of its family, or of
  -- a leaf of its family; the last only if the actor satisfies the predicate.
  pub data Near (Y : Text → Type 0) (x : Text) (p : NodePath) : Type 0 where
    own : get x by_actor ≡ none → get x locations.actor_paths ≡ some p → Near Y x p
    family : (i : ℕ) → get x by_actor ≡ some i → get i locations.family_paths ≡ some p → Near Y x p
    sibling :
        (i : ℕ) (y : Text)
        → Y x
        → get x by_actor ≡ some i
        → get y by_actor ≡ some i
        → get y locations.actor_paths ≡ some p
        → Near Y x p

  -- The path is that of a leaf of a family.
  abbrev pub MemberLeaf : NodePath → ℕ → Text → Type 0
  MemberLeaf p i y = (get y by_actor ≡ some i) × (get y locations.actor_paths ≡ some p)

  -- The cut is due to actors that satisfy the first predicate, and opens families as a whole, for
  -- actors that satisfy the second.
  pub record IsRelated (X Y : Text → Type 0) (cut : Cut) : Type 0 where
    pub due : (p : NodePath) → contains p cut ≡ true → (x : Text) × X x × Near Y x p
    pub whole :
        (i : ℕ) (y z : Text) (p q : NodePath)
        → MemberLeaf p i y
        → MemberLeaf q i z
        → contains p cut ≡ true
        → contains q cut ≡ true

  module _ (families : List (List Text))
      (in_family : (t : Text) (i : ℕ)
        → get t by_actor ≡ some i
        → (group : List Text) × (get_elem? families i ≡ some group) × (contains t group ≡ true))
      (of_family : (t : Text) (i : ℕ) (group : List Text)
        → get_elem? families i ≡ some group
        → contains t group ≡ true
        → get t by_actor ≡ some i)
      (apart : (t : Text) (p : NodePath) (i : ℕ) (q : NodePath)
        → get t locations.actor_paths ≡ some p
        → get i locations.family_paths ≡ some q
        → eqb q p ≡ false)
      (one_leaf : (t u : Text) (p : NodePath)
        → get t locations.actor_paths ≡ some p
        → get u locations.actor_paths ≡ some p
        → t ≡ u)
      (X Y : Text → Type 0) where
    -- A path that is no leaf of a family enters the cut.
    insert-IsRelated :
        (x : Text) (p : NodePath) (cut : Cut)
        → X x
        → Near Y x p
        → ((i : ℕ) (y : Text) → MemberLeaf p i y → ⊥)
        → IsRelated X Y cut
        → IsRelated X Y (BTreeSet.insert p cut)
    insert-IsRelated x p cut k near outside h = record {
      due = λ q m. elim (Bool-cases (eqb q p)) [
        | inl same ↦ (x, k, subst (Near Y x) (sym ((eqb_iff q p).0 same)) near)
        | inr other ↦ h.due q (ground (arith, contains-insert q p cut))
      ];
      whole = λ i y z a b ya zb m. elim (Bool-cases (eqb a p)) [
        | inl same ↦ absurd (outside i y (subst (λ r. MemberLeaf r i y) ((eqb_iff a p).0 same) ya))
        | inr other ↦
            let old = h.whole i y z a b ya zb (ground (arith, contains-insert a p cut)) in
            ground (arith, contains-insert b p cut)
      ];
    }

    -- The path of an actor outside the families.
    alone-IsRelated :
        (x : Text) (p : NodePath) (cut : Cut)
        → X x
        → get x by_actor ≡ none
        → get x locations.actor_paths ≡ some p
        → IsRelated X Y cut
        → IsRelated X Y (BTreeSet.insert p cut)
    alone-IsRelated x p cut k alone e h =
        insert-IsRelated x p cut k (own alone e)
          (λ i y (mine, at). let same : y ≡ x = one_leaf y x p at e in ground arith) h

    -- The branch of a family.
    branch-IsRelated :
        (x : Text) (i : ℕ) (p : NodePath) (cut : Cut)
        → X x
        → get x by_actor ≡ some i
        → get i locations.family_paths ≡ some p
        → IsRelated X Y cut
        → IsRelated X Y (BTreeSet.insert p cut)
    branch-IsRelated x i p cut k mine e h =
        insert-IsRelated x p cut k (family i mine e)
          (λ j y (other, at). ground (arith, apart y p i p at e, eqb_refl p)) h

    collect_needs-IsRelated :
        (xs : List Text) (cut c : Cut)
        → ((x : Text) → contains x xs ≡ true → X x)
        → IsRelated X Y cut
        → collect_needs by_actor locations cut xs ≡ ok c
        → IsRelated X Y c
    unfolding collect_needs
    collect_needs-IsRelated [] cut c all h e = subst (IsRelated X Y) (ground arith) h
    collect_needs-IsRelated (x ∷ xs) cut c all h e =
        let (p, at, more) = expect_ok (need_path by_actor locations x) _ c e in
        let first : X x = all x (ground (arith, eqb_refl x)) in
        let next : IsRelated X Y (BTreeSet.insert p cut) = elim (Option-cases (get x by_actor)) [
          | inl alone ↦
              alone-IsRelated x p cut first alone
                (expect-some (get x locations.actor_paths) p (rw (alone, need_path) at at)) h
          | inr (i, mine) ↦
              branch-IsRelated x i p cut first mine
                (expect-some (get i locations.family_paths) p (rw (mine, need_path) at at)) h
        ] in
        collect_needs-IsRelated xs (BTreeSet.insert p cut) c (λ y m. all y (ground arith)) next more

    pub cut_for_needs-IsRelated :
        (xs : List Text) (c : Cut)
        → ((x : Text) → contains x xs ≡ true → X x)
        → cut_for_needs xs by_actor locations ≡ ok c
        → IsRelated X Y c
    unfolding cut_for_needs
    cut_for_needs-IsRelated xs c all e =
        collect_needs-IsRelated xs [] c all
          (record { due = λ p m. cc; whole = λ i y z p q ya zb m. cc }) e

    -- What `insert_members` adds are leaves of the members.
    insert_members-new :
        (members : List Text) (cut c : Cut) (p : NodePath)
        → insert_members locations members cut ≡ ok c
        → contains p c ≡ true
        → (contains p cut ≡ true)
          ⊎ ((y : Text) × (contains y members ≡ true) × (get y locations.actor_paths ≡ some p))
    unfolding insert_members
    insert_members-new [] cut c p e m =
        let same : cut ≡ c = ground arith in inl (subst (λ z. contains p z ≡ true) (sym same) m)
    insert_members-new (a ∷ members) cut c p e m =
        let (q, at, more) = expect_ok (expect (get a locations.actor_paths)) _ c e in
        elim (insert_members-new members (BTreeSet.insert q cut) c p more m) [
          | inr (y, k, found) ↦ inr (y, ground arith, found)
          | inl old ↦ elim (Bool-cases (eqb p q)) [
            | inl same ↦ inr (
              a,
              ground (arith, eqb_refl a),
              expect-some (get a locations.actor_paths) q at ∙ ap some (sym ((eqb_iff p q).0 same)),
            )
            | inr other ↦ inl (ground (arith, contains-insert p q cut))
          ]
        ]

    open_family-IsRelated :
        (x : Text) (i : ℕ) (cut c : Cut)
        → X x
        → Y x
        → get x by_actor ≡ some i
        → IsRelated X Y cut
        → open_family families locations i cut ≡ ok c
        → IsRelated X Y c
    unfolding open_family
    open_family-IsRelated x i cut c k shown mine h e =
        let (path, at, e') = expect_ok (expect (get i locations.family_paths)) _ c e in
        let (group, f, e'') = expect_ok (expect (get_elem? families i)) _ c e' in
        let at_i = expect-some (get i locations.family_paths) path at in
        let f_i = expect-some (get_elem? families i) group f in
        let fresh = λ (p : NodePath) (m : contains p c ≡ true).
          let r = insert_members-new group (BTreeSet.remove path cut) c p e'' m in r in
        record {
          due = λ p m. elim (fresh p m) [
            | inl old ↦ h.due p (ground (arith, contains-remove p path cut))
            | inr (y, inside, leaf) ↦
                (x, k, sibling i y shown mine (of_family y i group f_i inside) leaf)
          ];
          whole = λ j y z p q (y_j, y_p) (z_j, z_q) m. elim (fresh p m) [
            | inl old ↦
                let stayed =
                  h.whole j y z p q (y_j, y_p) (z_j, z_q)
                    (ground (arith, contains-remove p path cut)) in
                insert_members_kept families by_actor locations group (BTreeSet.remove path cut) c q
                  e'' (ground (arith, contains-remove q path cut, apart z q i path z_q at_i))
            | inr (u, inside, leaf) ↦
                let same : u ≡ y = one_leaf u y p leaf y_p in
                let u_i = of_family u i group f_i inside in
                let j_i : j ≡ i = ground arith in
                let (group', f', z_in) = in_family z j z_j in
                let same' : group' ≡ group = ground arith in
                let (r, z_r, r_c) =
                  insert_members-Leaf families by_actor locations group (BTreeSet.remove path cut) c
                    z e'' (subst (λ w. contains z w ≡ true) same' z_in) in
                let q_r : r ≡ q = ground arith in subst (λ w. contains w c ≡ true) q_r r_c
          ];
        }

    expose_from-IsRelated :
        (actors : List Text) (opened : List ℕ) (cut c : Cut)
        → ((x : Text) → contains x actors ≡ true → X x × Y x)
        → IsRelated X Y cut
        → expose_from families by_actor locations opened cut actors ≡ ok c
        → IsRelated X Y c
    unfolding expose_from
    expose_from-IsRelated [] opened cut c all h e = subst (IsRelated X Y) (ground arith) h
    expose_from-IsRelated (a ∷ actors) opened cut c all h e =
        let (first, shown) = all a (ground (arith, eqb_refl a)) in
        let later : (x : Text) → contains x actors ≡ true → X x × Y x =
          λ x m. all x (ground arith) in
        elim (Option-cases (get a by_actor)) [
          | inl alone ↦
              let e' : (expect (get a locations.actor_paths) >>= λ path.
              expose_from families by_actor locations opened (BTreeSet.insert path cut) actors)
                  ≡ ok c =
                rw (alone, expose_from) at e in
              let (p, at, more) = expect_ok (expect (get a locations.actor_paths)) _ c e' in
              expose_from-IsRelated actors opened (BTreeSet.insert p cut) c later
                (alone-IsRelated a p cut first alone
                  (expect-some (get a locations.actor_paths) p at) h)
                more
          | inr (i, mine) ↦ elim (Bool-cases (contains i opened)) [
            | inl old ↦ expose_from-IsRelated actors opened cut c later h (ground arith)
            | inr new ↦
                let e' : (open_family families locations i cut >>= λ next.
                expose_from families by_actor locations (BTreeSet.insert i opened) next actors)
                    ≡ ok c =
                  rw (mine, new, expose_from) at e in
                let (next, at, more) = expect_ok (open_family families locations i cut) _ c e' in
                expose_from-IsRelated actors (BTreeSet.insert i opened) next c later
                  (open_family-IsRelated a i cut next first shown mine h at) more
          ]
        ]

    pub expose_actors-IsRelated :
        (actors : List Text) (cut c : Cut)
        → ((x : Text) → contains x actors ≡ true → X x × Y x)
        → IsRelated X Y cut
        → expose_actors cut actors families by_actor locations ≡ ok c
        → IsRelated X Y c
    unfolding expose_actors
    expose_actors-IsRelated actors cut c all h e = expose_from-IsRelated actors [] cut c all h e
