-- ===== src/Routing/Commitment/Plan/Provided.antt =====
-- `commitment_plan`: the nodes that a cut selects for the actors it was asked for, in the forest.
use argent.Base.{
  Text, ℕ, suc, ◌≡◌, refl, sym, ap, ◌∙◌, subst, inl, inr, true, false, some, List, [], ◌∷◌, arith,
  get_elem?, Bool-cases, Option-cases,
}
use argent.Collections.Order.{eqb, eqb_iff, nat_ord, bytes_ord}
use argent.Collections.Slices.{starts_with}
use argent.Collections.BTreeSet.{contains}
use argent.Collections.BTreeMap.{get}
use argent.Routing.Graph.{Consumes}
use argent.Routing.Forest.{leaf, branch, CommitmentForest, NodePath, Cut, child, root, node}
use argent.Routing.Forest.Paths.{starts_with_refl, starts_with-child}
use argent.Routing.Commitment.{ok, expect}
use argent.Routing.Commitment.Groups.{IsIndex}
use argent.Routing.Commitment.Locations.{Building, leaves}
use argent.Routing.Commitment.Locations.Located.{Located}
use argent.Routing.Commitment.Locations.Exact.{node-root, node-leaf}
use argent.Routing.Commitment.Plan.{
  Context, cut_for_needs, expose_actors, single_cut, exposed, cohort_cut,
}
use argent.Routing.Commitment.Plan.Shape.{forest}
use argent.Routing.Commitment.Plan.Serves.{Leaf, Covers, cut_for_needs-Covers, expect_ok}
use argent.Routing.Commitment.Plan.Exposes.{expose_actors-Leaf, expect-some}
use argent.Routing.Commitment.Plan.Origin.{exposed_kept, exposed_consumed}

-- The leaf of the actor is selected.
abbrev pub Selected : CommitmentForest → Cut → Text → Type 0
Selected f cut t = (p : NodePath) × (contains p cut ≡ true) × (node f p ≡ some (leaf t))

-- A node above the leaf of the actor, or the leaf itself, is selected.
abbrev pub Reached : CommitmentForest → Cut → Text → Type 0
Reached f cut t =
    (p : NodePath) × (q : NodePath) × (contains p cut ≡ true)
    × (node f q ≡ some (leaf t))
    × (starts_with q p ≡ true)

leaves-injective : (xs ys : List Text) → leaves xs ≡ leaves ys → xs ≡ ys
leaves-injective [] [] e = refl
leaves-injective [] (y ∷ ys) e = cc
leaves-injective (x ∷ xs) [] e = cc
leaves-injective (x ∷ xs) (y ∷ ys) e =
    let head : x ≡ y = cc in
    let tail : leaves xs ≡ leaves ys = cc in rw head (ap (λ z. y ∷ z) (leaves-injective xs ys tail))

pub member_at :
    (t : Text) (xs : List Text) → contains t xs ≡ true → (k : ℕ) × (get_elem? xs k ≡ some t)
member_at t [] m = cc
member_at t (x ∷ xs) m = elim (Bool-cases (eqb t x)) [
  | inl e ↦ (0, ap some (sym ((eqb_iff t x).0 e)))
  | inr e ↦ let (k, f) = member_at t xs (rw e at m) in (suc k, f)
]

module _ (c : Context) (st : Building) (all : List Text)
    (families : IsIndex c.graph c.constraints.families c.family_by_actor)
    (l : Located c.constraints.families c.family_by_actor all st)
    (at : c.locations
      ≡ record { actor_paths = st.actor_paths; family_paths = st.family_paths }) where
  pub in_actors :
      (t : Text) (p : NodePath)
      → get t c.locations.actor_paths ≡ some p
      → get t st.actor_paths ≡ some p
  in_actors t p e = ap (λ z. get t z.actor_paths) (sym at) ∙ e

  pub in_families :
      (i : ℕ) (q : NodePath)
      → get i c.locations.family_paths ≡ some q
      → get i st.family_paths ≡ some q
  in_families i q e = ap (λ z. get i z.family_paths) (sym at) ∙ e

  pub apart :
      (t : Text) (p : NodePath) (i : ℕ) (q : NodePath)
      → get t c.locations.actor_paths ≡ some p
      → get i c.locations.family_paths ≡ some q
      → eqb q p ≡ false
  apart t p i q e f = elim (Bool-cases (eqb q p)) [
    | inr other ↦ other
    | inl same ↦
        let q_p : q ≡ p = (eqb_iff q p).0 same in
        let (r, family, q_r, _, n) = l.family i q (in_families i q f) in
        absurd (elim (Option-cases (get t c.family_by_actor)) [
          | inl alone ↦
              let (r', p_r, n') = l.single t p alone (in_actors t p e) in
              let r_r : r ≡ r' = ground (arith, q_p, q_r, p_r) in ground (arith, n, n', r_r)
          | inr (j, mine) ↦
              let (q', _, (k, _, (r', _, q_r', _, _), _, _, p_k)) =
                l.member t j p mine (in_actors t p e) in
              let long : p ≡ child (root r') k = p_k ∙ ap (λ z. child z k) q_r' in
              ground (arith, q_p, q_r, long)
        ])
  ]

  same_family :
      (t : Text) (i j : ℕ) (q : NodePath)
      → get t c.family_by_actor ≡ some i
      → get i c.locations.family_paths ≡ some q
      → get j c.locations.family_paths ≡ some q
      → i ≡ j
  same_family t i j q mine e f =
      let (r, family, q_r, m, n) = l.family i q (in_families i q e) in
      let (r', family', q_r', m', n') = l.family j q (in_families j q f) in
      let (group, g, member) = families.to_group t i mine in
      let r_r : r ≡ r' = ground (arith, q_r, q_r') in
      let same_leaves : leaves family ≡ leaves family' = ground (arith, n, n', r_r) in
      let same : group ≡ family' = ground (arith, leaves-injective family family' same_leaves) in
      let here =
        (families.of_group t j family' m' (subst (λ z. contains t z ≡ true) same member)).0 in
      ground arith

  abbrev pub HasLeaf : Text → Cut → Type 0
  HasLeaf = Leaf c.constraints.families c.family_by_actor c.locations

  abbrev pub IsCovered : Text → Cut → Type 0
  IsCovered = Covers c.constraints.families c.family_by_actor c.locations

  pub Leaf-node :
      (t : Text) (p : NodePath)
      → get t c.locations.actor_paths ≡ some p
      → node (forest st.roots) p ≡ some (leaf t)
  Leaf-node t p e = elim (Option-cases (get t c.family_by_actor)) [
    | inl alone ↦
        let (r, p_r, n) = l.single t p alone (in_actors t p e) in
        ap (node (forest st.roots)) p_r ∙ node-root st.roots r n
    | inr (i, mine) ↦
        let (q, _, (k, family, (r, family', q_r, m', n), m, f, p_k)) =
          l.member t i p mine (in_actors t p e) in
        let same : family' ≡ family = ground arith in
        let n' : get_elem? st.roots r ≡ some (branch (leaves family)) =
          n ∙ ap (λ z. some (branch (leaves z))) same in
        ap (node (forest st.roots)) (p_k ∙ ap (λ z. child z k) q_r)
        ∙ node-leaf st.roots r k family t n' f
  ]

  pub Leaf-Selected : (t : Text) (cut : Cut) → HasLeaf t cut → Selected (forest st.roots) cut t
  Leaf-Selected t cut (p, e, m) = (p, m, Leaf-node t p e)

  pub Covers-Reached : (t : Text) (cut : Cut) → IsCovered t cut → Reached (forest st.roots) cut t
  Covers-Reached t cut (inl (p, e, m)) = (p, p, m, Leaf-node t p e, starts_with_refl p)
  Covers-Reached t cut (inr (i, q, mine, e, m)) =
      let (r, family, q_r, f, n) = l.family i q (in_families i q e) in
      let (group, g, member) = families.to_group t i mine in
      let same : group ≡ family = ground arith in
      let (k, at_k) = member_at t family (subst (λ z. contains t z ≡ true) same member) in
      (
        q,
        child q k,
        m,
        ap (λ z. node (forest st.roots) (child z k)) q_r ∙ node-leaf st.roots r k family t n at_k,
        starts_with-child q k,
      )

  -- A cut that selects the leaves of the first actors, and covers the second ones.
  abbrev Exposing : Cut → Cut → List Text → Type 0
  Exposing cut out xs =
      ((t : Text) → contains t xs ≡ true → HasLeaf t out)
      × ((t : Text) → IsCovered t cut → IsCovered t out)

  exposing :
      (cut out : Cut) (xs : List Text)
      → expose_actors cut xs c.constraints.families c.family_by_actor c.locations ≡ ok out
      → Exposing cut out xs
  exposing cut out xs h =
      expose_actors-Leaf c.constraints.families c.family_by_actor c.locations families.to_group
        apart same_family cut out xs h

  pub single_cut-provides :
      (a : Text) (cut : Cut)
      → single_cut c a ≡ ok cut
      → (own : List Text) × (get a c.actor_needs ≡ some own)
        × ((t : Text) → Consumes c.graph a t → HasLeaf t cut)
        × ((t : Text) → contains t own ≡ true → IsCovered t cut)
  unfolding single_cut
  single_cut-provides a cut h =
      let (own, e, h') = expect_ok (expect (get a c.actor_needs)) _ cut h in
      let (first, e', h'') = expect_ok (cut_for_needs own c.family_by_actor c.locations) _ cut h' in
      let covers =
        cut_for_needs-Covers c.constraints.families c.family_by_actor c.locations own first e' in
      elim (Option-cases (get a c.graph.consumes)) [
        | inl none' ↦
            let same : first ≡ cut = ground arith in
            (
              own,
              expect-some (get a c.actor_needs) own e,
              λ t k. absurd (ground arith),
              λ t m. subst (IsCovered t) same (covers t m),
            )
        | inr (consumes, found) ↦
            let x = exposing first cut consumes (ground arith) in
            (
              own,
              expect-some (get a c.actor_needs) own e,
              λ t k. x.0 t (ground arith),
              λ t m. x.1 t (covers t m),
            )
      ]

  pub cohort_cut-provides :
      (a : Text) (rest : List Text) (cut : Cut)
      → cohort_cut c (a ∷ rest) ≡ ok cut
      → (own : List Text) × (get a c.actor_needs ≡ some own)
        × ((t : Text) → contains t (a ∷ rest) ≡ true → HasLeaf t cut)
        × ((b t : Text) → contains b (a ∷ rest) ≡ true → Consumes c.graph b t → HasLeaf t cut)
        × ((t : Text) → contains t own ≡ true → IsCovered t cut)
  unfolding cohort_cut
  cohort_cut-provides a rest cut h =
      let (own, e, h') = expect_ok (expect (get a c.actor_needs)) _ cut h in
      let (first, e', h'') = expect_ok (cut_for_needs own c.family_by_actor c.locations) _ cut h' in
      let covers =
        cut_for_needs-Covers c.constraints.families c.family_by_actor c.locations own first e' in
      let x = exposing first cut (exposed c.graph (a ∷ rest) (a ∷ rest)) h'' in
      (
        own,
        expect-some (get a c.actor_needs) own e,
        λ t m. x.0 t (exposed_kept c.graph (a ∷ rest) (a ∷ rest) t m),
        λ b t m k. x.0 t (exposed_consumed c.graph (a ∷ rest) (a ∷ rest) b t m k),
        λ t m. x.1 t (covers t m),
      )
