-- ===== src/Routing/Commitment/Plan/Routed.antt =====
-- `commitment_plan` and `cut_transition`: along an emit edge the cut of the target can be derived from
-- the cut of the source.
use argent.Base.{
  Text, ℕ, zero, suc, ◌<◌, ◌≡◌, refl, sym, ap, ◌∙◌, subst, inl, inr, true, false, some, List, [],
  ◌∷◌, All, arith, get_elem?,
}
use argent.Collections.Order.{nat_ord, bytes_ord}
use argent.Collections.Slices.{starts_with}
use argent.Collections.BTreeSet.{contains}
use argent.Collections.BTreeMap.{get}
use argent.Routing.Graph.{Emits, IsActor, RouteGraph}
use argent.Routing.Needs.Need.{Need, emitted, inherited}
use argent.Routing.Forest.{NodePath, Cut, child, count, is_empty, node}
use argent.Routing.Forest.Paths.{starts_with_refl, starts_with-child}
use argent.Routing.Commitment.Groups.{IsIndex}
use argent.Routing.Commitment.Groups.Distinct.{IsDistinct, contains_at}
use argent.Routing.Commitment.Locations.{Building, leaves}
use argent.Routing.Commitment.Locations.Located.{Located}
use argent.Routing.Commitment.Locations.Exact.{node-root}
use argent.Routing.Commitment.Plan.{Context}
use argent.Routing.Commitment.Plan.Shape.{forest}
use argent.Routing.Commitment.Plan.Provided.{IsCovered, in_actors, in_families}
use argent.Routing.Commitment.Plan.Related.{Near, own, family, sibling, MemberLeaf}
use argent.Routing.Commitment.Plan.Due.{IsDue, Concern}
use argent.Routing.Transition.Packs.{Packed, selected, packed}
use argent.Routing.Transition.Derivable.{Derivable, All-of_contains}

leaves-nonempty : (t : Text) (xs : List Text) → contains t xs ≡ true → is_empty (leaves xs) ≡ false
leaves-nonempty t [] m = cc
leaves-nonempty t (x ∷ xs) m = refl

leaf_at : (xs : List Text) (k : ℕ) → k < count (leaves xs) → (y : Text) × (get_elem? xs k ≡ some y)
leaf_at [] k lt = absurd (omega arith)
leaf_at (x ∷ xs) zero lt = (x, refl)
leaf_at (x ∷ xs) (suc k) lt = leaf_at xs k (omega arith)

module _ (c : Context) (st : Building) (all : List Text)
    (families : IsIndex c.graph c.constraints.families c.family_by_actor)
    (distinct : (i : ℕ) (group : List Text)
      → get_elem? c.constraints.families i ≡ some group
      → IsDistinct group)
    (l : Located c.constraints.families c.family_by_actor all st)
    (placed : (a : Text) → IsActor c.graph a → contains a all ≡ true)
    (at : c.locations
      ≡ record { actor_paths = st.actor_paths; family_paths = st.family_paths }) where
  -- A leaf of a family lies below the branch of the family.
  below_branch :
      (i : ℕ) (y : Text) (p q : NodePath)
      → MemberLeaf c.family_by_actor c.locations p i y
      → get i c.locations.family_paths ≡ some q
      → starts_with p q ≡ true
  below_branch i y p q (mine, e) f =
      let (q', f', (k, _, _, _, _, p_k)) =
        l.member y i p mine (in_actors c st all families l at y p e) in
      let same : q' ≡ q = ground (arith, in_families c st all families l at i q f) in
      rw p_k (rw same (starts_with-child q k))

  -- The branch of a family can be packed from a cut that selects all its leaves.
  branch-Packed :
      (x : Text) (i : ℕ) (q : NodePath) (cut : Cut)
      → get x c.family_by_actor ≡ some i
      → get i c.locations.family_paths ≡ some q
      → ((y : Text) (p : NodePath)
          → MemberLeaf c.family_by_actor c.locations p i y
          → contains p cut ≡ true)
      → Packed (forest st.roots) cut q
  branch-Packed x i q cut mine f every =
      let (r, fam, q_r, f_i, n) = l.family i q (in_families c st all families l at i q f) in
      let (group, g_i, x_in) = families.to_group x i mine in
      let same : group ≡ fam = ground arith in
      packed (ap (node (forest st.roots)) q_r ∙ node-root st.roots r n)
        (leaves-nonempty x fam (subst (λ z. contains x z ≡ true) same x_in))
        (λ k lt.
          let (y, y_k) = leaf_at fam k lt in
          let (y_i, known) = families.of_group y i fam f_i (contains_at fam k y y_k) in
          let (p, y_p) = (l.emitted i ((l.placed y (placed y known)).1 i y_i)).1 y y_i in
          let (q', f', (j, fam', _, f_i', y_j, p_j)) = l.member y i p y_i y_p in
          let same_q : q' ≡ q = ground (arith, in_families c st all families l at i q f) in
          let same_fam : fam' ≡ fam = ground arith in
          let same_k : j ≡ k =
            distinct i fam f_i j k y (subst (λ z. get_elem? z j ≡ some y) same_fam y_j) y_k in
          let here : p ≡ child q k = p_j ∙ ap (λ z. child z j) same_q ∙ ap (child q) same_k in
          let located : get y c.locations.actor_paths ≡ some p =
            ap (λ z. get y z.actor_paths) at ∙ y_p in
          selected (subst (λ z. contains z cut ≡ true) here (every y p (y_i, located))))

  Near-Derivable :
      (X Y Z : Text → Type 0) (x : Text) (p : NodePath) (cut : Cut)
      → Near c.family_by_actor c.locations Z x p
      → IsCovered c st all families l at x cut
      → IsDue c st all families l at X Y cut
      → Derivable (forest st.roots) cut p
  Near-Derivable X Y Z x p cut (own alone e) (inl (p', e', m)) due =
      let same : p' ≡ p = ground arith in
      inl (p, subst (λ z. contains z cut ≡ true) same m, starts_with_refl p)
  Near-Derivable X Y Z x p cut (own alone e) (inr (i, q, mine, f, m)) due =
      inl (q, m, below_branch i x p q (mine, e) f)
  Near-Derivable X Y Z x p cut (family i mine f) (inl (p', e', m)) due =
      inr (branch-Packed x i p cut mine f (λ y r leaf. due.whole i x y p' r (mine, e') leaf m))
  Near-Derivable X Y Z x p cut (family i mine f) (inr (j, q, mine', f', m)) due =
      let index : j ≡ i = ground arith in
      let same : q ≡ p = ground arith in
      inl (p, subst (λ z. contains z cut ≡ true) same m, starts_with_refl p)
  Near-Derivable X Y Z x p cut (sibling i y shown mine y_i y_p) (inl (p', e', m)) due =
      inl (p, due.whole i x y p' p (mine, e') (y_i, y_p) m, starts_with_refl p)
  Near-Derivable X Y Z x p cut (sibling i y shown mine y_i y_p) (inr (j, q, mine', f', m)) due =
      let index : j ≡ i = ground arith in
      inl (
        q,
        m,
        below_branch i y p q (y_i, y_p)
            (subst (λ z. get z c.locations.family_paths ≡ some q) index f'),
      )

  -- Whatever the cut of the target selects, the source needs.
  pub emit-Derivable :
      (h : RouteGraph) (s t : Text) (Y Z : Text → Type 0) (source target : Cut)
      → Emits h s t
      → ((x : Text) → Need h s x → IsCovered c st all families l at x source)
      → IsDue c st all families l at (Concern h s) Y source
      → IsDue c st all families l at (Concern h t) Z target
      → All (Derivable (forest st.roots) source) target
  emit-Derivable h s t Y Z source target edge covers due due' =
      All-of_contains (Derivable (forest st.roots) source) target (λ p m.
        let (x, concern, near) = due'.due p m in
        let needed : Need h s x = elim concern [
          | inl n ↦ inherited edge n
          | inr same ↦ subst (λ z. Need h s z) (sym same) (emitted edge)
        ] in
        Near-Derivable (Concern h s) Y Z x p source near (covers x needed) due)
