-- ===== src/Routing/Commitment/Plan/Cuts.antt =====
-- `cut_for_needs` and `expose_actors` return, and keep the shape of cuts.
use argent.Base.{
  Text, ℕ, ◌≡◌, refl, sym, ap, ◌∙◌, subst, inl, inr, true, false, none, some, List, [], ◌∷◌, arith,
  get_elem?, Bool-cases, Option-cases,
}
use argent.Collections.Order.{eqb, eqb_iff, nat_ord, bytes_ord}
use argent.Collections.BTreeSet
use argent.Collections.BTreeSet.{
  contains, IsSorted, contains-insert, contains-remove, insert-IsSorted, remove-IsSorted,
}
use argent.Collections.BTreeMap.{get}
use argent.Routing.Graph.{RouteGraph, IsActor}
use argent.Routing.Forest.{leaf, branch, NodePath, Cut, child, root}
use argent.Routing.Commitment.{Membership, ok, ◌>>=◌, expect}
use argent.Routing.Commitment.Groups.{IsIndex}
use argent.Routing.Commitment.Locations.{Building, CommitmentLocations, leaves}
use argent.Routing.Commitment.Locations.Located.{Located, FamilyAt, MemberAt}
use argent.Routing.Commitment.Plan.{
  need_path, collect_needs, cut_for_needs, insert_members, open_family, expose_from, expose_actors,
}
use argent.Routing.Commitment.Plan.Shape.{AtRoot, AtLeaf, Shape}
use argent.Routing.Commitment.Plan.Moves.{insert_root-Shape, insert_leaf-Shape, remove_root-Shape}

module _ (g : RouteGraph) (families : List (List Text)) (by_actor : Membership)
    (index : IsIndex g families by_actor) (st : Building) (all : List Text)
    (l : Located families by_actor all st)
    (placed : (a : Text) → IsActor g a → contains a all ≡ true) where
  abbrev locations : CommitmentLocations
  locations = record { actor_paths = st.actor_paths; family_paths = st.family_paths }

  -- All selected paths are roots.
  abbrev Roots : Cut → Type 0
  Roots cut = (p : NodePath) → contains p cut ≡ true → AtRoot st.roots p

  -- The branch of the family of an actor.
  family_root :
      (a : Text) (i : ℕ)
      → IsActor g a
      → get a by_actor ≡ some i
      → (q : NodePath) × (get i st.family_paths ≡ some q) × FamilyAt families by_actor st.roots i q
  family_root a i known mine =
      let ((q, e), _) = l.emitted i ((l.placed a (placed a known)).1 i mine) in
      (q, e, l.family i q e)

  member_leaf :
      (a : Text) (i : ℕ)
      → IsActor g a
      → get a by_actor ≡ some i
      → (p : NodePath) × (q : NodePath) × (get a st.actor_paths ≡ some p)
        × (get i st.family_paths ≡ some q)
        × MemberAt families by_actor st.roots a i q p
  member_leaf a i known mine =
      let (_, paths) = l.emitted i ((l.placed a (placed a known)).1 i mine) in
      let (p, e) = paths a mine in let (q, f, at) = l.member a i p mine e in (p, q, e, f, at)

  single_leaf :
      (a : Text)
      → IsActor g a
      → get a by_actor ≡ none
      → (p : NodePath) × (r : ℕ) × (get a st.actor_paths ≡ some p)
        × (p ≡ root r)
        × (get_elem? st.roots r ≡ some (leaf a))
  single_leaf a known alone =
      let (p, e) = (l.placed a (placed a known)).0 alone in
      let (r, q, at) = l.single a p alone e in (p, r, e, q, at)

  need_path-AtRoot :
      (a : Text)
      → IsActor g a
      → (p : NodePath) × (need_path by_actor locations a ≡ ok p) × AtRoot st.roots p
  need_path-AtRoot a known = elim (Option-cases (get a by_actor)) [
    | inl alone ↦
        let (p, r, e, q, at) = single_leaf a known alone in (p, ground arith, (r, leaf a, q, at))
    | inr (i, mine) ↦
        let (q, e, (r, family, p, _, at)) = family_root a i known mine in
        (q, ground arith, (r, branch (leaves family), p, at))
  ]

  -- Every actor in the list belongs to the graph.
  abbrev pub Known : List Text → Type 0
  Known xs = (a : Text) → contains a xs ≡ true → IsActor g a

  collect_needs-Roots :
      (cut : Cut) (xs : List Text)
      → Known xs
      → IsSorted cut
      → Roots cut
      → (c : Cut) × (collect_needs by_actor locations cut xs ≡ ok c) × IsSorted c × Roots c
  unfolding collect_needs
  collect_needs-Roots cut [] known sorted roots = (cut, refl, sorted, roots)
  collect_needs-Roots cut (a ∷ xs) known sorted roots =
      let (p, e, at) = need_path-AtRoot a (known a (ground (arith, eqb_iff a a))) in
      let (c, e', sorted', roots') =
        collect_needs-Roots (BTreeSet.insert p cut) xs (λ b m. known b (ground arith))
          (insert-IsSorted p cut sorted)
          (λ q m. elim (Bool-cases (eqb q p)) [
            | inl same ↦ subst (AtRoot st.roots) (sym ((eqb_iff q p).0 same)) at
            | inr other ↦ roots q (ground (arith, contains-insert q p cut))
          ]) in
      (
        c,
        ap (λ r. r >>= λ q. collect_needs by_actor locations (BTreeSet.insert q cut) xs) e ∙ e',
        sorted',
        roots',
      )

  pub cut_for_needs-Shape :
      (xs : List Text)
      → Known xs
      → (c : Cut) × (cut_for_needs xs by_actor locations ≡ ok c) × IsSorted c × Shape st.roots c
  unfolding cut_for_needs
  cut_for_needs-Shape xs known =
      let (c, e, sorted, roots) = collect_needs-Roots [] xs known tt (λ p m. cc) in
      (c, e, sorted, λ p m. inl (roots p m))

  AtLeaf-of_MemberAt :
      (a : Text) (i r : ℕ) (q p : NodePath)
      → q ≡ root r
      → MemberAt families by_actor st.roots a i q p
      → AtLeaf st.roots r p
  AtLeaf-of_MemberAt a i r q p e (k, family, (r', fam, e', fi, at), fi', m, pe) =
      let same : r' ≡ r = cc in (k, family, a, pe ∙ ap (λ z. child z k) e, ground arith, m)

  insert_members-Shape :
      (members : List Text) (cut : Cut) (i r : ℕ) (q : NodePath)
      → ((a : Text) → contains a members ≡ true → (get a by_actor ≡ some i) × IsActor g a)
      → get i st.family_paths ≡ some q
      → q ≡ root r
      → contains (root r) cut ≡ false
      → IsSorted cut
      → Shape st.roots cut
      → (c : Cut) × (insert_members locations members cut ≡ ok c) × IsSorted c × Shape st.roots c
  unfolding insert_members
  insert_members-Shape [] cut i r q mem f e apart sorted shape = (cut, refl, sorted, shape)
  insert_members-Shape (a ∷ rest) cut i r q mem f e apart sorted shape =
      let (mine, known) = mem a (ground (arith, eqb_iff a a)) in
      let (p, q', pe, f', at) = member_leaf a i known mine in
      let same : q' ≡ root r = cc in
      let (shape', apart') =
        insert_leaf-Shape st cut r p (AtLeaf-of_MemberAt a i r q' p same at) apart shape in
      let (c, done, sorted', shape'') =
        insert_members-Shape rest (BTreeSet.insert p cut) i r q (λ b m. mem b (ground arith)) f e
          apart' (insert-IsSorted p cut sorted) shape' in
      (
        c,
        ap (λ o. expect o >>= λ z. insert_members locations rest (BTreeSet.insert z cut)) pe ∙ done,
        sorted',
        shape'',
      )

  open_family-Shape :
      (a : Text) (i : ℕ) (cut : Cut)
      → IsActor g a
      → get a by_actor ≡ some i
      → IsSorted cut
      → Shape st.roots cut
      → (c : Cut) × (open_family families locations i cut ≡ ok c) × IsSorted c × Shape st.roots c
  unfolding open_family
  open_family-Shape a i cut known mine sorted shape =
      let (q, f, (r, fam, e, fi, at)) = family_root a i known mine in
      let gone : contains (root r) (BTreeSet.remove q cut) ≡ false =
        ground (arith, contains-remove (root r) q cut, eqb_iff q (root r)) in
      let (c, done, sorted', shape') =
        insert_members-Shape fam (BTreeSet.remove q cut) i r q (λ b m. index.of_group b i fam fi m)
          f e gone (remove-IsSorted q cut sorted) (remove_root-Shape st cut q shape) in
      (
        c,
        ap
              (λ o. expect o >>= λ z. expect (get_elem? families i) >>= λ family.
                insert_members locations family (BTreeSet.remove z cut))
              f
            ∙ ap
                (λ o.
                  expect o >>= λ family. insert_members locations family (BTreeSet.remove q cut))
                fi
            ∙ done,
        sorted',
        shape',
      )

  expose_from-Shape :
      (actors : List Text) (opened : List ℕ) (cut : Cut)
      → Known actors
      → IsSorted cut
      → Shape st.roots cut
      → (c : Cut) × (expose_from families by_actor locations opened cut actors ≡ ok c)
        × IsSorted c
        × Shape st.roots c
  unfolding expose_from
  expose_from-Shape [] opened cut known sorted shape = (cut, refl, sorted, shape)
  expose_from-Shape (a ∷ rest) opened cut known sorted shape =
      let here = known a (ground (arith, eqb_iff a a)) in
      let later : Known rest = λ b m. known b (ground arith) in
      elim (Option-cases (get a by_actor)) [
        | inl alone ↦
            let (p, r, pe, e, at) = single_leaf a here alone in
            let (c, done, sorted', shape') =
              expose_from-Shape rest opened (BTreeSet.insert p cut) later
                (insert-IsSorted p cut sorted) (rw e (insert_root-Shape st cut r a at shape)) in
            (c, rw (alone, expose_from) (rw pe done), sorted', shape')
        | inr (i, mine) ↦ elim (Bool-cases (contains i opened)) [
          | inl old ↦
              let (c, done, sorted', shape') =
                expose_from-Shape rest opened cut later sorted shape in
              (c, rw (mine, expose_from) (rw old done), sorted', shape')
          | inr new ↦
              let (d, opens, sorted', shape') = open_family-Shape a i cut here mine sorted shape in
              let (c, done, sorted'', shape'') =
                expose_from-Shape rest (BTreeSet.insert i opened) d later sorted' shape' in
              (c, rw (mine, expose_from) (rw new (rw opens done)), sorted'', shape'')
        ]
      ]

  pub expose_actors-Shape :
      (cut : Cut) (actors : List Text)
      → Known actors
      → IsSorted cut
      → Shape st.roots cut
      → (c : Cut) × (expose_actors cut actors families by_actor locations ≡ ok c)
        × IsSorted c
        × Shape st.roots c
  unfolding expose_actors
  expose_actors-Shape cut actors known sorted shape =
      expose_from-Shape actors [] cut known sorted shape
