-- ===== src/Routing/Commitment/Locations/Exact.antt =====
-- Every recorded path leads to its actor's leaf, or to its family's branch.
use argent.Base.{
  Text, ◌||◌, ℕ, zero, suc, ◌+◌, ◌≡◌, refl, sym, ap, ◌∙◌, subst, inl, inr, true, false, none, some,
  List, [], ◌∷◌, arith, length, get_elem?, Bool-cases, Option-cases,
}
use argent.Collections.Order.{eqb, eqb_iff, eqb_refl, nat_ord, bytes_ord}
use argent.Collections.BTreeSet.{contains, contains-insert}
use argent.Collections.BTreeMap.{get, get-insert}
use argent.Routing.Graph.{RouteGraph}
use argent.Routing.Forest.{CommitmentNode, leaf, branch, NodePath, child, root, nth, node}
use argent.Routing.Commitment.{Membership, ok, ◌>>=◌}
use argent.Routing.Commitment.Groups.{IsIndex}
use argent.Routing.Commitment.Locations.{
  Building, leaves, emit_family, emit_actor, place, place_all, to_nodes,
}
use argent.Routing.Commitment.Locations.Located.{
  nth-leaves, member_paths_in, member_paths_out, kept, new_last, SingleAt, FamilyAt, MemberAt,
  Located, FamilyAt-kept, MemberAt-kept, emit_actor-Located,
}

module _ (families : List (List Text)) (by_actor : Membership) where
  -- Emitting a family, for its first actor.
  module _ (seen : List Text) (st : Building) (x : Text) (i : ℕ) (fam : List Text)
      (l : Located families by_actor seen st) (mine : get x by_actor ≡ some i)
      (unseen : contains i st.emitted_families ≡ false) (at_index : get_elem? families i ≡ some fam)
      (members : (a : Text) → contains a fam ≡ true → get a by_actor ≡ some i)
      (only : (a : Text) → get a by_actor ≡ some i → contains a fam ≡ true) where
    abbrev next : Building
    next = emit_family st i fam

    abbrev path : NodePath
    path = root (length st.roots)

    outside : (a : Text) → (get a by_actor ≡ some i → ⊥) → contains a fam ≡ false
    outside a h = elim (Bool-cases (contains a fam)) [
      | inl m ↦ absurd (h (members a m))
      | inr m ↦ m
    ]

    old_path :
        (a : Text) → (get a by_actor ≡ some i → ⊥) → get a next.actor_paths ≡ get a st.actor_paths
    old_path a h = member_paths_out path 0 fam st.actor_paths a (outside a h)

    family_path : get i next.family_paths ≡ some path
    family_path = ground (arith, get-insert i i path st.family_paths, eqb_refl i)

    other_family_path : (j : ℕ) → eqb j i ≡ false → get j next.family_paths ≡ get j st.family_paths
    other_family_path j h = ground (arith, get-insert j i path st.family_paths)

    family_at : FamilyAt families by_actor next.roots i path
    family_at = (length st.roots, fam, refl, at_index, new_last st.roots (branch (leaves fam)))

    new_path :
        (a : Text)
        → get a by_actor ≡ some i
        → (p : NodePath) × (get a next.actor_paths ≡ some p)
          × MemberAt families by_actor next.roots a i path p
    new_path a h =
        let (k, e, q) = member_paths_in path 0 fam st.actor_paths a (only a h) in
        let same : 0 + k ≡ k = omega arith in
        (child path (0 + k), q, (k, fam, family_at, at_index, e, ap (child path) same))

    next_single :
        (a : Text) (p : NodePath)
        → get a by_actor ≡ none
        → get a next.actor_paths ≡ some p
        → SingleAt families by_actor next.roots a p
    next_single a p n h =
        let (r, e, at) = l.single a p n (sym (old_path a (λ k. cc)) ∙ h) in
        (r, e, kept st.roots (branch (leaves fam)) r at)

    next_member :
        (a : Text) (j : ℕ) (p : NodePath)
        → get a by_actor ≡ some j
        → get a next.actor_paths ≡ some p
        → (q : NodePath) × (get j next.family_paths ≡ some q)
          × MemberAt families by_actor next.roots a j q p
    next_member a j p n h = elim (Bool-cases (eqb j i)) [
      | inl same ↦
          let e = (eqb_iff j i).0 same in
          let (p', h', at) = new_path a (n ∙ ap some e) in
          let pp : p' ≡ p = cc in
          (
            path,
            subst (λ z. get z next.family_paths ≡ some path) (sym e) family_path,
            subst (λ z. MemberAt families by_actor next.roots a z path p) (sym e)
                (subst (λ z. MemberAt families by_actor next.roots a i path z) pp at),
          )
      | inr other ↦
          let away : get a by_actor ≡ some i → ⊥ = λ k. ground (arith, eqb_iff j i) in
          let (q, f, at) = l.member a j p n (sym (old_path a away) ∙ h) in
          (
            q,
            other_family_path j other ∙ f,
            MemberAt-kept families by_actor st.roots (branch (leaves fam)) a j q p at,
          )
    ]

    next_family :
        (j : ℕ) (p : NodePath)
        → get j next.family_paths ≡ some p
        → FamilyAt families by_actor next.roots j p
    next_family j p h = elim (Bool-cases (eqb j i)) [
      | inl same ↦
          let e = (eqb_iff j i).0 same in
          let h' = subst (λ z. get z next.family_paths ≡ some p) e h in
          let pp : path ≡ p = cc (family_path) in
          subst (λ z. FamilyAt families by_actor next.roots z p) (sym e)
            (subst (λ z. FamilyAt families by_actor next.roots i z) pp family_at)
      | inr other ↦
          FamilyAt-kept families by_actor st.roots (branch (leaves fam)) j p
            (l.family j p (sym (other_family_path j other) ∙ h))
    ]

    next_emitted :
        (j : ℕ)
        → contains j next.emitted_families ≡ true
        → ((p : NodePath) × (get j next.family_paths ≡ some p))
          × ((a : Text)
              → get a by_actor ≡ some j
              → (p : NodePath) × (get a next.actor_paths ≡ some p))
    next_emitted j h = elim (Bool-cases (eqb j i)) [
      | inl same ↦
          let e = (eqb_iff j i).0 same in
          (
            (path, subst (λ z. get z next.family_paths ≡ some path) (sym e) family_path),
            λ a n. let (p, q, _) = new_path a (n ∙ ap some e) in (p, q),
          )
      | inr other ↦
          let ((p, f), paths) =
            l.emitted j (ground (arith, contains-insert j i st.emitted_families)) in
          (
            (p, other_family_path j other ∙ f),
            λ a n.
                let away : get a by_actor ≡ some i → ⊥ = λ k. ground (arith, eqb_iff j i) in
                let (q, e) = paths a n in (q, old_path a away ∙ e),
          )
    ]

    emit_family-Located : Located families by_actor (x ∷ seen) next
    emit_family-Located = record {
      single = next_single;
      member = next_member;
      family = next_family;
      emitted = next_emitted;
      fresh = λ j h.
          other_family_path j (ground (arith, contains-insert j i st.emitted_families))
          ∙ l.fresh j (ground (arith, contains-insert j i st.emitted_families));
      placed = λ a m. elim (Bool-cases (eqb a x)) [
        | inl same ↦ (
          λ n. absurd (ground (arith, eqb_iff a x)),
          λ j n. ground (arith, contains-insert j i st.emitted_families, eqb_iff a x, eqb_iff j i),
        )
        | inr other ↦
            let (single, member) = l.placed a (rw other at m) in
            (
              λ n. let (p, e) = single n in (p, old_path a (λ k. cc) ∙ e),
              λ j n. ground (arith, contains-insert j i st.emitted_families, member j n),
            )
      ];
    }

module _ (g : RouteGraph) (families : List (List Text)) (by_actor : Membership)
    (index : IsIndex g families by_actor) where
  place-Located :
      (seen : List Text) (st : Building) (x : Text)
      → Located families by_actor seen st
      → (next : Building) × (place families by_actor st x ≡ ok next)
        × Located families by_actor (x ∷ seen) next
  unfolding place
  place-Located seen st x l = elim (Option-cases (get x by_actor)) [
    | inl alone ↦
        (emit_actor st x, ground arith, emit_actor-Located families by_actor seen st x alone l)
    | inr (i, mine) ↦ elim (Bool-cases (contains i st.emitted_families)) [
      | inl old ↦ (
        st,
        ground arith,
        record {
          single = l.single;
          member = l.member;
          family = l.family;
          emitted = l.emitted;
          fresh = l.fresh;
          placed = λ a m. elim (Bool-cases (eqb a x)) [
            | inl same ↦
                (λ n. absurd (ground (arith, eqb_iff a x)), λ j n. ground (arith, eqb_iff a x))
            | inr other ↦ l.placed a (rw other at m)
          ];
        },
      )
      | inr new ↦
          let (fam, at_index, c) = index.to_group x i mine in
          (
            emit_family st i fam,
            ground arith,
            emit_family-Located families by_actor seen st x i fam l mine new at_index
                (λ a m. (index.of_group a i fam at_index m).0)
                (λ a n. let (fam', e, m) = index.to_group a i n in ground arith),
          )
    ]
  ]

  -- The loop returns, and all its actors are placed.
  pub place_all-Located :
      (actors seen : List Text) (st : Building)
      → Located families by_actor seen st
      → (last : Building) × (all : List Text) × (place_all families by_actor st actors ≡ ok last)
        × Located families by_actor all last
        × ((a : Text) → (contains a actors || contains a seen) ≡ true → contains a all ≡ true)
  unfolding place_all
  place_all-Located [] seen st l = (st, seen, refl, l, λ a m. m)
  place_all-Located (x ∷ rest) seen st l =
      let (next, e, l') = place-Located seen st x l in
      let (last, all, e', l'', keep) = place_all-Located rest (x ∷ seen) next l' in
      (
        last,
        all,
        ap (λ r. r >>= λ n. place_all families by_actor n rest) e ∙ e',
        l'',
        λ a m. keep a (ground arith),
      )

nth-to_nodes : (ns : List CommitmentNode) (r : ℕ) → nth (to_nodes ns) r ≡ get_elem? ns r
nth-to_nodes [] r = refl
nth-to_nodes (n ∷ ns) zero = refl
nth-to_nodes (n ∷ ns) (suc r) = nth-to_nodes ns r

-- The nodes of the finished forest, at the two kinds of path that are recorded.
pub node-root :
    (roots : List CommitmentNode) (r : ℕ) {n : CommitmentNode}
    → get_elem? roots r ≡ some n
    → node (record { roots = to_nodes roots }) (root r) ≡ some n
node-root roots r h = ground (arith, nth-to_nodes roots r)

pub node-leaf :
    (roots : List CommitmentNode) (r k : ℕ) (family : List Text) (a : Text)
    → get_elem? roots r ≡ some (branch (leaves family))
    → get_elem? family k ≡ some a
    → node (record { roots = to_nodes roots }) (child (root r) k) ≡ some (leaf a)
node-leaf roots r k family a h e = ground (arith, nth-to_nodes roots r, nth-leaves family k a e)
