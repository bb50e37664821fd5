-- ===== src/Routing/Commitment/Locations/Located.antt =====
-- What `build_commitment_forest` has recorded after some actors, and the steps that place one actor.
use argent.Base.{
  Text, ℕ, zero, suc, ◌+◌, ◌≡◌, refl, ap, ◌∙◌, inl, inr, true, false, none, some, List, [], ◌∷◌,
  ◌++◌, arith, length, get_elem?, get_elem?-append_last, lt_of_get_elem?, Bool-cases,
}
use argent.Collections.Order.{eqb, eqb_iff, nat_ord, bytes_ord}
use argent.Collections.BTreeSet.{contains}
use argent.Collections.BTreeMap
use argent.Collections.BTreeMap.{get, get-insert}
use argent.Routing.Forest.{CommitmentNode, leaf, branch, NodePath, child, root, nth}
use argent.Routing.Commitment.{Membership}
use argent.Routing.Commitment.Locations.{Building, leaves, member_paths, emit_actor, empty_building}

pub nth-leaves :
    (family : List Text) (k : ℕ) (a : Text)
    → get_elem? family k ≡ some a
    → nth (leaves family) k ≡ some (leaf a)
nth-leaves [] k a h = cc
nth-leaves (x ∷ xs) zero a h = ground arith
nth-leaves (x ∷ xs) (suc k) a h = nth-leaves xs k a h

-- The paths of actors outside the family stay.
pub member_paths_out :
    (path : NodePath) (index : ℕ) (family : List Text) (paths : List (Text × NodePath)) (a : Text)
    → contains a family ≡ false
    → get a (member_paths path index family paths) ≡ get a paths
unfolding member_paths
member_paths_out path index [] paths a h = refl
member_paths_out path index (x ∷ xs) paths a h =
    member_paths_out path (index + 1) xs (BTreeMap.insert x (child path index) paths) a
      (ground arith)
    ∙ ground (arith, get-insert a x (child path index) paths)

-- A member of a family gets the path of one of its leaves.
pub member_paths_in :
    (path : NodePath) (index : ℕ) (family : List Text) (paths : List (Text × NodePath)) (a : Text)
    → contains a family ≡ true
    → (k : ℕ) × (get_elem? family k ≡ some a)
      × (get a (member_paths path index family paths) ≡ some (child path (index + k)))
unfolding member_paths
member_paths_in path index [] paths a h = cc
member_paths_in path index (x ∷ xs) paths a h = elim (Bool-cases (contains a xs)) [
  | inl later ↦
      let (k, e, p) =
        member_paths_in path (index + 1) xs (BTreeMap.insert x (child path index) paths) a later in
      (suc k, e, p ∙ ap (λ i. some (child path i)) (omega arith))
  | inr last ↦ (
    0,
    ground (arith, eqb_iff a x),
    let here : get a (BTreeMap.insert x (child path index) paths) ≡ some (child path index) =
          ground (arith, get-insert a x (child path index) paths, eqb_iff a x) in
        let same : index ≡ index + 0 = omega arith in
        member_paths_out path (index + 1) xs (BTreeMap.insert x (child path index) paths) a last
        ∙ here
        ∙ ap (λ i. some (child path i)) same,
  )
]

pub kept :
    {A : Type 0} (xs : List A) (y : A) (r : ℕ) {n : A}
    → get_elem? xs r ≡ some n
    → get_elem? (xs ++ y ∷ []) r ≡ some n
kept xs y r {n} h = ground (arith, get_elem?-append_last xs y r, lt_of_get_elem? xs r h)

pub new_last : {A : Type 0} (xs : List A) (y : A) → get_elem? (xs ++ y ∷ []) (length xs) ≡ some y
new_last xs y = ground (arith, get_elem?-append_last xs y (length xs))

module _ (families : List (List Text)) (by_actor : Membership) where
  -- The root leaf of an actor outside the families.
  abbrev pub SingleAt : List CommitmentNode → Text → NodePath → Type 0
  SingleAt roots a p = (r : ℕ) × (p ≡ root r) × (get_elem? roots r ≡ some (leaf a))

  -- The branch of a family.
  abbrev pub FamilyAt : List CommitmentNode → ℕ → NodePath → Type 0
  FamilyAt roots i p =
      (r : ℕ) × (family : List Text) × (p ≡ root r)
      × (get_elem? families i ≡ some family)
      × (get_elem? roots r ≡ some (branch (leaves family)))

  -- A leaf of the branch of a family.
  abbrev pub MemberAt : List CommitmentNode → Text → ℕ → NodePath → NodePath → Type 0
  MemberAt roots a i q p =
      (k : ℕ) × (family : List Text) × FamilyAt roots i q
      × (get_elem? families i ≡ some family)
      × (get_elem? family k ≡ some a)
      × (p ≡ child q k)

  -- What the loop has recorded, after the actors `seen`.
  pub record Located (seen : List Text) (st : Building) : Type 0 where
    pub single :
        (a : Text) (p : NodePath)
        → get a by_actor ≡ none
        → get a st.actor_paths ≡ some p
        → SingleAt st.roots a p
    pub member :
        (a : Text) (i : ℕ) (p : NodePath)
        → get a by_actor ≡ some i
        → get a st.actor_paths ≡ some p
        → (q : NodePath) × (get i st.family_paths ≡ some q) × MemberAt st.roots a i q p
    pub family : (i : ℕ) (p : NodePath) → get i st.family_paths ≡ some p → FamilyAt st.roots i p
    pub emitted :
        (i : ℕ)
        → contains i st.emitted_families ≡ true
        → ((p : NodePath) × (get i st.family_paths ≡ some p))
          × ((a : Text)
              → get a by_actor ≡ some i
              → (p : NodePath) × (get a st.actor_paths ≡ some p))
    pub fresh : (i : ℕ) → contains i st.emitted_families ≡ false → get i st.family_paths ≡ none
    pub placed :
        (a : Text)
        → contains a seen ≡ true
        → (get a by_actor ≡ none → (p : NodePath) × (get a st.actor_paths ≡ some p))
          × ((i : ℕ) → get a by_actor ≡ some i → contains i st.emitted_families ≡ true)

  pub FamilyAt-kept :
      (roots : List CommitmentNode) (y : CommitmentNode) (i : ℕ) (p : NodePath)
      → FamilyAt roots i p
      → FamilyAt (roots ++ y ∷ []) i p
  FamilyAt-kept roots y i p (r, family, e, f, n) = (r, family, e, f, kept roots y r n)

  pub MemberAt-kept :
      (roots : List CommitmentNode) (y : CommitmentNode) (a : Text) (i : ℕ) (q p : NodePath)
      → MemberAt roots a i q p
      → MemberAt (roots ++ y ∷ []) a i q p
  MemberAt-kept roots y a i q p (k, family, at, f, m, e) =
      (k, family, FamilyAt-kept roots y i q at, f, m, e)

  pub empty-Located : Located [] empty_building
  empty-Located = record {
    single = λ a p n h. cc;
    member = λ a i p n h. cc;
    family = λ i p h. cc;
    emitted = λ i h. cc;
    fresh = λ i h. refl;
    placed = λ a h. cc;
  }

  pub emit_actor-Located :
      (seen : List Text) (st : Building) (x : Text)
      → get x by_actor ≡ none
      → Located seen st
      → Located (x ∷ seen) (emit_actor st x)
  emit_actor-Located seen st x alone l = record {
    single = λ a p n h. elim (Bool-cases (eqb a x)) [
      | inl same ↦ (
        length st.roots,
        ground (arith, get-insert a x (root (length st.roots)) st.actor_paths),
        ground (arith, new_last st.roots (leaf x), eqb_iff a x),
      )
      | inr other ↦
          let (r, e, at) =
            l.single a p n
              (ground (arith, get-insert a x (root (length st.roots)) st.actor_paths)) in
          (r, e, kept st.roots (leaf x) r at)
    ];
    member = λ a i p n h.
        let apart : eqb a x ≡ false = ground (arith, eqb_iff a x) in
        let (q, e, at) =
          l.member a i p n
            (ground (arith, get-insert a x (root (length st.roots)) st.actor_paths)) in
        (q, e, MemberAt-kept st.roots (leaf x) a i q p at);
    family = λ i p h. FamilyAt-kept st.roots (leaf x) i p (l.family i p h);
    emitted = λ i h.
        let (fp, ap') = l.emitted i h in
        (
          fp,
          λ a n.
              let (p, e) = ap' a n in
              elim (Bool-cases (eqb a x)) [
                | inl same ↦ absurd (ground (arith, eqb_iff a x))
                | inr other ↦
                    (p, ground (arith, get-insert a x (root (length st.roots)) st.actor_paths))
              ],
        );
    fresh = λ i h. l.fresh i h;
    placed = λ a m. elim (Bool-cases (eqb a x)) [
      | inl same ↦ (
        λ n. (
          root (length st.roots),
          ground (arith, get-insert a x (root (length st.roots)) st.actor_paths),
        ),
        λ i n. absurd (ground (arith, eqb_iff a x)),
      )
      | inr other ↦
          let (single, member) = l.placed a (rw other at m) in
          (
            λ n.
                let (p, e) = single n in
                (p, ground (arith, get-insert a x (root (length st.roots)) st.actor_paths)),
            member,
          )
    ];
  }
