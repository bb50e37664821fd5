-- ===== src/Routing/Components/Explored.antt =====
-- One traversal of `components`: it ends within the rounds allowed, and its members are the actors
-- that the neighbors lead to.
use argent.Base.{
  Text, ℕ, zero, suc, ◌+◌, ◌≤◌, ◌≡◌, refl, ap, Bool, true, false, not, ◌&&◌, ◌||◌, none, some, List,
  [], ◌∷◌, arith, length, if◌then◌else◌, List-cases, Bool-cases, ◌↔◌, ◌∙◌, inl, inr,
}
use argent.Collections.Order.{eqb, eqb_iff, bytes_ord}
use argent.Collections.BTreeSet
use argent.Collections.BTreeSet.{contains, contains-insert, IsSorted, insert-IsSorted}
use argent.Collections.BTreeMap
use argent.Collections.BTreeMap.{get, contains_key, get-insert}
use argent.Routing.Graph.{Relation, targets}
use argent.Routing.Components.{Assignment, Visit, claim_one, claim, explore, start_visit}
use argent.Routing.Components.Linked.{HasRoom}

-- The actors that are not assigned yet, as often as they are listed.
abbrev pub vacant : Assignment → List Text → ℕ
vacant m [] = 0
vacant m (x ∷ xs) = (if contains_key x m then 0 else 1) + vacant m xs

vacant_mono :
    (m : Assignment) (a : Text) (i : ℕ) (xs : List Text)
    → vacant (BTreeMap.insert a i m) xs ≤ vacant m xs
vacant_mono m a i [] = omega arith
vacant_mono m a i (x ∷ xs) = ground (arith, vacant_mono m a i xs, get-insert x a i m)

-- Assigning a vacant actor leaves fewer.
pub vacant_drop :
    (m : Assignment) (a : Text) (i : ℕ) (xs : List Text)
    → contains_key a m ≡ false
    → contains a xs ≡ true
    → vacant (BTreeMap.insert a i m) xs + 1 ≤ vacant m xs
vacant_drop m a i [] h c = cc
vacant_drop m a i (x ∷ xs) h c = ground (
  arith,
  vacant_drop m a i xs h,
  vacant_mono m a i xs,
  get-insert x a i m,
  eqb_iff a x,
  eqb_iff x a,
)

pub vacant-le : (m : Assignment) (xs : List Text) → vacant m xs ≤ length xs
vacant-le m [] = omega arith
vacant-le m (x ∷ xs) = ground (arith, vacant-le m xs)

abbrev pub new : List Text → Assignment → Text → Bool
new ns m x = contains x ns && not (contains_key x m)

claim_one_lem :
    (k : ℕ) (v : Visit) (n x : Text)
    → (get x (claim_one k v n).assigned
        ≡ (if new (n ∷ []) v.assigned x then some k else get x v.assigned))
      × (contains x (claim_one k v n).pending ≡ (contains x v.pending || new (n ∷ []) v.assigned x))
      × ((claim_one k v n).members ≡ v.members)
unfolding claim_one
claim_one_lem k v n x = ground (arith, get-insert x n k v.assigned, eqb_iff x n)

claim_lem :
    (k : ℕ) (ns : List Text) (v : Visit) (x : Text)
    → (get x (claim k ns v).assigned ≡ (if new ns v.assigned x then some k else get x v.assigned))
      × (contains x (claim k ns v).pending ≡ (contains x v.pending || new ns v.assigned x))
      × ((claim k ns v).members ≡ v.members)
unfolding claim
claim_lem k [] v x = (refl, ground arith, refl)
claim_lem k (n ∷ ns) v x =
    let one = claim_one_lem k v n x in
    let rest = claim_lem k ns (claim_one k v n) x in ground (arith, one, rest)

abbrev pub size : List Text → Visit → ℕ
size domain v = length v.pending + vacant v.assigned domain

claim_one-size :
    (domain : List Text) (k : ℕ) (v : Visit) (n : Text)
    → contains n domain ≡ true
    → size domain (claim_one k v n) ≤ size domain v
unfolding claim_one
claim_one-size domain k v n h = ground (arith, vacant_drop v.assigned n k domain)

claim-size :
    (domain : List Text) (k : ℕ) (ns : List Text) (v : Visit)
    → ((x : Text) → contains x ns ≡ true → contains x domain ≡ true)
    → size domain (claim k ns v) ≤ size domain v
unfolding claim
claim-size domain k [] v h = omega arith
claim-size domain k (n ∷ ns) v h = omega (
  arith,
  claim_one-size domain k v n (h n (ground (arith, eqb_iff n n))),
  claim-size domain k ns (claim_one k v n) (λ x m. h x (ground arith)),
)

-- A walk along the neighbors.
pub data Walk (neighbors : Relation) (a : Text) : Text → Type 0 where
  here : Walk neighbors a a
  step :
      {b c : Text}
      → Walk neighbors a b
      → contains c (targets neighbors b) ≡ true
      → Walk neighbors a c

-- The neighbors of actors of the domain are such actors, and the relation has no direction.
pub record IsUndirected (domain : List Text) (neighbors : Relation) : Type 0 where
  pub room : HasRoom domain neighbors
  pub inside : (x y : Text) → contains y (targets neighbors x) ≡ true → contains y domain ≡ true
  pub flip :
      (x y : Text)
      → contains y (targets neighbors x) ≡ true
      → contains x (targets neighbors y) ≡ true

abbrev seen : Visit → Text → Bool
seen v x = contains x v.members || contains x v.pending

module _ (domain : List Text) (neighbors : Relation) (u : IsUndirected domain neighbors) (k : ℕ)
    (a : Text) (old : Assignment) where
  pub record Inv (v : Visit) : Type 0 where
    pub sound : (x : Text) → seen v x ≡ true → Walk neighbors a x
    pub ordered : IsSorted v.members
    pub begun : seen v a ≡ true
    pub known : (x : Text) → get x v.assigned ≡ (if seen v x then some k else get x old)
    pub fresh : (x : Text) → seen v x ≡ true → get x old ≡ none
    pub closed :
        (x y : Text)
        → contains x v.members ≡ true
        → contains y (targets neighbors x) ≡ true
        → contains_key y v.assigned ≡ true
    pub inside : (x : Text) → contains x v.pending ≡ true → contains x domain ≡ true

  pub Inv-start : get a old ≡ none → contains a domain ≡ true → Inv (start_visit k a old)
  Inv-start vacant known = record {
    sound = λ x h. rw ((eqb_iff x a).0 (ground arith)) here;
    ordered = tt;
    begun = ground (arith, eqb_iff a a);
    known = λ x. ground (arith, get-insert x a k old);
    fresh = λ x h. ground (arith, eqb_iff x a);
    closed = λ x y h n. cc;
    inside = λ x h. ground (arith, eqb_iff x a);
  }

  module _ (v : Visit) (b : Text) (rest : List Text) (i : Inv v) (full : v.pending ≡ b ∷ rest) where
    popped : Visit
    popped = record v { members = BTreeSet.insert b v.members; pending = rest }

    after : Visit
    after = claim k (targets neighbors b) popped

    seen-after : (x : Text) → seen after x ≡ (seen v x || new (targets neighbors b) v.assigned x)
    unfolding after popped
    seen-after x = ground (
      arith,
      claim_lem k (targets neighbors b) popped x,
      contains-insert x b v.members,
      ap (contains x) full,
    )

    seen_b : seen v b ≡ true
    seen_b = ground (arith, ap (contains b) full, eqb_iff b b)

    Inv-after : Inv after
    unfolding after popped
    Inv-after = record {
      sound = λ x h. elim (Bool-cases (seen v x)) [
        | inl before ↦ i.sound x before
        | inr now ↦ step (i.sound b seen_b) (ground (arith, seen-after x))
      ];
      ordered =
          rw (claim_lem k (targets neighbors b) popped []).2
            (insert-IsSorted b v.members i.ordered);
      begun = ground (arith, i.begun, seen-after a);
      known =
          λ x. ground (arith, i.known x, seen-after x, claim_lem k (targets neighbors b) popped x);
      fresh = λ x h. ground (arith, i.known x, seen-after x, i.fresh x);
      closed = λ x y h n. elim (Bool-cases (eqb x b)) [
        | inl same ↦
            let n' : contains y (targets neighbors b) ≡ true = rw ((eqb_iff x b).0 same) at n in
            ground (arith, claim_lem k (targets neighbors b) popped y)
        | inr other ↦ ground (
          arith,
          claim_lem k (targets neighbors b) popped y,
          claim_lem k (targets neighbors b) popped x,
          contains-insert x b v.members,
          i.closed x y,
        )
      ];
      inside = λ x h. ground (
        arith,
        claim_lem k (targets neighbors b) popped x,
        i.inside x,
        ap (contains x) full,
        u.inside b x,
      );
    }

    after-size : (fuel : ℕ) → size domain v ≤ suc fuel → size domain after ≤ fuel
    unfolding after popped
    after-size fuel h = omega (
      arith,
      claim-size domain k (targets neighbors b) popped (λ x m. u.inside b x m),
      ap length full,
    )

    explore_round : (fuel : ℕ) → explore neighbors k (suc fuel) v ≡ explore neighbors k fuel after
    unfolding explore after popped
    explore_round fuel =
        let known : contains_key b neighbors ≡ true =
          u.room b (i.inside b (ground (arith, ap (contains b) full, eqb_iff b b))) in
        ground (arith, full)

  -- With nothing pending the members are closed, and new to the assignment.
  module _ (v : Visit) (i : Inv v) (empty : v.pending ≡ [])
      (old_closed : (x y : Text)
        → contains_key x old ≡ true
        → contains y (targets neighbors x) ≡ true
        → contains_key y old ≡ true) where
    complete : {x : Text} → Walk neighbors a x → contains x v.members ≡ true
    complete here = ground (arith, i.begun, ap (contains a) empty)
    complete (step {b} {c} w n) =
        let m = complete w in
        ground (
          arith,
          i.closed b c m n,
          i.known c,
          i.fresh b,
          ap (contains c) empty,
          old_closed c b,
          u.flip b c n,
        )

    pub members_lem : (x : Text) → (contains x v.members ≡ true) ↔ Walk neighbors a x
    members_lem x = (λ h. i.sound x (ground arith), λ w. complete w)

  explore_stops : (v : Visit) → v.pending ≡ [] → (fuel : ℕ) → explore neighbors k fuel v ≡ some v
  unfolding explore
  explore_stops v empty zero = ground arith
  explore_stops v empty (suc fuel) = ground arith

  pub explore-Inv :
      (fuel : ℕ) (v : Visit)
      → Inv v
      → size domain v ≤ fuel
      → (w : Visit) × (explore neighbors k fuel v ≡ some w) × Inv w × (w.pending ≡ [])
  unfolding explore
  explore-Inv zero v i h = elim (List-cases v.pending) [
    | inl empty ↦ (v, explore_stops v empty 0, i, empty)
    | inr (b, rest, full) ↦ absurd (omega (arith, ap length full))
  ]
  explore-Inv (suc fuel) v i h = elim (List-cases v.pending) [
    | inl empty ↦ (v, explore_stops v empty (suc fuel), i, empty)
    | inr (b, rest, full) ↦
        let (w, e, j, done) =
          explore-Inv fuel (after v b rest i full) (Inv-after v b rest i full)
            (after-size v b rest i full fuel h) in
        (w, explore_round v b rest i full fuel ∙ e, j, done)
  ]
