-- ===== src/Artifact/PlanCheck/Indexed.antt =====
-- The indexes that `check_consistency` builds: what a loop that refuses a repeated id and inserts the
-- item under its id has seen.
use argent.Base.{
  ◌≡◌, ◌≢◌, sym, inl, inr, true, false, some, List, [], ◌∷◌, All, arith, Text, Bool-cases,
}
use argent.Collections.Order.{eqb, eqb_iff, bytes_ord}
use argent.Collections.BTreeSet
use argent.Collections.BTreeSet.{contains, contains-insert}
use argent.Collections.BTreeMap
use argent.Collections.BTreeMap.{get, get-insert}
use argent.Collections.Slices.{Pairwise}

-- Every entry of the map satisfies the predicate.
abbrev pub Kept : {V : Type 0} → (Text → V → Type 0) → List (Text × V) → Type 0
Kept {V} Q m = (k : Text) (v : V) → get k m ≡ some v → Q k v

pub insert-Kept :
    {V : Type 0} (Q : Text → V → Type 0) (m : List (Text × V)) (k : Text) (v : V)
    → Kept Q m
    → Q k v
    → Kept Q (BTreeMap.insert k v m)
insert-Kept Q m k v kept q j w e = elim (Bool-cases (eqb j k)) [
  | inl same ↦
      let key : k ≡ j = sym ((eqb_iff j k).0 same) in
      let val : v ≡ w = ground (arith, get-insert j k v m) in rw (sym key) (rw (sym val) q)
  | inr other ↦ kept j w (ground (arith, get-insert j k v m))
]

-- Each id is new to the ids before it.
abbrev pub Fresh : List Text → List Text → Type 0
Fresh seen [] = Unit
Fresh seen (id ∷ ids) = (contains id seen ≡ false) × Fresh (BTreeSet.insert id seen) ids

pub Fresh-absent :
    (id : Text) (seen ids : List Text)
    → contains id seen ≡ true
    → Fresh seen ids
    → All (λ other. id ≢ other) ids
Fresh-absent id seen [] h f = tt
Fresh-absent id seen (x ∷ xs) h f = (
  λ same. ground (arith, eqb_iff id x),
  Fresh-absent id (BTreeSet.insert x seen) xs (ground (arith, contains-insert id x seen)) f.1,
)

pub Fresh-Pairwise : (seen ids : List Text) → Fresh seen ids → Pairwise ◌≢◌ ids
Fresh-Pairwise seen [] f = tt
Fresh-Pairwise seen (x ∷ xs) f = (
  Fresh-absent x (BTreeSet.insert x seen) xs (ground (arith, contains-insert x x seen, eqb_iff x x))
      f.1,
  Fresh-Pairwise (BTreeSet.insert x seen) xs f.1,
)
