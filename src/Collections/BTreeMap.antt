-- ===== src/Collections/BTreeMap.antt =====
-- `BTreeMap`, as the list of its entries in key order.
use argent.Base.{
  Ordering, ◌≡◌, refl, Bool, true, false, Option, none, some, List, [], ◌∷◌, arith, if◌then◌else◌,
  In, Bool-cases, inl, inr,
}
use argent.Collections.BTreeSet
use argent.Collections.Order.{Ord, eqb, eqb_iff}

module _ {K V : Type 0} ⦃o : Ord K⦄ where
  -- `BTreeMap::get`.
  abbrev pub get : K → List (K × V) → Option V
  get k [] = none
  get k ((j, v) ∷ m) = elim (eqb k j) [ true ↦ some v | false ↦ get k m ]

  -- `BTreeMap::contains_key`.
  abbrev pub contains_key : K → List (K × V) → Bool
  contains_key k m = elim (get k m) [ some _ ↦ true | none ↦ false ]

  -- `BTreeMap::insert`, the resulting map; the value it replaces is `get k m`.
  abbrev pub insert : K → V → List (K × V) → List (K × V)
  insert k v [] = (k, v) ∷ []
  insert k v ((j, w) ∷ m) = elim (o.cmp k j) [
    | Ordering.lt ↦ (k, v) ∷ (j, w) ∷ m
    | Ordering.eq ↦ (k, v) ∷ m
    | Ordering.gt ↦ (j, w) ∷ insert k v m
  ]

  pub get-insert :
      (k j : K) (v : V) (m : List (K × V))
      → get k (insert j v m) ≡ (if eqb k j then some v else get k m)
  get-insert k j v [] = ground arith
  get-insert k j v ((i, w) ∷ m) =
      ground (arith, get-insert k j v m, o.cmp_eq k i, o.cmp_eq j i, o.cmp_eq k j)

  -- An entry that is found is an entry.
  pub In-of_get : (k : K) (v : V) (m : List (K × V)) → get k m ≡ some v → In (k, v) m
  In-of_get k v [] h = cc
  In-of_get k v ((j, w) ∷ m) h = elim (Bool-cases (eqb k j)) [
    | inl e ↦ inl (ground (arith, eqb_iff k j))
    | inr e ↦ inr (In-of_get k v m (ground arith))
  ]

  -- The keys in order.
  abbrev pub keys : List (K × V) → List K
  keys [] = []
  keys ((k, v) ∷ m) = k ∷ keys m

  pub keys-insert :
      (k : K) (v : V) (m : List (K × V)) → keys (insert k v m) ≡ BTreeSet.insert k (keys m)
  keys-insert k v [] = refl
  keys-insert k v ((j, w) ∷ m) = ground (arith, keys-insert k v m, o.cmp_eq k j)

  pub get-of_absent :
      (k : K) (m : List (K × V)) → BTreeSet.contains k (keys m) ≡ false → get k m ≡ none
  get-of_absent k [] h = refl
  get-of_absent k ((j, v) ∷ m) h = ground (arith, get-of_absent k m)
