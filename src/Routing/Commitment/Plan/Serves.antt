-- ===== src/Routing/Commitment/Plan/Serves.antt =====
-- `cut_for_needs` and `expose_actors`: the cuts hold the nodes that they were asked for.
use argent.Base.{
  Text, ℕ, ◌≡◌, refl, subst, ◌⊎◌, inl, inr, true, some, List, [], ◌∷◌, arith, Bool-cases,
  Option-cases,
}
use argent.Collections.Order.{eqb_iff, eqb_refl, nat_ord, bytes_ord}
use argent.Collections.BTreeSet
use argent.Collections.BTreeSet.{contains, contains-insert, contains-remove}
use argent.Collections.BTreeMap.{get}
use argent.Routing.Forest.{NodePath, Cut}
use argent.Routing.Commitment.{Membership, Result, ok, err, panic, ◌>>=◌, expect}
use argent.Routing.Commitment.Locations.{CommitmentLocations}
use argent.Routing.Commitment.Plan.{need_path, collect_needs, cut_for_needs, insert_members}

pub expect_ok :
    {A : Type 0} {B : Type 0} (r : Result A) (k : A → Result B) (b : B)
    → (r >>= k) ≡ ok b
    → (a : A) × (r ≡ ok a) × (k a ≡ ok b)
expect_ok (ok a) k b h = (a, refl, h)
expect_ok (err e) k b h = cc
expect_ok panic k b h = cc

module _ (families : List (List Text)) (by_actor : Membership)
    (locations : CommitmentLocations) where
  -- The leaf of the actor is selected.
  abbrev pub Leaf : Text → Cut → Type 0
  Leaf t cut = (p : NodePath) × (get t locations.actor_paths ≡ some p) × (contains p cut ≡ true)

  -- The leaf of the actor, or the branch of its family, is selected.
  abbrev pub Covers : Text → Cut → Type 0
  Covers t cut =
      Leaf t cut
      ⊎ ((i : ℕ) × (q : NodePath) × (get t by_actor ≡ some i)
          × (get i locations.family_paths ≡ some q)
          × (contains q cut ≡ true))

  collect_needs_kept :
      (cut c : Cut) (xs : List Text) (x : NodePath)
      → collect_needs by_actor locations cut xs ≡ ok c
      → contains x cut ≡ true
      → contains x c ≡ true
  unfolding collect_needs
  collect_needs_kept cut c [] x h m =
      let same : cut ≡ c = ground arith in subst (λ z. contains x z ≡ true) same m
  collect_needs_kept cut c (a ∷ xs) x h m =
      let (p, e, more) = expect_ok (need_path by_actor locations a) _ c h in
      collect_needs_kept (BTreeSet.insert p cut) c xs x more
        (ground (arith, contains-insert x p cut))

  need_path-Covers :
      (t : Text) (p : NodePath) (cut : Cut)
      → need_path by_actor locations t ≡ ok p
      → contains p cut ≡ true
      → Covers t cut
  need_path-Covers t p cut h m = elim (Option-cases (get t by_actor)) [
    | inl alone ↦ elim (Option-cases (get t locations.actor_paths)) [
      | inl gone ↦ absurd (ground arith)
      | inr (q, found) ↦ inl (q, found, ground arith)
    ]
    | inr (i, mine) ↦ elim (Option-cases (get i locations.family_paths)) [
      | inl gone ↦ absurd (ground arith)
      | inr (q, found) ↦ inr (i, q, mine, found, ground arith)
    ]
  ]

  collect_needs-Covers :
      (cut c : Cut) (xs : List Text) (t : Text)
      → collect_needs by_actor locations cut xs ≡ ok c
      → contains t xs ≡ true
      → Covers t c
  unfolding collect_needs
  collect_needs-Covers cut c [] t h m = cc
  collect_needs-Covers cut c (a ∷ xs) t h m =
      let (p, e, more) = expect_ok (need_path by_actor locations a) _ c h in
      elim (Bool-cases (contains t xs)) [
        | inl later ↦ collect_needs-Covers (BTreeSet.insert p cut) c xs t more later
        | inr last ↦
            let same : t ≡ a = ground (arith, eqb_iff t a) in
            need_path-Covers t p c (rw same e) (
              collect_needs_kept (BTreeSet.insert p cut) c xs p more
                (ground (arith, contains-insert p p cut, eqb_refl p)))
      ]

  pub cut_for_needs-Covers :
      (xs : List Text) (c : Cut)
      → cut_for_needs xs by_actor locations ≡ ok c
      → (t : Text) → contains t xs ≡ true
      → Covers t c
  unfolding cut_for_needs
  cut_for_needs-Covers xs c h t m = collect_needs-Covers [] c xs t h m

  pub insert_members_kept :
      (members : List Text) (cut c : Cut) (x : NodePath)
      → insert_members locations members cut ≡ ok c
      → contains x cut ≡ true
      → contains x c ≡ true
  unfolding insert_members
  insert_members_kept [] cut c x h m =
      let same : cut ≡ c = ground arith in subst (λ z. contains x z ≡ true) same m
  insert_members_kept (a ∷ members) cut c x h m =
      let (p, e, more) = expect_ok (expect (get a locations.actor_paths)) _ c h in
      insert_members_kept members (BTreeSet.insert p cut) c x more
        (ground (arith, contains-insert x p cut))

  pub insert_members-Leaf :
      (members : List Text) (cut c : Cut) (t : Text)
      → insert_members locations members cut ≡ ok c
      → contains t members ≡ true
      → Leaf t c
  unfolding insert_members
  insert_members-Leaf [] cut c t h m = cc
  insert_members-Leaf (a ∷ members) cut c t h m =
      let (p, e, more) = expect_ok (expect (get a locations.actor_paths)) _ c h in
      elim (Bool-cases (contains t members)) [
        | inl later ↦ insert_members-Leaf members (BTreeSet.insert p cut) c t more later
        | inr last ↦
            let same : t ≡ a = ground (arith, eqb_iff t a) in
            let found : get a locations.actor_paths ≡ some p =
              elim (Option-cases (get a locations.actor_paths)) [
                | inl gone ↦ absurd (ground arith)
                | inr (q, at) ↦ ground arith
              ] in
            (
              p,
              rw same found,
              insert_members_kept members (BTreeSet.insert p cut) c p more
                  (ground (arith, contains-insert p p cut, eqb_refl p)),
            )
      ]
