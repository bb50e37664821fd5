-- ===== src/Routing/Commitment/Plan/Exposes.antt =====
-- `expose_actors`: every exposed actor gets its leaf, and what the cut covered stays covered.
use argent.Base.{
  Text, ℕ, ◌≡◌, sym, ap, ◌∙◌, subst, inl, inr, true, false, Option, none, some, List, [], ◌∷◌,
  arith, get_elem?, Bool-cases, Option-cases,
}
use argent.Collections.Order.{eqb, eqb_iff, eqb_refl, nat_ord, bytes_ord}
use argent.Collections.BTreeSet
use argent.Collections.BTreeSet.{contains, contains-insert, contains-remove}
use argent.Collections.BTreeMap.{get}
use argent.Routing.Forest.{NodePath, Cut}
use argent.Routing.Commitment.{Membership, ok, ◌>>=◌, expect}
use argent.Routing.Commitment.Locations.{CommitmentLocations}
use argent.Routing.Commitment.Plan.{insert_members, open_family, expose_from, expose_actors}
use argent.Routing.Commitment.Plan.Serves.{
  Leaf, Covers, insert_members_kept, insert_members-Leaf, expect_ok,
}

pub expect-some : {A : Type 0} (o : Option A) (a : A) → expect o ≡ ok a → o ≡ some a
expect-some none a h = cc
expect-some (some b) a h = ground arith

module _ (families : List (List Text)) (by_actor : Membership) (locations : CommitmentLocations)
    (in_family : (t : Text) (i : ℕ)
      → get t by_actor ≡ some i
      → (group : List Text) × (get_elem? families i ≡ some group) × (contains t group ≡ true))
    (apart : (t : Text) (p : NodePath) (i : ℕ) (q : NodePath)
      → get t locations.actor_paths ≡ some p
      → get i locations.family_paths ≡ some q
      → eqb q p ≡ false)
    (same_family : (t : Text) (i j : ℕ) (q : NodePath)
      → get t by_actor ≡ some i
      → get i locations.family_paths ≡ some q
      → get j locations.family_paths ≡ some q
      → i ≡ j) where
  abbrev pub HasLeaf : Text → Cut → Type 0
  HasLeaf = Leaf families by_actor locations

  abbrev pub IsCovered : Text → Cut → Type 0
  IsCovered = Covers families by_actor locations

  -- A family that was opened: its branch, its members, and what was inserted.
  record Opened (i : ℕ) (cut c : Cut) : Type 0 where
    path : NodePath
    family : List Text
    at : get i locations.family_paths ≡ some path
    members : get_elem? families i ≡ some family
    inserted : insert_members locations family (BTreeSet.remove path cut) ≡ ok c

  open_family-Opened :
      (i : ℕ) (cut c : Cut) → open_family families locations i cut ≡ ok c → Opened i cut c
  unfolding open_family
  open_family-Opened i cut c h =
      let (q, e, h') = expect_ok (expect (get i locations.family_paths)) _ c h in
      let (family, f, h'') = expect_ok (expect (get_elem? families i)) _ c h' in
      record {
        path = q;
        family = family;
        at = expect-some (get i locations.family_paths) q e;
        members = expect-some (get_elem? families i) family f;
        inserted = h'';
      }

  Opened-Leaf : (t : Text) (i : ℕ) (cut c : Cut) → Opened i cut c → HasLeaf t cut → HasLeaf t c
  Opened-Leaf t i cut c o (p, e, m) =
      let stays : contains p (BTreeSet.remove o.path cut) ≡ true =
        ground (arith, contains-remove p o.path cut, apart t p i o.path e o.at) in
      (
        p,
        e,
        insert_members_kept families by_actor locations o.family (BTreeSet.remove o.path cut) c p
            o.inserted stays,
      )

  Opened-member :
      (t : Text) (i : ℕ) (cut c : Cut) → Opened i cut c → get t by_actor ≡ some i → HasLeaf t c
  Opened-member t i cut c o mine =
      let (group, f, m) = in_family t i mine in
      let same : group ≡ o.family = ground (arith, o.members) in
      insert_members-Leaf families by_actor locations o.family (BTreeSet.remove o.path cut) c t
        o.inserted (subst (λ z. contains t z ≡ true) same m)

  Opened-Covers :
      (t : Text) (i : ℕ) (cut c : Cut) → Opened i cut c → IsCovered t cut → IsCovered t c
  Opened-Covers t i cut c o (inl leaf) = inl (Opened-Leaf t i cut c o leaf)
  Opened-Covers t i cut c o (inr (j, q, mine, at, m)) = elim (Bool-cases (eqb o.path q)) [
    | inl e ↦
        let at_i : get i locations.family_paths ≡ some q =
          o.at ∙ ap some ((eqb_iff o.path q).0 e) in
        let same : j ≡ i = same_family t j i q mine at at_i in
        inl (Opened-member t i cut c o (mine ∙ ap some same))
    | inr e ↦
        let stays : contains q (BTreeSet.remove o.path cut) ≡ true =
          ground (arith, contains-remove q o.path cut) in
        inr (
          j,
          q,
          mine,
          at,
          insert_members_kept families by_actor locations o.family (BTreeSet.remove o.path cut) c q
              o.inserted stays,
        )
  ]

  insert-Leaf :
      (t : Text) (p : NodePath) (cut : Cut) → HasLeaf t cut → HasLeaf t (BTreeSet.insert p cut)
  insert-Leaf t p cut (q, e, m) = (q, e, ground (arith, contains-insert q p cut))

  insert-Covers :
      (t : Text) (p : NodePath) (cut : Cut) → IsCovered t cut → IsCovered t (BTreeSet.insert p cut)
  insert-Covers t p cut (inl leaf) = inl (insert-Leaf t p cut leaf)
  insert-Covers t p cut (inr (i, q, mine, at, m)) =
      inr (i, q, mine, at, ground (arith, contains-insert q p cut))

  -- The members of the families opened so far have their leaves.
  abbrev Ready : List ℕ → Cut → Type 0
  Ready opened cut =
      (i : ℕ) (t : Text) → contains i opened ≡ true → get t by_actor ≡ some i → HasLeaf t cut

  record Served (cut : Cut) (actors : List Text) (c : Cut) : Type 0 where
    leaves : (t : Text) → HasLeaf t cut → HasLeaf t c
    covers : (t : Text) → IsCovered t cut → IsCovered t c
    exposed : (t : Text) → contains t actors ≡ true → HasLeaf t c

  Served-step :
      (a : Text) (actors : List Text) (cut next c : Cut)
      → ((t : Text) → HasLeaf t cut → HasLeaf t next)
      → ((t : Text) → IsCovered t cut → IsCovered t next)
      → HasLeaf a next
      → Served next actors c
      → Served cut (a ∷ actors) c
  Served-step a actors cut next c ls cs first s = record {
    leaves = λ t h. s.leaves t (ls t h);
    covers = λ t h. s.covers t (cs t h);
    exposed = λ t m. elim (Bool-cases (eqb t a)) [
      | inl e ↦ subst (λ z. HasLeaf z c) (sym ((eqb_iff t a).0 e)) (s.leaves a first)
      | inr e ↦ s.exposed t (rw e at m)
    ];
  }

  expose_from-Served :
      (actors : List Text) (opened : List ℕ) (cut c : Cut)
      → Ready opened cut
      → expose_from families by_actor locations opened cut actors ≡ ok c
      → Served cut actors c
  unfolding expose_from
  expose_from-Served [] opened cut c ready h =
      let same : cut ≡ c = ground arith in
      subst (Served cut []) same
        (record { leaves = λ t k. k; covers = λ t k. k; exposed = λ t m. cc })
  expose_from-Served (a ∷ actors) opened cut c ready h = elim (Option-cases (get a by_actor)) [
    | inl alone ↦
        let h' : (expect (get a locations.actor_paths) >>= λ path.
        expose_from families by_actor locations opened (BTreeSet.insert path cut) actors)
            ≡ ok c =
          rw (alone, expose_from) at h in
        let (p, e, more) = expect_ok (expect (get a locations.actor_paths)) _ c h' in
        Served-step a actors cut (BTreeSet.insert p cut) c (λ t k. insert-Leaf t p cut k)
          (λ t k. insert-Covers t p cut k)
          (
            p,
            expect-some (get a locations.actor_paths) p e,
            ground (arith, contains-insert p p cut, eqb_refl p),
          )
          (expose_from-Served actors opened (BTreeSet.insert p cut) c
            (λ i t m k. insert-Leaf t p cut (ready i t m k)) more)
    | inr (i, mine) ↦ elim (Bool-cases (contains i opened)) [
      | inl old ↦
          Served-step a actors cut cut c (λ t k. k) (λ t k. k) (ready i a old mine)
            (expose_from-Served actors opened cut c ready (ground arith))
      | inr new ↦
          let h' : (open_family families locations i cut >>= λ next.
          expose_from families by_actor locations (BTreeSet.insert i opened) next actors)
              ≡ ok c =
            rw (mine, new, expose_from) at h in
          let (next, e, more) = expect_ok (open_family families locations i cut) _ c h' in
          let o = open_family-Opened i cut next e in
          Served-step a actors cut next c (λ t k. Opened-Leaf t i cut next o k)
            (λ t k. Opened-Covers t i cut next o k) (Opened-member a i cut next o mine)
            (expose_from-Served actors (BTreeSet.insert i opened) next c
              (λ j t m k. elim (Bool-cases (eqb j i)) [
                | inl s ↦ Opened-member t i cut next o (k ∙ ap some ((eqb_iff j i).0 s))
                | inr s ↦
                    Opened-Leaf t i cut next o
                      (ready j t (ground (arith, contains-insert j i opened)) k)
              ])
              more)
    ]
  ]

  pub expose_actors-Leaf :
      (cut c : Cut) (actors : List Text)
      → expose_actors cut actors families by_actor locations ≡ ok c
      → ((t : Text) → contains t actors ≡ true → HasLeaf t c)
        × ((t : Text) → IsCovered t cut → IsCovered t c)
  unfolding expose_actors
  expose_actors-Leaf cut c actors h =
      let s = expose_from-Served actors [] cut c (λ i t m k. cc) h in (s.exposed, s.covers)
