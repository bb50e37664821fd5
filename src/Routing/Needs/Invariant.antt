-- ===== src/Routing/Needs/Invariant.antt =====
-- The invariant of one traversal of `needs`, and that a round keeps it.
use argent.Base.{
  Text, ◌≡◌, refl, subst, ◌↔◌, ◌⊎◌, inl, inr, true, List, [], ◌∷◌, arith, Bool-cases, In,
}
use argent.Collections.Order.{eqb, eqb_iff, bytes_ord}
use argent.Collections.BTreeSet
use argent.Collections.BTreeSet.{contains, contains-insert, contains-extend}
use argent.Routing.Graph.{RouteGraph, targets, Emits, Consumes}
use argent.Routing.Needs.{Traversal, push_all, start}
use argent.Routing.Needs.Need.{Need, consumed, Emitted, one, more, Emitted-Need, Need-of_Emitted}

pub In-push_all :
    (x : Text) (xs s : List Text) → In x (push_all xs s) ↔ ((contains x xs ≡ true) ⊎ In x s)
In-push_all x [] s = (inr, λ h. elim h [ inl e ↦ cc | inr m ↦ m ])
In-push_all x (y ∷ ys) s = ground (arith, In-push_all x ys (y ∷ s), eqb_iff x y)

-- `r` holds exactly what `a` needs.
abbrev pub IsClosure : RouteGraph → Text → List Text → Type 0
IsClosure g a r = (t : Text) → (contains t r ≡ true) ↔ Need g a t

abbrev pub Seen : Traversal → Text → Type 0
Seen t x = (contains x t.expanded ≡ true) ⊎ In x t.stack

-- All that an expanded actor needs is found, or will be through what is on the stack.
abbrev pub Covered : RouteGraph → Traversal → Text → Type 0
Covered g t d =
    ((x : Text) → Need g d x → contains x t.reach ≡ true)
    ⊎ (((x : Text) → Consumes g d x → contains x t.reach ≡ true)
        × ((x : Text) → Emits g d x → Seen t x))

module _ (g : RouteGraph) (src : Text) where
  pub record Inv (t : Traversal) : Type 0 where
    pub sound : (x : Text) → contains x t.reach ≡ true → Need g src x
    pub walks : (x : Text) → In x t.stack → Emitted g src x
    pub shown : (x : Text) → contains x t.expanded ≡ true → contains x t.reach ≡ true
    pub direct : (x : Text) → Consumes g src x → contains x t.reach ≡ true
    pub begun : (x : Text) → Emits g src x → Seen t x
    pub covered : (d : Text) → contains d t.expanded ≡ true → Covered g t d

  pub Inv-start : Inv (start g src)
  Inv-start = record {
    sound = λ x h. consumed h;
    walks = λ x m. elim ((In-push_all x (targets g.emits src) []).0 m) [
      | inl e ↦ one e
      | inr nil ↦ absurd nil
    ];
    shown = λ x h. cc;
    direct = λ x h. h;
    begun = λ x e. inr ((In-push_all x (targets g.emits src) []).1 (inl e));
    covered = λ d h. cc;
  }

  Covered-grow :
      (t u : Traversal) (d : Text)
      → ((x : Text) → contains x t.reach ≡ true → contains x u.reach ≡ true)
      → ((x : Text) → Seen t x → Seen u x)
      → Covered g t d
      → Covered g u d
  Covered-grow t u d grow seen (inl all) = inl (λ x n. grow x (all x n))
  Covered-grow t u d grow seen (inr (cs, es)) = inr (λ x c. grow x (cs x c), λ x e. seen x (es x e))

  -- A round that only adds keeps the invariant, if what it adds is sound and covered.
  Inv-grow :
      (t u : Traversal)
      → Inv t
      → ((x : Text) → contains x t.reach ≡ true → contains x u.reach ≡ true)
      → ((x : Text) → Seen t x → Seen u x)
      → ((x : Text) → contains x u.reach ≡ true → Need g src x)
      → ((x : Text) → In x u.stack → Emitted g src x)
      → ((x : Text) → contains x u.expanded ≡ true → contains x u.reach ≡ true)
      → ((d : Text) → contains d u.expanded ≡ true → (contains d t.expanded ≡ true) ⊎ Covered g u d)
      → Inv u
  Inv-grow t u i grow seen sound walks shown fresh = record {
    sound = sound;
    walks = walks;
    shown = shown;
    direct = λ x c. grow x (i.direct x c);
    begun = λ x e. seen x (i.begun x e);
    covered = λ d h. elim (fresh d h) [
      | inl old ↦ Covered-grow t u d grow seen (i.covered d old)
      | inr now ↦ now
    ];
  }

  module _ (t : Traversal) (dst : Text) (rest : List Text) (i : Inv t)
      (full : t.stack ≡ dst ∷ rest) where
    pub walk : Emitted g src dst
    walk = i.walks dst (rw full (inl refl))

    walk_rest : (x : Text) → In x rest → Emitted g src x
    walk_rest x m = i.walks x (rw full (inr m))

    Seen-cases : (x : Text) → Seen t x → (contains x t.expanded ≡ true) ⊎ (x ≡ dst) ⊎ In x rest
    Seen-cases x (inl h) = inl h
    Seen-cases x (inr m) = inr (subst (In x) full m)

    pub Inv-repeat :
        contains dst t.expanded ≡ true
        → Inv (record { reach = BTreeSet.insert dst t.reach; stack = rest; expanded = t.expanded })
    Inv-repeat old =
        Inv-grow t _ i (λ x h. ground (arith, contains-insert x dst t.reach))
          (λ x s. elim (Seen-cases x s) [
            | inl h ↦ inl h
            | inr (inl e) ↦ inl (rw e old)
            | inr (inr m) ↦ inr m
          ])
          (λ x h. elim (Bool-cases (eqb x dst)) [
            | inl e ↦ rw ((eqb_iff x dst).0 e) (Need-of_Emitted walk)
            | inr e ↦ i.sound x (ground (arith, contains-insert x dst t.reach))
          ])
          walk_rest (λ x h. ground (arith, contains-insert x dst t.reach, i.shown x h))
          (λ d h. inl h)

    -- What a first visit leaves to see.
    Seen-first :
        (x : Text) → Seen t x → (contains x (BTreeSet.insert dst t.expanded) ≡ true) ⊎ In x rest
    Seen-first x s = elim (Seen-cases x s) [
      | inl h ↦ inl (ground (arith, contains-insert x dst t.expanded))
      | inr (inl e) ↦ inl (ground (arith, contains-insert x dst t.expanded, eqb_iff x dst))
      | inr (inr m) ↦ inr m
    ]

    -- What a first visit adds, before the targets of `dst`.
    grown :
        (x : Text) (extra : List Text)
        → contains x t.reach ≡ true
        → contains x (BTreeSet.extend (BTreeSet.insert dst t.reach) extra) ≡ true
    grown x extra h = ground (
      arith,
      contains-extend x (BTreeSet.insert dst t.reach) extra,
      contains-insert x dst t.reach,
    )

    found :
        (x : Text) (extra : List Text)
        → ((y : Text) → contains y extra ≡ true → Need g src y)
        → contains x (BTreeSet.extend (BTreeSet.insert dst t.reach) extra) ≡ true
        → Need g src x
    found x extra ok h = elim (Bool-cases (eqb x dst)) [
      | inl e ↦ rw ((eqb_iff x dst).0 e) (Need-of_Emitted walk)
      | inr e ↦ elim (Bool-cases (contains x extra)) [
        | inl m ↦ ok x m
        | inr m ↦ i.sound x (
            ground (
              arith,
              contains-extend x (BTreeSet.insert dst t.reach) extra,
              contains-insert x dst t.reach,
            ))
      ]
    ]

    expanded_shown :
        (x : Text) (extra : List Text)
        → contains x (BTreeSet.insert dst t.expanded) ≡ true
        → contains x (BTreeSet.extend (BTreeSet.insert dst t.reach) extra) ≡ true
    expanded_shown x extra h = ground (
      arith,
      contains-extend x (BTreeSet.insert dst t.reach) extra,
      i.shown x,
      contains-insert x dst t.reach,
      contains-insert x dst t.expanded,
    )

    -- The new expanded actor is `dst`.
    fresh_cases :
        (d : Text)
        → contains d (BTreeSet.insert dst t.expanded) ≡ true
        → (contains d t.expanded ≡ true) ⊎ (d ≡ dst)
    fresh_cases d h = ground (arith, contains-insert d dst t.expanded, eqb_iff d dst)

    pub Inv-reuse :
        (closure : List Text)
        → IsClosure g dst closure
        → Inv (record {
          reach = BTreeSet.extend (BTreeSet.insert dst t.reach) closure;
          stack = rest;
          expanded = BTreeSet.insert dst t.expanded;
        })
    Inv-reuse closure exact =
        Inv-grow t _ i (λ x h. grown x closure h) Seen-first
          (λ x h. found x closure (λ y m. Emitted-Need walk ((exact y).0 m)) h) walk_rest
          (λ x h. expanded_shown x closure h)
          (λ d h. elim (fresh_cases d h) [
            | inl old ↦ inl old
            | inr e ↦ inr (
                inl (λ x n.
                  let m = (exact x).1 (subst (λ y. Need g y x) e n) in
                  ground (arith, contains-extend x (BTreeSet.insert dst t.reach) closure)))
          ])

    pub Inv-expand : Inv (record {
      reach = BTreeSet.extend (BTreeSet.insert dst t.reach) (targets g.consumes dst);
      stack = push_all (targets g.emits dst) rest;
      expanded = BTreeSet.insert dst t.expanded;
    })
    Inv-expand =
        Inv-grow t _ i (λ x h. grown x (targets g.consumes dst) h)
          (λ x s. elim (Seen-first x s) [
            | inl h ↦ inl h
            | inr m ↦ inr ((In-push_all x (targets g.emits dst) rest).1 (inr m))
          ])
          (λ x h. found x (targets g.consumes dst) (λ y m. Emitted-Need walk (consumed m)) h)
          (λ x m. elim ((In-push_all x (targets g.emits dst) rest).0 m) [
            | inl e ↦ more walk e
            | inr old ↦ walk_rest x old
          ])
          (λ x h. expanded_shown x (targets g.consumes dst) h)
          (λ d h. elim (fresh_cases d h) [
            | inl old ↦ inl old
            | inr e ↦ inr (
                inr (
                  λ x c.
                      let m = subst (λ y. Consumes g y x) e c in
                      ground (
                        arith,
                        contains-extend x (BTreeSet.insert dst t.reach) (targets g.consumes dst),
                      ),
                  λ x edge. inr (
                      (In-push_all x (targets g.emits dst) rest).1
                        (inl (subst (λ y. Emits g y x) e edge))),
                ))
          ])
