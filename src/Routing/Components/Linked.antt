-- ===== src/Routing/Components/Linked.antt =====
-- The first loop of `components`: the neighbors of an actor, and the targets of outside edges.
use argent.Base.{
  Text, ◌≡◌, refl, Bool, true, false, not, ◌&&◌, ◌||◌, some, List, [], ◌∷◌, ◌++◌, arith, select,
  Bool-cases, inl, inr, append_assoc, ap,
}
use mathlib.Core.List.{append-nil}
use argent.Collections.Order.{eqb, eqb_iff, bytes_ord}
use argent.Collections.BTreeSet
use argent.Collections.BTreeSet.{contains, contains-append, contains-insert}
use argent.Collections.BTreeMap
use argent.Collections.BTreeMap.{get, contains_key, get-insert}
use argent.Routing.Graph.{Relation, targets, relate}
use argent.Routing.Graph.Build.{contains-relate}
use argent.Routing.Components.{Scan, no_neighbors, scan_target, scan_targets, scan_emits}

-- An edge of one of the entries.
abbrev pub edge : Relation → Text → Text → Bool
edge [] x y = false
edge ((s, ts) ∷ m) x y = (eqb x s && contains y ts) || edge m x y

-- An edge into the domain from outside.
abbrev pub outer : List Text → Relation → Text → Bool
outer domain [] t = false
outer domain ((s, ts) ∷ m) t =
    (not (contains s domain) && (contains t ts && contains t domain)) || outer domain m t

-- Every actor of the domain has its storage.
abbrev pub HasRoom : List Text → Relation → Type 0
HasRoom domain m = (x : Text) → contains x domain ≡ true → contains_key x m ≡ true

contains_key-relate :
    (m : Relation) (s t x : Text) → contains_key x (relate m s t) ≡ (eqb x s || contains_key x m)
contains_key-relate m s t x = ground (arith, get-insert x s (BTreeSet.insert t (targets m s)) m)

pub contains-select :
    (x : Text) (domain ts : List Text)
    → contains x (select (λ t. contains t domain) ts) ≡ (contains x ts && contains x domain)
contains-select x domain [] = refl
contains-select x domain (t ∷ ts) = ground (arith, contains-select x domain ts, eqb_iff x t)

-- The new neighbors after the edges from `source` to `ts`.
abbrev joined : Text → List Text → Text → Text → Bool
joined source ts x y =
    not (eqb x y) && ((eqb x source && contains y ts) || (eqb y source && contains x ts))

module _ (domain : List Text) where
  scan_target_inside :
      (source target : Text) (s : Scan)
      → contains source domain ≡ true
      → contains target domain ≡ true
      → HasRoom domain s.neighbors
      → (s' : Scan) × (scan_target source true s target ≡ some s')
        × HasRoom domain s'.neighbors
        × (s'.gates ≡ s.gates)
        × ((x y : Text)
            → contains y (targets s'.neighbors x)
              ≡ (contains y (targets s.neighbors x) || joined source (target ∷ []) x y))
  unfolding scan_target
  scan_target_inside source target s a b room = elim (Bool-cases (eqb source target)) [
    | inl same ↦ (
      s,
      rw same,
      room,
      refl,
      λ x y. ground (
        arith,
        eqb_iff source target,
        eqb_iff x source,
        eqb_iff y source,
        eqb_iff x target,
        eqb_iff y target,
        eqb_iff x y,
      ),
    )
    | inr other ↦
        let m = relate s.neighbors source target in
        (
          record s { neighbors = relate m target source },
          ground (
            arith,
            room source a,
            room target b,
            contains_key-relate s.neighbors source target target,
          ),
          λ x h. ground (
            arith,
            room x h,
            contains_key-relate s.neighbors source target x,
            contains_key-relate m target source x,
          ),
          refl,
          λ x y. ground (
            arith,
            contains-relate m target source x y,
            contains-relate s.neighbors source target x y,
            eqb_iff source target,
            eqb_iff x source,
            eqb_iff y source,
            eqb_iff x target,
            eqb_iff y target,
            eqb_iff x y,
          ),
        )
  ]

  joined_cons :
      (source t : Text) (ts : List Text) (x y : Text)
      → (joined source (t ∷ []) x y || joined source ts x y) ≡ joined source (t ∷ ts) x y
  joined_cons source t ts x y = ground arith

  scan_targets_inside :
      (source : Text) (ts : List Text) (s : Scan)
      → contains source domain ≡ true
      → ((t : Text) → contains t ts ≡ true → contains t domain ≡ true)
      → HasRoom domain s.neighbors
      → (s' : Scan) × (scan_targets source true s ts ≡ some s')
        × HasRoom domain s'.neighbors
        × (s'.gates ≡ s.gates)
        × ((x y : Text)
            → contains y (targets s'.neighbors x)
              ≡ (contains y (targets s.neighbors x) || joined source ts x y))
  unfolding scan_targets
  scan_targets_inside source [] s a all room = (s, refl, room, refl, λ x y. ground arith)
  scan_targets_inside source (t ∷ ts) s a all room =
      let (u, e, room', same, adds) =
        scan_target_inside source t s a (all t (ground (arith, eqb_iff t t))) room in
      let (v, e', room'', same', adds') =
        scan_targets_inside source ts u a (λ x h. all x (ground arith)) room' in
      (
        v,
        rw (e, scan_targets) e',
        room'',
        ground arith,
        λ x y. ground (arith, adds x y, adds' x y, joined_cons source t ts x y),
      )

  scan_targets_outside :
      (source : Text) (ts : List Text) (s : Scan)
      → contains source domain ≡ false
      → ((t : Text) → contains t ts ≡ true → contains t domain ≡ true)
      → (scan_targets source false s ts ≡ some (record s { gates = s.gates ++ ts }))
  unfolding scan_targets scan_target
  scan_targets_outside source [] s a all = rw append-nil
  scan_targets_outside source (t ∷ ts) s a all =
      let apart : eqb source t ≡ false =
        ground (arith, eqb_iff source t, all t (ground (arith, eqb_iff t t))) in
      rw (apart, scan_targets)
        (rw
          (scan_targets_outside source ts (record s { gates = s.gates ++ t ∷ [] }) a
            (λ x h. all x (ground arith)))
          (ap (λ gs. some (record s { gates = gs })) (append_assoc s.gates (t ∷ []) ts)))

  pub record Scanned (s s' : Scan) (m : Relation) : Type 0 where
    pub room : HasRoom domain s'.neighbors
    pub neighbors_lem :
        (x y : Text)
        → contains y (targets s'.neighbors x) ≡ (
            contains y (targets s.neighbors x)
            || (contains x domain
                && contains y domain
                && not (eqb x y)
                && (edge m x y || edge m y x)))
    pub gates_lem : (t : Text) → contains t s'.gates ≡ (contains t s.gates || outer domain m t)

  scan_entry :
      (source : Text) (ts : List Text) (s : Scan)
      → HasRoom domain s.neighbors
      → (s' : Scan) × (scan_targets source
            (contains source domain)
            s
            (select (λ target. contains target domain) ts)
          ≡ some s')
        × Scanned s s' ((source, ts) ∷ [])
  scan_entry source ts s room = elim (Bool-cases (contains source domain)) [
    | inl inside ↦
        let (s', e, room', same, adds) =
          scan_targets_inside source (select (λ target. contains target domain) ts) s inside
            (λ t h. ground (arith, contains-select t domain ts)) room in
        (
          s',
          rw inside e,
          record {
            room = room';
            neighbors_lem = λ x y. ground (
              arith,
              adds x y,
              contains-select x domain ts,
              contains-select y domain ts,
              eqb_iff x source,
              eqb_iff y source,
              eqb_iff x y,
            );
            gates_lem = λ t. rw same (ground arith);
          },
        )
    | inr outside ↦ (
      record s { gates = s.gates ++ select (λ target. contains target domain) ts },
      rw outside (
          scan_targets_outside source (select (λ target. contains target domain) ts) s outside
            (λ t h. ground (arith, contains-select t domain ts))),
      record {
        room = room;
        neighbors_lem = λ x y. ground (arith, eqb_iff x source, eqb_iff y source);
        gates_lem = λ t. ground (
          arith,
          contains-append t s.gates (select (λ target. contains target domain) ts),
          contains-select t domain ts,
        );
      },
    )
  ]

  pub scan_emits-Scanned :
      (m : Relation) (s : Scan)
      → HasRoom domain s.neighbors
      → (s' : Scan) × (scan_emits domain s m ≡ some s') × Scanned s s' m
  unfolding scan_emits
  scan_emits-Scanned [] s room = (
    s,
    refl,
    record { room = room; neighbors_lem = λ x y. ground arith; gates_lem = λ t. ground arith },
  )
  scan_emits-Scanned ((source, ts) ∷ m) s room =
      let (u, e, one) = scan_entry source ts s room in
      let (v, e', rest) = scan_emits-Scanned m u one.room in
      (
        v,
        rw (e, scan_emits) e',
        record {
          room = rest.room;
          neighbors_lem = λ x y. ground (arith, one.neighbors_lem x y, rest.neighbors_lem x y);
          gates_lem = λ t. ground (arith, one.gates_lem t, rest.gates_lem t);
        },
      )

-- The storage before the first edge.
pub no_neighbors-HasRoom :
    (m : Relation) (xs : List Text) (x : Text)
    → contains_key x (no_neighbors m xs) ≡ (contains x xs || contains_key x m)
no_neighbors-HasRoom m [] x = refl
no_neighbors-HasRoom m (a ∷ xs) x =
    ground (arith, no_neighbors-HasRoom (BTreeMap.insert a [] m) xs x, get-insert x a [] m)

pub targets-no_neighbors :
    (m : Relation) (xs : List Text) (x y : Text)
    → ((z : Text) → contains y (targets m z) ≡ false)
    → contains y (targets (no_neighbors m xs) x) ≡ false
targets-no_neighbors m [] x y h = h x
targets-no_neighbors m (a ∷ xs) x y h =
    targets-no_neighbors (BTreeMap.insert a [] m) xs x y
      (λ z. ground (arith, get-insert z a [] m, h z))
