-- ===== src/Artifact/Spawns/Index.antt =====
-- crates/argent-artifact/src/verify_spawns.rs: the index of the spawned outputs holds exactly the
-- declared outputs.
use argent.Base.{
  ℕ, zero, suc, ◌+◌, ◌≡◌, ◌≢◌, refl, sym, ap, ◌∙◌, subst, ◌⊎◌, inl, inr, false, ==_iff, none, some,
  List, [], ◌∷◌, length, get_elem?, All, In, arith, if◌then◌else◌, Text, ok, bind_ok, Bool-cases,
}
use argent.Collections.Order.{eqb, eqb_iff, eqb_refl, bytes_ord, pair_ord}
use argent.Collections.BTreeSet
use argent.Collections.BTreeSet.{contains, contains-insert}
use argent.Collections.BTreeMap
use argent.Collections.BTreeMap.{get, contains_key, get-insert}
use argent.Collections.Slices.{Pairwise}
use argent.Artifact.Schema.Entry.{SpawnArtifact, SpawnOutputArtifact}
use argent.Artifact.Spawns.Outputs.{
  SpawnIndex, index_output, index_outputs, index_spawn, index_spawns,
}

abbrev pub Outputs : Type 0
Outputs = List ((Text × Text) × SpawnOutputArtifact)

abbrev pub Grows : SpawnIndex → SpawnIndex → Type 0
Grows i j =
    (k : Text × Text) (v : SpawnOutputArtifact)
    → get k i.outputs ≡ some v
    → get k j.outputs ≡ some v

index_output_ok :
    (spawn : Text) (n : ℕ) (o : SpawnOutputArtifact) (i j : SpawnIndex)
    → index_output spawn n o i ≡ ok j
    → (o.group_index ≡ n)
      × (get (spawn, o.name) i.outputs ≡ none)
      × (j.outputs ≡ BTreeMap.insert (spawn, o.name) o i.outputs)
unfolding index_output
index_output_ok spawn n o i j h = ground (arith, ==_iff o.group_index n)

-- What a run of the loop over the outputs of one spawn adds to the index.
record Added (spawn : Text) (n : ℕ) (os : List SpawnOutputArtifact) (i j : SpawnIndex)
    : Type 0 where
  grows : Grows i j
  declared :
      (k : ℕ) (o : SpawnOutputArtifact)
      → get_elem? os k ≡ some o
      → (o.group_index ≡ n + k) × (get (spawn, o.name) j.outputs ≡ some o)
  only :
      (k : Text × Text) (v : SpawnOutputArtifact)
      → get k j.outputs ≡ some v
      → (get k i.outputs ≡ some v) ⊎ (In v os × (k ≡ (spawn, v.name)))

index_outputs-Added :
    (spawn : Text) (n : ℕ) (os : List SpawnOutputArtifact) (i j : SpawnIndex)
    → index_outputs spawn n os i ≡ ok j
    → Added spawn n os i j
unfolding index_outputs
index_outputs-Added spawn n [] i j h =
    let same : i ≡ j = ground arith in
    subst (Added spawn n [] i) same
      (record { grows = λ k v e. e; declared = λ k o e. cc; only = λ k v e. inl e })
index_outputs-Added spawn n (o ∷ os) i j h =
    let (mid, first, more) = bind_ok (index_output spawn n o i) _ j h in
    let (at, fresh, is_mid) = index_output_ok spawn n o i mid first in
    let rest = index_outputs-Added spawn (n + 1) os mid j more in
    let key : Text × Text = (spawn, o.name) in
    let found = λ (k : Text × Text).
      let e : get k mid.outputs ≡ (if eqb k (spawn, o.name) then some o else get k i.outputs) =
        ap (get k) is_mid ∙ get-insert k (spawn, o.name) o i.outputs in
      e in
    record {
      grows = λ k v e. rest.grows k v (ground (arith, found k, eqb_iff k key));
      declared = λ k p e.
          elim k
              as (λ k.
                get_elem? (o ∷ os) k ≡ some p
                → (p.group_index ≡ n + k) × (get (spawn, p.name) j.outputs ≡ some p)) [
                  | zero ↦ λ e.
                      let same : o ≡ p = ground arith in
                      subst
                        (λ q. (q.group_index ≡ n + 0) × (get (spawn, q.name) j.outputs ≡ some q))
                        same
                        (
                          omega arith,
                          rest.grows (spawn, o.name) o (ground (arith, found key, eqb_refl key)),
                        )
                  | suc k ↦ λ e. let (g, f) = rest.declared k p e in (omega arith, f)
                ]
            e;
      only = λ k v e. elim (rest.only k v e) [
        | inr (m, e') ↦ inr (inr m, e')
        | inl e' ↦ elim (Bool-cases (eqb k (spawn, o.name))) [
          | inl same ↦
              let v_o : v ≡ o = ground (arith, found k) in
              inr (inl v_o, (eqb_iff k key).0 same ∙ ap (λ q. (spawn, q.name)) (sym v_o))
          | inr other ↦ inl (ground (arith, found k))
        ]
      ];
    }

-- A spawn with outputs, numbered from 0, that are all in the index.
abbrev pub Declared : SpawnIndex → SpawnArtifact → Type 0
Declared i s =
    (s.outputs ≢ [])
    × ((k : ℕ) (o : SpawnOutputArtifact)
        → get_elem? s.outputs k ≡ some o
        → (o.group_index ≡ k) × (get (s.name, o.name) i.outputs ≡ some o))

-- The output belongs to a declared spawn, under the key.
abbrev pub Source : List SpawnArtifact → Text × Text → SpawnOutputArtifact → Type 0
Source spawns k v = (s : SpawnArtifact) × In s spawns × In v s.outputs × (k ≡ (s.name, v.name))

abbrev pub Distinct : SpawnArtifact → SpawnArtifact → Type 0
Distinct s t = (s.name ≢ t.name) × (s.covenant ≢ t.covenant)

pub record Run (names covenants : List Text) (spawns : List SpawnArtifact) (i j : SpawnIndex)
    : Type 0 where
  pub grows : Grows i j
  pub new :
      All (λ s. (contains s.name names ≡ false) × (contains s.covenant covenants ≡ false)) spawns
  pub distinct : Pairwise Distinct spawns
  pub declared : All (Declared j) spawns
  pub only :
      (k : Text × Text) (v : SpawnOutputArtifact)
      → get k j.outputs ≡ some v
      → (get k i.outputs ≡ some v) ⊎ Source spawns k v

newer :
    (names covenants : List Text) (s : SpawnArtifact) (spawns : List SpawnArtifact)
    → All
        (λ t.
          (contains t.name (BTreeSet.insert s.name names) ≡ false)
          × (contains t.covenant (BTreeSet.insert s.covenant covenants) ≡ false))
        spawns
    → All (λ t. (contains t.name names ≡ false) × (contains t.covenant covenants ≡ false)) spawns
      × All (Distinct s) spawns
newer names covenants s [] h = (tt, tt)
newer names covenants s (t ∷ spawns) h =
    let (old, apart) = newer names covenants s spawns h.1 in
    let one : (contains t.name names ≡ false)
        × (contains t.covenant covenants ≡ false)
        × Distinct s t =
      ground (
        arith,
        contains-insert t.name s.name names,
        contains-insert t.covenant s.covenant covenants,
        eqb_iff t.name s.name,
        eqb_iff t.covenant s.covenant,
      ) in
    (((one.0, one.1), old), (one.2, apart))

pub index_spawns-Run :
    (names covenants : List Text) (spawns : List SpawnArtifact) (i j : SpawnIndex)
    → index_spawns names covenants spawns i ≡ ok j
    → Run names covenants spawns i j
unfolding index_spawns index_spawn
index_spawns-Run names covenants [] i j h =
    let same : i ≡ j = ground arith in
    subst (Run names covenants [] i) same
      (record { grows = λ k v e. e; new = tt; distinct = tt; declared = tt; only = λ k v e. inl e })
index_spawns-Run names covenants (s ∷ spawns) i j h =
    let (mid, first, more) = bind_ok (index_spawn names covenants s i) _ j h in
    let begun : (contains s.name names ≡ false)
        × (contains s.covenant covenants ≡ false)
        × (length s.outputs ≢ 0)
        × (index_outputs s.name 0 s.outputs i ≡ ok mid) =
      ground (arith, ==_iff (length s.outputs) 0) in
    let added = index_outputs-Added s.name 0 s.outputs i mid begun.3 in
    let rest =
      index_spawns-Run (BTreeSet.insert s.name names) (BTreeSet.insert s.covenant covenants) spawns
        mid j more in
    let (old, apart) = newer names covenants s spawns rest.new in
    record {
      grows = λ k v e. rest.grows k v (added.grows k v e);
      new = ((begun.0, begun.1), old);
      distinct = (apart, rest.distinct);
      declared = (
        (
          λ e. begun.2 (ap length e),
          λ k o e.
              let (g, f) = added.declared k o e in (omega arith, rest.grows (s.name, o.name) o f),
        ),
        rest.declared,
      );
      only = λ k v e. elim (rest.only k v e) [
        | inr (t, m, m', e') ↦ inr (t, inr m, m', e')
        | inl e' ↦ elim (added.only k v e') [
          | inl e'' ↦ inl e''
          | inr (m, e'') ↦ inr (s, inl refl, m, e'')
        ]
      ];
    }
