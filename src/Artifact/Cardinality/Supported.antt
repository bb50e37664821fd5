-- ===== src/Artifact/Cardinality/Supported.antt =====
-- crates/argent-artifact/src/cardinality.rs: the check accepts exactly the cardinalities that the
-- documentation of `check_cardinality_consistency` describes.
use argent.Base.{
  ℕ, pos, ltℤ-false, ◌≤ℤ◌, ◌≤◌, ◌+◌, ◌≡◌, refl, ◌↔◌, Bool, true, false, List, [], ◌∷◌, All, length,
  if◌then◌else◌, arith, Text, ok, ◌>>=◌, each, each_ok, then_ok, Bool-cases, map, bytes, inl, inr,
  ==_iff,
}
use argent.Artifact.Sil.{SilAbi}
use argent.Artifact.Schema.{Artifact}
use argent.Artifact.Schema.Entry.{
  CardinalityArtifact, one, range, EntryArtifact, EntryKindArtifact, leader, delegate,
  ConsumeArtifact, EmitArtifact, outputs, EmitOutputArtifact, ObserveArtifact, SpawnArtifact,
}
use argent.Artifact.Cardinality.{
  max_entry_range_cardinality, is_range, check, reject_unsupported_range, check_consumes,
  check_outputs, check_emits, check_observe, check_spawn, check_entry,
  check_cardinality_consistency, check_observed, check_spawned,
}

-- Bounds that a range may have.
abbrev pub InBounds : CardinalityArtifact → Type 0
InBounds one = Unit
InBounds (range minimum maximum) =
    (pos 0 ≤ℤ minimum) × (minimum ≤ℤ maximum) × (maximum ≤ℤ max_entry_range_cardinality)

-- How many of the cardinalities are ranges.
abbrev pub ranges : List CardinalityArtifact → ℕ
ranges [] = 0
ranges (c ∷ rest) = (if is_range c then 1 else 0) + ranges rest

abbrev pub IsOne : CardinalityArtifact → Type 0
IsOne c = c ≡ one

abbrev pub ConsumesSupported : EntryKindArtifact → List ConsumeArtifact → Type 0
ConsumesSupported delegate consumes = All (λ c. IsOne c.cardinality) consumes
ConsumesSupported leader consumes =
    All (λ c. InBounds c.cardinality) consumes × (ranges (map (λ c. c.cardinality) consumes) ≤ 1)

abbrev pub OutputSupported : EmitOutputArtifact → Type 0
OutputSupported o = InBounds o.cardinality × (is_range o.cardinality ≡ true → length o.actors ≡ 1)

abbrev pub EmitsSupported : EmitArtifact → Type 0
EmitsSupported EmitArtifact.none = Unit
EmitsSupported (outputs os) = All OutputSupported os × (ranges (map (λ o. o.cardinality) os) ≤ 1)

abbrev pub ObserveSupported : ObserveArtifact → Type 0
ObserveSupported o =
    All (λ i. IsOne i.cardinality) o.inputs × All (λ i. IsOne i.cardinality) o.outputs

abbrev pub SpawnSupported : SpawnArtifact → Type 0
SpawnSupported s = All (λ o. IsOne o.cardinality) s.outputs

abbrev pub EntrySupported : {T : Type 0} → EntryArtifact T → Type 0
EntrySupported e =
    ConsumesSupported e.kind e.consumes
    × EmitsSupported e.emits
    × All ObserveSupported e.observes
    × All SpawnSupported e.spawns

check_ok : (a e s h : Text) (c : CardinalityArtifact) → (check a e s h c ≡ ok tt) ↔ InBounds c
unfolding check
check_ok a e s h one = (λ k. tt, λ k. refl)
check_ok a e s h (range lo hi) =
    ground (arith, ltℤ-false lo (pos 0), ltℤ-false hi lo, ltℤ-false max_entry_range_cardinality hi)

reject_ok :
    (a e s h : Text) (c : CardinalityArtifact)
    → (reject_unsupported_range a e s h c ≡ ok tt) ↔ IsOne c
unfolding reject_unsupported_range check
reject_ok a e s h one = (λ k. refl, λ k. refl)
reject_ok a e s h (range lo hi) = (λ k. ground arith, λ k. cc)

delegate_ok :
    (a e : Text) (has : Bool) (cs : List ConsumeArtifact)
    → (check_consumes a e delegate has cs ≡ ok tt) ↔ All (λ c. IsOne c.cardinality) cs
unfolding check_consumes
delegate_ok a e has [] = (λ h. tt, λ h. refl)
delegate_ok a e has (c ∷ cs) =
    let rest = delegate_ok a e has cs in
    let both =
      then_ok (reject_unsupported_range a e _ c.name c.cardinality)
        (check_consumes a e delegate has cs) in
    (
      λ k. ((reject_ok a e _ c.name c.cardinality).0 (both.0 k).0, rest.0 (both.0 k).1),
      λ p. both.1 ((reject_ok a e _ c.name c.cardinality).1 p.0, rest.1 p.1),
    )

-- The ranges that may still follow.
abbrev allowed : Bool → ℕ
allowed true = 0
allowed false = 1

leader_ok :
    (a e : Text) (has : Bool) (cs : List ConsumeArtifact)
    → (check_consumes a e leader has cs ≡ ok tt) ↔ (
        All (λ c. InBounds c.cardinality) cs × (ranges (map (λ c. c.cardinality) cs) ≤ allowed has))
unfolding check_consumes
leader_ok a e has [] = ground arith
leader_ok a e has (c ∷ cs) = elim (Bool-cases (is_range c.cardinality)) [
  | inl r ↦ ground (
    arith,
    leader_ok a e true cs,
    check_ok a e (bytes "consume") c.name c.cardinality,
    reject_ok a e (bytes "consume") c.name c.cardinality,
  )
  | inr r ↦
      ground (arith, leader_ok a e has cs, check_ok a e (bytes "consume") c.name c.cardinality)
]

outputs_ok :
    (a e : Text) (has : Bool) (os : List EmitOutputArtifact)
    → (check_outputs a e has os ≡ ok tt)
      ↔ (All OutputSupported os × (ranges (map (λ o. o.cardinality) os) ≤ allowed has))
unfolding check_outputs
outputs_ok a e has [] = ground arith
outputs_ok a e has (o ∷ os) = elim (Bool-cases (is_range o.cardinality)) [
  | inl r ↦ ground (
    arith,
    outputs_ok a e true os,
    check_ok a e (bytes "emit") o.name o.cardinality,
    reject_ok a e (bytes "emit") o.name o.cardinality,
    ==_iff (length o.actors) 1,
  )
  | inr r ↦ ground (arith, outputs_ok a e has os, check_ok a e (bytes "emit") o.name o.cardinality)
]

consumes_ok :
    (a e : Text) (kind : EntryKindArtifact) (cs : List ConsumeArtifact)
    → (check_consumes a e kind false cs ≡ ok tt) ↔ ConsumesSupported kind cs
consumes_ok a e leader cs = leader_ok a e false cs
consumes_ok a e delegate cs = delegate_ok a e false cs

emits_ok :
    (a e : Text) (emits : EmitArtifact) → (check_emits a e emits ≡ ok tt) ↔ EmitsSupported emits
unfolding check_emits
emits_ok a e EmitArtifact.none = (λ h. tt, λ h. refl)
emits_ok a e (outputs os) = outputs_ok a e false os

observe_ok : (a e : Text) (o : ObserveArtifact) → (check_observe a e o ≡ ok tt) ↔ ObserveSupported o
unfolding check_observe
observe_ok a e o = ground (
  arith,
  then_ok (each (check_observed a e (bytes "observed input") o.name) o.inputs)
      (each (check_observed a e (bytes "observed output") o.name) o.outputs),
  each_ok (check_observed a e (bytes "observed input") o.name) (λ i. IsOne i.cardinality) o.inputs
      (λ i. reject_ok a e _ _ i.cardinality),
  each_ok (check_observed a e (bytes "observed output") o.name) (λ i. IsOne i.cardinality) o.outputs
      (λ i. reject_ok a e _ _ i.cardinality),
)

spawn_ok : (a e : Text) (s : SpawnArtifact) → (check_spawn a e s ≡ ok tt) ↔ SpawnSupported s
unfolding check_spawn
spawn_ok a e s =
    each_ok (check_spawned a e s.name) (λ o. IsOne o.cardinality) s.outputs
      (λ o. reject_ok a e _ _ o.cardinality)

entry_ok :
    {T : Type 0} (a : Text) (e : EntryArtifact T) → (check_entry a e ≡ ok tt) ↔ EntrySupported e
unfolding check_entry
entry_ok a e =
    let observes = each (check_observe a e.name) e.observes in
    let spawns = each (check_spawn a e.name) e.spawns in
    ground (
      arith,
      consumes_ok a e.name e.kind e.consumes,
      emits_ok a e.name e.emits,
      each_ok (check_observe a e.name) ObserveSupported e.observes (observe_ok a e.name),
      each_ok (check_spawn a e.name) SpawnSupported e.spawns (spawn_ok a e.name),
      then_ok observes spawns,
      then_ok (check_emits a e.name e.emits) (observes >>= λ u. spawns),
      then_ok (check_consumes a e.name e.kind false e.consumes)
          (check_emits a e.name e.emits >>= λ v. observes >>= λ u. spawns),
    )

-- The check succeeds exactly if every entry of every actor has the cardinalities that compilers and
-- runtimes support: in-bounds ranges, at most one ranged consume of a leader entry and one ranged emit,
-- which names one actor, and no other range.
pub check_cardinality_consistency_iff :
    {S : SilAbi} (artifact : Artifact S)
    → (check_cardinality_consistency artifact ≡ ok tt)
      ↔ All (λ actor. All EntrySupported actor.entries) artifact.argent.actors
unfolding check_cardinality_consistency
check_cardinality_consistency_iff artifact =
    each_ok (λ actor. each (check_entry actor.name) actor.entries)
      (λ actor. All EntrySupported actor.entries) artifact.argent.actors
      (λ actor. each_ok (check_entry actor.name) EntrySupported actor.entries (entry_ok actor.name))
