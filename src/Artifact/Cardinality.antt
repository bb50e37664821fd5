-- ===== src/Artifact/Cardinality.antt =====
-- crates/argent-artifact/src/cardinality.rs: the range cardinalities that compilers and runtimes
-- accept.
pub mod Supported
use argent.Base.{
  ℕ, ℤ, pos, ltℤ, ◌≡◌, Bool, true, false, ◌&&◌, ◌||◌, not, ◌==◌, List, [], ◌∷◌, ◌++◌, Text, bytes,
  length, if◌then◌else◌, Result, ok, err, ◌>>=◌, Done, each,
}
use argent.Artifact.Sil.{SilAbi}
use argent.Artifact.Schema.{Artifact, ActorArtifact}
use argent.Artifact.Schema.Entry.{
  CardinalityArtifact, one, range, EntryArtifact, EntryKindArtifact, leader, delegate,
  ConsumeArtifact, EmitArtifact, outputs, EmitOutputArtifact, ObserveArtifact,
  ObservedActorArtifact, SpawnArtifact, SpawnOutputArtifact,
}

abbrev pub max_entry_range_cardinality : ℤ
max_entry_range_cardinality = pos 512

pub data ArtifactCardinalityError : Type 0 where
  invalid_range :
      (actor entry section handle : Text) (minimum maximum : ℤ) → ArtifactCardinalityError
  unsupported_range : (actor entry section handle : Text) → ArtifactCardinalityError

-- `matches!(cardinality, CardinalityArtifact::Range { .. })`.
abbrev pub is_range : CardinalityArtifact → Bool
is_range one = false
is_range (range minimum maximum) = true

-- `format!("{}.{}", name, handle)`.
abbrev pub dotted : Text → Text → Text
dotted name handle = name ++ bytes "." ++ handle

-- The closures of the check, for the entry `entry` of the actor `actor`.
module _ (actor entry : Text) where
  unfoldable pub check : Text → Text → CardinalityArtifact → Result Done ArtifactCardinalityError
  check section handle one = ok tt
  check section handle (range minimum maximum) =
      if ltℤ minimum (pos 0) || ltℤ maximum minimum || ltℤ max_entry_range_cardinality maximum
      then err (invalid_range actor entry section handle minimum maximum)
      else ok tt

  unfoldable pub reject_unsupported_range :
      Text → Text → CardinalityArtifact → Result Done ArtifactCardinalityError
  unfolding check
  reject_unsupported_range section handle cardinality = check section handle cardinality >>= λ u.
      if is_range cardinality then err (unsupported_range actor entry section handle) else ok tt

  -- The loop over the consumes, with `has_consume_range`.
  unfoldable pub check_consumes :
      EntryKindArtifact → Bool → List ConsumeArtifact → Result Done ArtifactCardinalityError
  unfolding check reject_unsupported_range
  check_consumes kind has_consume_range [] = ok tt
  check_consumes delegate has_consume_range (consume ∷ rest) =
      reject_unsupported_range (bytes "delegate consume") consume.name consume.cardinality >>= λ u.
      check_consumes delegate has_consume_range rest
  check_consumes leader has_consume_range (consume ∷ rest) =
      check (bytes "consume") consume.name consume.cardinality >>= λ u.
      (if is_range consume.cardinality && has_consume_range
        then reject_unsupported_range (bytes "consume") consume.name consume.cardinality
        else ok tt)
      >>= λ v. check_consumes leader (has_consume_range || is_range consume.cardinality) rest

  -- The loop over the emitted outputs, with `has_emit_range`.
  unfoldable pub check_outputs :
      Bool → List EmitOutputArtifact → Result Done ArtifactCardinalityError
  unfolding check reject_unsupported_range
  check_outputs has_emit_range [] = ok tt
  check_outputs has_emit_range (output ∷ rest) =
      check (bytes "emit") output.name output.cardinality >>= λ u.
      (if is_range output.cardinality && (has_emit_range || not (length output.actors == 1))
        then reject_unsupported_range (bytes "emit") output.name output.cardinality
        else ok tt)
      >>= λ v. check_outputs (has_emit_range || is_range output.cardinality) rest

  unfoldable pub check_emits : EmitArtifact → Result Done ArtifactCardinalityError
  unfolding check_outputs
  check_emits EmitArtifact.none = ok tt
  check_emits (outputs os) = check_outputs false os

  abbrev pub check_observed :
      Text → Text → ObservedActorArtifact → Result Done ArtifactCardinalityError
  check_observed section name o =
      reject_unsupported_range section (dotted name o.name) o.cardinality

  unfoldable pub check_observe : ObserveArtifact → Result Done ArtifactCardinalityError
  check_observe observe =
      each (check_observed (bytes "observed input") observe.name) observe.inputs >>= λ u.
      each (check_observed (bytes "observed output") observe.name) observe.outputs

  abbrev pub check_spawned : Text → SpawnOutputArtifact → Result Done ArtifactCardinalityError
  check_spawned name o =
      reject_unsupported_range (bytes "spawn output") (dotted name o.name) o.cardinality

  unfoldable pub check_spawn : SpawnArtifact → Result Done ArtifactCardinalityError
  check_spawn spawn = each (check_spawned spawn.name) spawn.outputs

-- The body of the inner loop.
unfoldable pub check_entry :
    {T : Type 0} → Text → EntryArtifact T → Result Done ArtifactCardinalityError
unfolding check_consumes check_emits check_observe check_spawn
check_entry actor entry = check_consumes actor entry.name entry.kind false entry.consumes >>= λ u.
    check_emits actor entry.name entry.emits >>= λ v.
    each (check_observe actor entry.name) entry.observes >>= λ w.
    each (check_spawn actor entry.name) entry.spawns

unfoldable pub check_cardinality_consistency :
    {S : SilAbi} → Artifact S → Result Done ArtifactCardinalityError
unfolding check_entry
check_cardinality_consistency artifact =
    each (λ actor. each (check_entry actor.name) actor.entries) artifact.argent.actors
