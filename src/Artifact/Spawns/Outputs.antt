-- ===== src/Artifact/Spawns/Outputs.antt =====
-- crates/argent-artifact/src/verify_spawns.rs: the index of the spawned outputs, and the errors.
use argent.Base.{
  ℕ, ◌+◌, not, ◌==◌, none, some, List, [], ◌∷◌, ◌++◌, length, if◌then◌else◌, Text, bytes, Result,
  ok, err, ◌>>=◌,
}
use argent.Collections.Order.{bytes_ord, pair_ord}
use argent.Collections.BTreeSet
use argent.Collections.BTreeSet.{contains}
use argent.Collections.BTreeMap
use argent.Collections.BTreeMap.{get, contains_key}
use argent.Artifact.Schema.Entry.{
  SpawnArtifact, SpawnOutputArtifact, HiddenParamPurposeArtifact, static_actor, dynamic_actor,
}

pub data InvalidSpawnMetadata : Type 0 where
  duplicate_spawn : (spawn : Text) → InvalidSpawnMetadata
  duplicate_covenant : (covenant : Text) → InvalidSpawnMetadata
  no_outputs : (spawn : Text) → InvalidSpawnMetadata
  wrong_group_index : (spawn handle : Text) (found expected : ℕ) → InvalidSpawnMetadata
  repeated_output : (spawn handle : Text) → InvalidSpawnMetadata
  dynamic_target : (spawn handle : Text) → InvalidSpawnMetadata
  index_param_count : (spawn handle : Text) (count : ℕ) → InvalidSpawnMetadata
  mixed_witnesses : (actor : Text) → InvalidSpawnMetadata
  invalid_witness_pair : (actor : Text) → InvalidSpawnMetadata
  self_witnesses : (actor : Text) → InvalidSpawnMetadata
  different_providers : (actor_expr : Text) → InvalidSpawnMetadata
  template_param_count :
      (actor_expr : Text) (count : ℕ) (purpose : HiddenParamPurposeArtifact) → InvalidSpawnMetadata
  wrong_provider :
      (actor_expr : Text) (purpose : HiddenParamPurposeArtifact) (spawn handle : Text)
      → InvalidSpawnMetadata
  unknown_output : (param spawn handle : Text) → InvalidSpawnMetadata
  mismatched_output : (param spawn handle : Text) → InvalidSpawnMetadata
  non_spawn_subject : (param : Text) → InvalidSpawnMetadata

pub record SpawnIndex : Type 0 where
  pub outputs : List ((Text × Text) × SpawnOutputArtifact)
  pub template_subjects : List (Text × (Text × Text × Text))

-- `format!("{app}::{actor}")`.
abbrev pub scoped : Text → Text → Text
scoped app name = app ++ bytes "::" ++ name

-- The `template_actor` of a spawn output.
unfoldable pub template_actor : Text → SpawnOutputArtifact → Result Text InvalidSpawnMetadata
template_actor spawn o = elim o.target [
  | some (static_actor app a) ↦ ok (scoped app a)
  | some (dynamic_actor state) ↦ err (dynamic_target spawn o.name)
  | none ↦ ok o.actor
]

-- `map.entry(key).or_insert(value)`.
abbrev pub or_insert : {V : Type 0} → Text → V → List (Text × V) → List (Text × V)
or_insert key value m = if contains_key key m then m else BTreeMap.insert key value m

-- The body of the loop over the outputs of a spawn.
unfoldable pub index_output :
    Text → ℕ → SpawnOutputArtifact → SpawnIndex → Result SpawnIndex InvalidSpawnMetadata
unfolding template_actor
index_output spawn expected_index o index =
    if not (o.group_index == expected_index)
    then err (wrong_group_index spawn o.name o.group_index expected_index)
    else if contains_key (spawn, o.name) index.outputs
    then err (repeated_output spawn o.name)
    else template_actor spawn o >>= λ subject. ok (record {
      outputs = BTreeMap.insert (spawn, o.name) o index.outputs;
      template_subjects = or_insert subject (o.actor, spawn, o.name) index.template_subjects;
    })

unfoldable pub index_outputs :
    Text → ℕ → List SpawnOutputArtifact → SpawnIndex → Result SpawnIndex InvalidSpawnMetadata
unfolding index_output
index_outputs spawn expected_index [] index = ok index
index_outputs spawn expected_index (o ∷ rest) index =
    index_output spawn expected_index o index >>= λ next.
    index_outputs spawn (expected_index + 1) rest next

-- The body of the loop over the spawns, with `spawn_names` and `spawn_covenants`.
unfoldable pub index_spawn :
    List Text → List Text → SpawnArtifact → SpawnIndex → Result SpawnIndex InvalidSpawnMetadata
unfolding index_outputs
index_spawn names covenants spawn index =
    if contains spawn.name names
    then err (duplicate_spawn spawn.name)
    else if contains spawn.covenant covenants
    then err (duplicate_covenant spawn.covenant)
    else if length spawn.outputs == 0
    then err (no_outputs spawn.name)
    else index_outputs spawn.name 0 spawn.outputs index

unfoldable pub index_spawns :
    List Text → List Text → List SpawnArtifact → SpawnIndex → Result SpawnIndex InvalidSpawnMetadata
unfolding index_spawn
index_spawns names covenants [] index = ok index
index_spawns names covenants (spawn ∷ rest) index =
    index_spawn names covenants spawn index >>= λ next.
    index_spawns (BTreeSet.insert spawn.name names) (BTreeSet.insert spawn.covenant covenants) rest
      next

abbrev pub empty_index : SpawnIndex
empty_index = record { outputs = []; template_subjects = [] }
