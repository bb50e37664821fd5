-- ===== src/Artifact/Spawns.antt =====
-- crates/argent-artifact/src/verify_spawns.rs: the spawn metadata of one entry. The message of an
-- InvalidSpawnMetadata error is the constructor of its format string, with the arguments.
pub mod Outputs
pub mod Subjects
pub mod Index
pub mod Params
use argent.Base.{
  ℕ, ◌+◌, Bool, true, false, ◌&&◌, ◌||◌, not, ◌==◌, Option, none, some, List, [], ◌∷◌, ◌++◌, length,
  any, find, select, if◌then◌else◌, Text, bytes, Result, ok, err, ◌>>=◌, Done, each,
}
use argent.Collections.Order.{eqb, bytes_ord, pair_ord}
use argent.Collections.BTreeSet
use argent.Collections.BTreeSet.{contains}
use argent.Collections.BTreeMap
use argent.Collections.BTreeMap.{get, contains_key}
use argent.Artifact.Schema.Entry.{
  EntryArtifact, SpawnArtifact, SpawnOutputArtifact, HiddenParamArtifact,
  HiddenParamSubjectArtifact, actor, observed_actor, spawn_actor, HiddenParamPurposeArtifact,
  spawn_output_index, template_prefix_bytes, template_suffix_bytes, template_prefix_len,
  template_suffix_len, ActorTargetArtifact, static_actor, dynamic_actor, ObservedActorSideArtifact,
  input, output,
}
use Subjects.{subject_eqb, purpose_eqb}
use argent.Artifact.Spawns.Outputs.{
  InvalidSpawnMetadata, SpawnIndex, different_providers, duplicate_covenant, duplicate_spawn,
  dynamic_target, empty_index, index_output, index_outputs, index_param_count, index_spawn,
  index_spawns, invalid_witness_pair, mismatched_output, mixed_witnesses, no_outputs,
  non_spawn_subject, or_insert, repeated_output, scoped, self_witnesses, template_actor,
  template_param_count, unknown_output, wrong_group_index, wrong_provider,
}

-- The subject is an observed or a spawned actor of this expression.
abbrev pub is_source_of : Text → HiddenParamSubjectArtifact → Bool
is_source_of expr (observed_actor observe side handle a) = eqb a expr
is_source_of expr (spawn_actor spawn handle a) = eqb a expr
is_source_of expr s = false

abbrev pub is_actor : Text → HiddenParamSubjectArtifact → Bool
is_actor a (actor b) = eqb b a
is_actor a s = false

-- `((1, 1), (0, 0)) | ((0, 0), (1, 1))`.
abbrev pub is_witness_pair : ℕ → ℕ → ℕ → ℕ → Bool
is_witness_pair prefix suffix prefix_len suffix_len =
    (prefix == 1 && suffix == 1 && prefix_len == 0 && suffix_len == 0)
    || (prefix == 0 && suffix == 0 && prefix_len == 1 && suffix_len == 1)

-- A spawn subject may only provide an output index or template bytes.
abbrev pub is_spawn_purpose : HiddenParamPurposeArtifact → Bool
is_spawn_purpose purpose =
    purpose_eqb purpose spawn_output_index
    || purpose_eqb purpose template_prefix_bytes
    || purpose_eqb purpose template_suffix_bytes

module _ {T : Type 0} where
  unfoldable pub index_spawn_outputs : EntryArtifact T → Result SpawnIndex InvalidSpawnMetadata
  unfolding index_spawns
  index_spawn_outputs entry = index_spawns [] [] entry.spawns empty_index

  -- The hidden parameters that give the index of a spawned output.
  abbrev pub index_params :
      EntryArtifact T → HiddenParamSubjectArtifact → List (HiddenParamArtifact T)
  index_params entry subject =
      select (λ p. subject_eqb p.subject subject && purpose_eqb p.purpose spawn_output_index)
        entry.hidden_params

  unfoldable pub verify_index_param :
      EntryArtifact T → (Text × Text) × SpawnOutputArtifact → Result Done InvalidSpawnMetadata
  verify_index_param entry ((spawn, handle), o) =
      let count = length (index_params entry (spawn_actor spawn handle o.actor)) in
      if count == 1 then ok tt else err (index_param_count spawn handle count)

  unfoldable pub verify_spawn_output_index_params :
      EntryArtifact T → SpawnIndex → Result Done InvalidSpawnMetadata
  unfolding verify_index_param
  verify_spawn_output_index_params entry index = each (verify_index_param entry) index.outputs

  abbrev pub source_params :
      EntryArtifact T → Text → HiddenParamPurposeArtifact → List (HiddenParamArtifact T)
  source_params entry expr purpose =
      select (λ p. is_source_of expr p.subject && purpose_eqb p.purpose purpose) entry.hidden_params

  abbrev pub source_template_params : EntryArtifact T → Text → List (HiddenParamArtifact T)
  source_template_params entry expr =
      select
        (λ p.
          is_source_of expr p.subject
          && (purpose_eqb p.purpose template_prefix_bytes
              || purpose_eqb p.purpose template_suffix_bytes))
        entry.hidden_params

  abbrev pub actor_params : EntryArtifact T → Text → List (HiddenParamArtifact T)
  actor_params entry subject =
      select
        (λ p.
          is_actor subject p.subject
          && (purpose_eqb p.purpose template_prefix_bytes
              || purpose_eqb p.purpose template_suffix_bytes
              || purpose_eqb p.purpose template_prefix_len
              || purpose_eqb p.purpose template_suffix_len))
        entry.hidden_params

  abbrev pub count_purpose : List (HiddenParamArtifact T) → HiddenParamPurposeArtifact → ℕ
  count_purpose params purpose = length (select (λ p. purpose_eqb p.purpose purpose) params)

  unfoldable pub valid_observed_template_provider :
      EntryArtifact T → HiddenParamSubjectArtifact → Text → Bool
  valid_observed_template_provider entry (observed_actor observe output handle a) expr =
      eqb a expr && elim (find (λ o. eqb o.name observe) entry.observes) [
        | none ↦ false
        | some o ↦ elim (find (λ q. eqb q.name handle) o.outputs) [
          | none ↦ false
          | some q ↦ elim q.target [ static_actor app b ↦ false | dynamic_actor state ↦ true ]
        ]
      ]
  valid_observed_template_provider entry subject expr = false

  -- The body of the loop over the two purposes.
  unfoldable pub verify_provider :
      EntryArtifact T
      → Text
      → Text
      → Text
      → HiddenParamPurposeArtifact
      → Result Done InvalidSpawnMetadata
  unfolding valid_observed_template_provider
  verify_provider entry expr spawn handle purpose = elim (source_params entry expr purpose) [
    | [] ↦ err (template_param_count expr 0 purpose)
    | p ∷ [] ↦
        if not (subject_eqb p.subject (spawn_actor spawn handle expr))
          && not (valid_observed_template_provider entry p.subject expr)
        then err (wrong_provider expr purpose spawn handle)
        else ok tt
    | p ∷ q ∷ rest ↦ err (template_param_count expr (length (p ∷ q ∷ rest)) purpose)
  ]

  -- `prefix_subject.is_some() && suffix_subject.is_some() && prefix_subject != suffix_subject`.
  abbrev pub providers_differ : EntryArtifact T → Text → Bool
  providers_differ entry expr =
      elim (find (λ p. purpose_eqb p.purpose template_prefix_bytes)
        (source_template_params entry expr)) [
          | none ↦ false
          | some p ↦
              elim (find (λ q. purpose_eqb q.purpose template_suffix_bytes)
                (source_template_params entry expr)) [
                  | none ↦ false
                  | some q ↦ not (subject_eqb p.subject q.subject)
                ]
        ]

  -- The actor expression has parameters of its own, or is the entry's contract, or names a source.
  unfoldable pub verify_template_param :
      EntryArtifact T → Text × (Text × Text × Text) → Result Done InvalidSpawnMetadata
  unfolding verify_provider
  verify_template_param entry (subject, (expr, spawn, handle)) =
      let own = actor_params entry subject in
      if not (length own == 0)
      then (if not (length (source_template_params entry expr) == 0)
          then err (mixed_witnesses subject)
          else if not (
              is_witness_pair (count_purpose own template_prefix_bytes)
                (count_purpose own template_suffix_bytes) (count_purpose own template_prefix_len)
                (count_purpose own template_suffix_len))
          then err (invalid_witness_pair subject)
          else ok tt)
      else if eqb subject entry.abi.contract
      then (if not (length (source_template_params entry expr) == 0)
          then err (self_witnesses subject)
          else ok tt)
      else if providers_differ entry expr
      then err (different_providers expr)
      else each (verify_provider entry expr spawn handle)
          (template_prefix_bytes ∷ template_suffix_bytes ∷ [])

  unfoldable pub verify_spawn_template_params :
      EntryArtifact T → SpawnIndex → Result Done InvalidSpawnMetadata
  unfolding verify_template_param
  verify_spawn_template_params entry index =
      each (verify_template_param entry) index.template_subjects

  unfoldable pub verify_param_subject :
      SpawnIndex → HiddenParamArtifact T → Result Done InvalidSpawnMetadata
  verify_param_subject index param = elim param.subject [
    | spawn_actor spawn handle a ↦ elim (get (spawn, handle) index.outputs) [
      | none ↦ err (unknown_output param.name spawn handle)
      | some o ↦
          if not (eqb a o.actor) || not (is_spawn_purpose param.purpose)
          then err (mismatched_output param.name spawn handle)
          else ok tt
    ]
    | _ ↦
        if purpose_eqb param.purpose spawn_output_index
        then err (non_spawn_subject param.name)
        else ok tt
  ]

  unfoldable pub verify_spawn_param_subjects :
      EntryArtifact T → SpawnIndex → Result Done InvalidSpawnMetadata
  unfolding verify_param_subject
  verify_spawn_param_subjects entry index = each (verify_param_subject index) entry.hidden_params

  unfoldable pub verify_entry_spawns : EntryArtifact T → Result Done InvalidSpawnMetadata
  unfolding index_spawn_outputs verify_spawn_output_index_params verify_spawn_template_params
      verify_spawn_param_subjects
  verify_entry_spawns entry = index_spawn_outputs entry >>= λ index.
      verify_spawn_output_index_params entry index >>= λ u.
      verify_spawn_template_params entry index >>= λ v. verify_spawn_param_subjects entry index
