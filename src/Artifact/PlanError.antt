-- ===== src/Artifact/PlanError.antt =====
-- crates/argent-artifact/src/lib.rs: the errors of the template plan. A message is the constructor of
-- its format string, with the arguments.
use argent.Base.{ℕ, List, Text}
use argent.Artifact.Spawns.Outputs.{InvalidSpawnMetadata}

pub data HexMessage : Type 0 where
  undecodable : HexMessage
  wrong_length : (found : ℕ) → HexMessage

-- The messages of an invalid actor-type handle; a codec error is its text.
pub data HandleMessage : Type 0 where
  missing_actor : (actor : Text) → HandleMessage
  other_state : (state actor source_state : Text) → HandleMessage
  other_context : (found expected : List Text) → HandleMessage
  not_leading : HandleMessage
  missing_layout : (state : Text) → HandleMessage
  other_layout : (state : Text) → HandleMessage
  outside_script : HandleMessage
  other_prefix : HandleMessage
  other_suffix : HandleMessage
  other_hash : (expected found : Text) → HandleMessage
  undecodable_context : (codec : Text) → HandleMessage
  unencodable_context : (codec : Text) → HandleMessage
  noncanonical_context : HandleMessage
  other_commitment : (field : Text) → HandleMessage

pub data RuntimeMessage : Type 0 where
  no_actor : RuntimeMessage
  other_source : (source actor_state : Text) → RuntimeMessage
  duplicated_role : (field : Text) → RuntimeMessage
  unknown_role : (field : Text) → RuntimeMessage
  untyped_template : (field : Text) → RuntimeMessage
  no_family : (field id : Text) → RuntimeMessage
  no_table : (field id : Text) → RuntimeMessage
  no_proof : (field id : Text) → RuntimeMessage
  nested_family : (field table family_id : Text) → RuntimeMessage

pub data TemplatePlanError : Type 0 where
  duplicate_template_id : Text → TemplatePlanError
  duplicate_route_table_id : Text → TemplatePlanError
  duplicate_route_proof_id : Text → TemplatePlanError
  duplicate_witness_recipe_id : Text → TemplatePlanError
  missing_template_receipt : (actor : Text) (id : Text) → TemplatePlanError
  unknown_contract : Text → TemplatePlanError
  template_contract_mismatch : (id : Text) (actor : Text) (contract : Text) → TemplatePlanError
  template_ref_mismatch : (id : Text) (actor : Text) → TemplatePlanError
  unreferenced_template_receipt : (id : Text) → TemplatePlanError
  template_hash_mismatch : (id : Text) (expected : Text) (found : Text) → TemplatePlanError
  actor_type_handle_mismatch : (id : Text) (message : HandleMessage) → TemplatePlanError
  invalid_hex : (id : Text) (message : HexMessage) → TemplatePlanError
  route_table_len_mismatch : (id : Text) (byte_len : ℕ) (expected : ℕ) → TemplatePlanError
  missing_route_table_template : (id : Text) (actor : Text) (template_id : Text) → TemplatePlanError
  route_table_template_mismatch :
      (id : Text) (actor : Text) (template_id : Text) (template_actor : Text) → TemplatePlanError
  missing_route_table_family : (id : Text) (family_id : Text) → TemplatePlanError
  route_table_family_proof_mismatch :
      (id : Text) (family_id : Text) (proof_id : Text) (expected : Text) → TemplatePlanError
  route_table_offset_mismatch :
      (id : Text) (index : ℕ) (offset : ℕ) (expected : ℕ) → TemplatePlanError
  missing_runtime_route_table : (contract : Text) (field : Text) (id : Text) → TemplatePlanError
  runtime_route_table_mismatch : (contract : Text) (field : Text) (id : Text) → TemplatePlanError
  duplicate_runtime_state_plan : Text → TemplatePlanError
  runtime_state_plan_mismatch : (contract : Text) (message : RuntimeMessage) → TemplatePlanError
  unreferenced_route_table : (id : Text) → TemplatePlanError
  missing_route_proof_table : (id : Text) (table_id : Text) → TemplatePlanError
  missing_route_proof : (table_id : Text) → TemplatePlanError
  route_proof_table_mismatch : (id : Text) (table_id : Text) → TemplatePlanError
  route_proof_leaf_hash_mismatch :
      (id : Text) (index : ℕ) (expected : Text) (found : Text) → TemplatePlanError
  route_proof_root_mismatch : (id : Text) (expected : Text) (found : Text) → TemplatePlanError
  route_proof_mismatch :
      (id : Text) (index : ℕ) (expected : Text) (found : Text) → TemplatePlanError
  recursive_route_family_leaf : (id : Text) (family_id : Text) → TemplatePlanError
  nested_route_family_leaf : (id : Text) (table_id : Text) (family_id : Text) → TemplatePlanError
  duplicate_route_family_id : Text → TemplatePlanError
  route_family_too_small : (id : Text) → TemplatePlanError
  duplicate_route_family_actor : (id : Text) (actor : Text) → TemplatePlanError
  missing_route_family_actor : (id : Text) (actor : Text) → TemplatePlanError
  route_family_representative_outside_family :
      (id : Text) (representative : Text) → TemplatePlanError
  duplicate_route_family_entry_actor : (id : Text) (actor : Text) → TemplatePlanError
  missing_route_family_entry_actor : (id : Text) (actor : Text) → TemplatePlanError
  route_family_state_mismatch :
      (id : Text) (actor : Text) (expected : Text) (found : Text) → TemplatePlanError
  missing_route_family_table : (id : Text) (table_id : Text) → TemplatePlanError
  route_family_table_mismatch :
      (id : Text) (table_id : Text) (state : Text) (actors : List Text) → TemplatePlanError
  missing_witness_template : (id : Text) (template_id : Text) → TemplatePlanError
  missing_witness_imported_template : (id : Text) (actor : Text) → TemplatePlanError
  missing_witness_route_family : (id : Text) (family_id : Text) → TemplatePlanError
  missing_witness_route_proof : (id : Text) (route_proof_id : Text) → TemplatePlanError
  witness_template_mismatch : (id : Text) (actor : Text) (template_actor : Text) → TemplatePlanError
  missing_hidden_param_recipe : (entry : Text) (param : Text) (recipe_id : Text) → TemplatePlanError
  hidden_param_recipe_mismatch :
      (entry : Text) (param : Text) (recipe_id : Text) → TemplatePlanError
  missing_entry_witness_recipe :
      (entry : Text) (param : Text) (recipe_id : Text) → TemplatePlanError
  entry_witness_recipe_mismatch :
      (entry : Text) (param : Text) (recipe_id : Text) → TemplatePlanError
  invalid_spawn_metadata : (entry : Text) (message : InvalidSpawnMetadata) → TemplatePlanError
  missing_route_template : (entry : Text) (actor : Text) (template_id : Text) → TemplatePlanError
  route_template_mismatch :
      (entry : Text) (actor : Text) (template_id : Text) (template_actor : Text) → TemplatePlanError
  route_plan_recipe_not_exposed : (entry : Text) (recipe_id : Text) → TemplatePlanError
  missing_route_plan_recipe : (entry : Text) (recipe_id : Text) → TemplatePlanError
