-- ===== src/Artifact/PlanCheck/Handle.antt =====
-- crates/argent-artifact/src/lib.rs, `verify_actor_type_handle` and `fixed_runtime_context_value`: the
-- prefix of a handle is the Sil prefix with the fixed context after it.
use argent.Base.{
  Bool, true, false, ◌&&◌, Option, none, some, List, [], ◌∷◌, ◌++◌, length, find, take, drop, Text,
  Bytes, Result, ok, err, ◌>>=◌, Done, each,
}
use argent.Collections.Order.{eqb, bytes_ord}
use argent.Collections.Slices.{starts_with}
use argent.Artifact.Sil.{SilAbi, SilPlan}
use argent.Artifact.Digest.{Digest}
use argent.Artifact.Schema.{Artifact, StateExpansionArtifact, ArgentFieldArtifact}
use argent.Artifact.Schema.Plan.{
  TemplatePlanArtifact, TemplateReceiptArtifact, RuntimeStatePlanArtifact,
  RuntimeFieldRolePlanArtifact, RuntimeFieldRoleArtifact, template, template_table, template_digest,
  template_root, RouteTemplateTableArtifact, RouteTemplateTableEntryArtifact,
  RouteTemplateFamilyArtifact, RouteTemplateProofArtifact, RouteTemplateLeafArtifact,
}
use argent.Artifact.RouteProof.{
  TemplateHashLookup, receipts_lookup, route_template_proof_receipt_id,
}
use argent.Artifact.Merkle.{decode_hash_hex}
use argent.Artifact.PlanCheck.Proofs.{texts_eqb}
use argent.Artifact.PlanError.{
  TemplatePlanError, unknown_contract, runtime_state_plan_mismatch, no_family, no_table, no_proof,
  nested_family, actor_type_handle_mismatch, HandleMessage, missing_actor, other_state,
  other_context, not_leading, missing_layout, other_layout, outside_script, other_prefix,
  other_suffix, other_hash, undecodable_context, unencodable_context, noncanonical_context,
  other_commitment,
}

-- The trait, as the record of its methods, with those of its supertrait.
pub record TemplatePlanLookup : Type 0 where
  pub hashes : TemplateHashLookup
  pub route_tables : List RouteTemplateTableArtifact
  pub route_proofs : List RouteTemplateProofArtifact
  pub route_families : List RouteTemplateFamilyArtifact

-- `impl TemplatePlanLookup for TemplatePlanArtifact`.
abbrev pub plan_lookup : TemplatePlanArtifact → TemplatePlanLookup
plan_lookup plan = record {
  hashes = receipts_lookup plan.templates;
  route_tables = plan.route_tables;
  route_proofs = plan.route_proofs;
  route_families = plan.route_families;
}

unfoldable pub sil_template_hash_bytes : TemplateHashLookup → Text → Result Bytes TemplatePlanError
sil_template_hash_bytes plan actor = elim (plan.template_hash_by_actor actor) [
  | none ↦ err (unknown_contract actor)
  | some t ↦ ok t.hash
]

-- `ok_or_else`.
abbrev pub ok_or : {A E : Type 0} → E → Option A → Result A E
ok_or e none = err e
ok_or e (some a) = ok a

module _ (D : Digest) (plan : TemplatePlanLookup) where
  -- The loop over the contracts of a table.
  unfoldable pub hash_table : List Text → Result Bytes TemplatePlanError
  unfolding sil_template_hash_bytes
  hash_table [] = ok []
  hash_table (contract ∷ rest) = sil_template_hash_bytes plan.hashes contract >>= λ hash.
      hash_table rest >>= λ table. ok (hash ++ table)

  -- The loop over the entries.
  unfoldable pub fixed_entries :
      Text → Text → Text → List RouteTemplateTableEntryArtifact → Result Bytes TemplatePlanError
  unfolding sil_template_hash_bytes
  fixed_entries contract field id [] = ok []
  fixed_entries contract field id (entry ∷ rest) =
      let others = fixed_entries contract field id rest in
      elim (entry.leaf) [
        | RouteTemplateLeafArtifact.template actor template_id ↦
            sil_template_hash_bytes plan.hashes actor >>= λ hash.
            others >>= λ table. ok (hash ++ table)
        | RouteTemplateLeafArtifact.route_family family_id proof_id ↦
            err (runtime_state_plan_mismatch contract (nested_family field id family_id))
      ]

  unfoldable pub fixed_route_table_bytes :
      RuntimeStatePlanArtifact → RouteTemplateTableArtifact → Result Bytes TemplatePlanError
  unfolding fixed_entries
  fixed_route_table_bytes runtime_state table =
      fixed_entries runtime_state.contract table.field table.id table.entries

  unfoldable pub fixed_runtime_context_value :
      RuntimeStatePlanArtifact → Text → RuntimeFieldRoleArtifact → Result Bytes TemplatePlanError
  unfolding sil_template_hash_bytes hash_table fixed_route_table_bytes
  fixed_runtime_context_value runtime_state name (template contract) =
      sil_template_hash_bytes plan.hashes contract
  fixed_runtime_context_value runtime_state name (template_table contracts) = hash_table contracts
  fixed_runtime_context_value runtime_state name (template_digest id) =
      ok_or (runtime_state_plan_mismatch runtime_state.contract (no_family name id))
        (find (λ family. eqb family.id id) plan.route_families)
      >>= λ family.
          ok_or (runtime_state_plan_mismatch runtime_state.contract (no_table name family.table_id))
            (find (λ table. eqb table.id family.table_id) plan.route_tables)
          >>= λ table. fixed_route_table_bytes runtime_state table >>= λ bytes. ok (D.hash bytes)
  fixed_runtime_context_value runtime_state name (template_root leaves) =
      let proof_id = route_template_proof_receipt_id runtime_state.source name in
      ok_or (runtime_state_plan_mismatch runtime_state.contract (no_proof name proof_id))
        (find (λ proof. eqb proof.id proof_id) plan.route_proofs)
      >>= λ proof. decode_hash_hex D proof_id proof.root_hex

-- The base of the state, if it is expanded, and otherwise the state.
abbrev pub source_state : List StateExpansionArtifact → Text → Text
source_state expansions state = elim (find (λ expansion. eqb expansion.state state) expansions) [
  | none ↦ state
  | some expansion ↦ expansion.base
]

abbrev pub role_names : List RuntimeFieldRolePlanArtifact → List Text
role_names [] = []
role_names (field ∷ rest) = field.name ∷ role_names rest

-- `expected_context_fields`.
abbrev pub context_fields : Option RuntimeStatePlanArtifact → List Text
context_fields none = []
context_fields (some runtime_state) = role_names runtime_state.field_roles

abbrev pub first_names : {T : Type 0} → List (Text × T) → List Text
first_names [] = []
first_names ((name, ty) ∷ rest) = name ∷ first_names rest

-- The open runtime fields are those of the layout, in number, names and types.
abbrev pub layout_eqb :
    {T : Type 0} → (T → T → Bool) → List (Text × T) → List (ArgentFieldArtifact T) → Bool
layout_eqb eq [] [] = true
layout_eqb eq ((name, ty) ∷ fields) (source ∷ sources) =
    (eqb name source.name && eq ty source.ty) && layout_eqb eq fields sources
layout_eqb eq fields sources = false

-- An early return: the error unless the condition holds.
abbrev pub ensure : {E : Type 0} → Bool → E → Result Done E
ensure true e = ok tt
ensure false e = err e

module _ (S : SilAbi) (P : SilPlan S) (D : Digest) (plan : TemplatePlanArtifact)
    (artifact : Artifact S) (t : TemplateReceiptArtifact) where
  abbrev pub mismatch : HandleMessage → TemplatePlanError
  mismatch message = actor_type_handle_mismatch t.id message

  -- The state that the handle exposes.
  unfoldable pub check_handle_state : Result Done TemplatePlanError
  check_handle_state =
      ok_or (mismatch (missing_actor t.actor))
        (find (λ actor. eqb actor.name t.actor) artifact.argent.actors)
      >>= λ actor.
          let source = source_state artifact.argent.state_expansions actor.state in
          ensure (eqb source t.actor_type_handle.state)
            (mismatch (other_state t.actor_type_handle.state actor.name source))

  -- The split of the runtime fields into the context and the open ones.
  unfoldable pub check_handle_fields :
      Option RuntimeStatePlanArtifact → List (Text × S.TypeArtifact) → Result Done TemplatePlanError
  check_handle_fields runtime_plan fields =
      let handle = t.actor_type_handle in
      let count = length handle.context_fields in
      ensure (texts_eqb handle.context_fields (context_fields runtime_plan))
        (mismatch (other_context handle.context_fields (context_fields runtime_plan)))
      >>= λ u.
          ensure (texts_eqb (first_names (take count fields)) handle.context_fields)
            (mismatch not_leading)
          >>= λ v.
              ok_or (mismatch (missing_layout handle.state))
                (find (λ state. eqb state.name handle.state) artifact.argent.states)
              >>= λ state.
                  ensure (layout_eqb P.type_eqb (drop count fields) state.fields)
                    (mismatch (other_layout handle.state))

  -- The template of the handle against the script; the result is the script of the context.
  unfoldable pub check_handle_template : S.SilContractArtifact → Result Bytes TemplatePlanError
  check_handle_template contract =
      let handle = t.actor_type_handle.template in
      ok_or (mismatch outside_script) (P.script_parts contract) >>= λ parts.
      ensure (starts_with handle.prefix parts.0) (mismatch other_prefix) >>= λ u.
      ensure (eqb handle.suffix parts.2) (mismatch other_suffix) >>= λ v.
      let expected = P.template_hash_of handle.prefix handle.suffix in
      ensure (eqb handle.hash expected)
        (mismatch (other_hash (D.hex_encode expected) (D.hex_encode handle.hash)))
      >>= λ w. ok (drop (length parts.0) handle.prefix)

  -- `map_err`.
  abbrev pub map_err :
      {A : Type 0} → (Text → HandleMessage) → Result A Text → Result A TemplatePlanError
  map_err message (ok a) = ok a
  map_err message (err e) = err (mismatch (message e))

  -- The round trip of the context.
  unfoldable pub check_context_script :
      List (Text × S.TypeArtifact) → Bytes → Result P.Values TemplatePlanError
  check_context_script fields script =
      let source = t.actor_type_handle.state in
      map_err undecodable_context
        (P.decode_runtime_state_script artifact.sil_abi source fields script)
      >>= λ values.
          map_err unencodable_context
            (P.encode_runtime_state_script artifact.sil_abi source fields values)
          >>= λ canonical.
              ensure (eqb canonical script) (mismatch noncanonical_context) >>= λ u. ok values

  -- The bytes of a field are there and are these.
  abbrev pub holds : Option Bytes → Bytes → Bool
  holds none expected = false
  holds (some found) expected = eqb found expected

  unfoldable pub check_commitment :
      P.Values
      → RuntimeStatePlanArtifact
      → RuntimeFieldRolePlanArtifact
      → Result Done TemplatePlanError
  unfolding fixed_runtime_context_value
  check_commitment values runtime_state field =
      fixed_runtime_context_value D (plan_lookup plan) runtime_state field.name field.role
      >>= λ expected.
          ensure (holds (P.bytes_of values field.name) expected)
            (mismatch (other_commitment field.name))

  unfoldable pub check_commitments :
      P.Values → Option RuntimeStatePlanArtifact → Result Done TemplatePlanError
  unfolding check_commitment
  check_commitments values none = ok tt
  check_commitments values (some runtime_state) =
      each (check_commitment values runtime_state) runtime_state.field_roles

  unfoldable pub verify_actor_type_handle :
      Text → S.SilContractArtifact → Result Done TemplatePlanError
  unfolding check_handle_state check_handle_fields check_handle_template check_context_script
      check_commitments
  verify_actor_type_handle contract_name contract = check_handle_state >>= λ u.
      let runtime_plan = find (λ state. eqb state.contract contract_name) plan.runtime_states in
      let fields = P.runtime_fields contract in
      check_handle_fields runtime_plan fields >>= λ v. check_handle_template contract >>= λ script.
      check_context_script (take (length t.actor_type_handle.context_fields) fields) script
      >>= λ values. check_commitments values runtime_plan
