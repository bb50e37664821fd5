-- ===== src/Artifact/PlanCheck/Handled.antt =====
-- crates/argent-artifact/src/lib.rs: what `verify_actor_type_handle` ensures of a handle.
use argent.Base.{◌≡◌, Option, some, ◌++◌, length, find, take, drop, In, Text, Bytes, ok, bind_ok}
use argent.Collections.Order.{eqb, bytes_ord}
use argent.Artifact.Sil.{SilAbi, SilPlan, SilPlanLaws}
use argent.Artifact.Digest.{Digest}
use argent.Artifact.Schema.{Artifact, ActorArtifact, ArgentStateArtifact}
use argent.Artifact.Schema.Plan.{
  TemplatePlanArtifact, TemplateReceiptArtifact, RuntimeStatePlanArtifact,
  RuntimeFieldRolePlanArtifact,
}
use argent.Artifact.PlanCheck.Handle.{
  source_state, context_fields, first_names, plan_lookup, fixed_runtime_context_value,
  verify_actor_type_handle,
}
use argent.Artifact.PlanCheck.Outcomes.{SameLayout}
use argent.Artifact.PlanCheck.HandleParts.{
  check_handle_state-Exposed, check_handle_fields-Split, check_handle_template-Extended,
  check_context_script-Canonical, check_commitments-Commits,
}

-- The handle `t` of a receipt whose contract is compiled to `contract`, planned by `runtime_plan`.
pub record IsHandled (S : SilAbi) (P : SilPlan S) (D : Digest) (plan : TemplatePlanArtifact)
    (artifact : Artifact S) (t : TemplateReceiptArtifact) (contract : S.SilContractArtifact)
    (runtime_plan : Option RuntimeStatePlanArtifact) : Type 0 where
  pub actor : ActorArtifact S.TypeArtifact
  pub actor_In : In actor artifact.argent.actors
  pub actor_name : actor.name ≡ t.actor
  pub exposed :
      source_state artifact.argent.state_expansions actor.state ≡ t.actor_type_handle.state
  pub planned : t.actor_type_handle.context_fields ≡ context_fields runtime_plan
  pub leading :
      first_names (take (length t.actor_type_handle.context_fields) (P.runtime_fields contract))
      ≡ t.actor_type_handle.context_fields
  pub state : ArgentStateArtifact S.TypeArtifact
  pub state_In : In state artifact.argent.states
  pub state_name : state.name ≡ t.actor_type_handle.state
  pub open_fields :
      SameLayout
        (drop (length t.actor_type_handle.context_fields) (P.runtime_fields contract))
        state.fields
  pub sil_prefix : Bytes
  pub sil_state : Bytes
  pub context : Bytes
  pub parts :
      P.script_parts contract ≡ some (sil_prefix, sil_state, t.actor_type_handle.template.suffix)
  pub extended : t.actor_type_handle.template.prefix ≡ sil_prefix ++ context
  pub committed :
      t.actor_type_handle.template.hash
      ≡ P.template_hash_of t.actor_type_handle.template.prefix t.actor_type_handle.template.suffix
  pub values : P.Values
  pub decoded :
      P.decode_runtime_state_script artifact.sil_abi t.actor_type_handle.state
        (take (length t.actor_type_handle.context_fields) (P.runtime_fields contract))
        context
      ≡ ok values
  pub canonical :
      P.encode_runtime_state_script artifact.sil_abi t.actor_type_handle.state
        (take (length t.actor_type_handle.context_fields) (P.runtime_fields contract))
        values
      ≡ ok context
  pub commitments :
      (runtime_state : RuntimeStatePlanArtifact) (field : RuntimeFieldRolePlanArtifact)
      → runtime_plan ≡ some runtime_state
      → In field runtime_state.field_roles
      → (expected : Bytes) × (fixed_runtime_context_value D
            (plan_lookup plan)
            runtime_state
            field.name
            field.role
          ≡ ok expected)
        × (P.bytes_of values field.name ≡ some expected)

module _ (S : SilAbi) (P : SilPlan S) (L : SilPlanLaws S P) (D : Digest)
    (plan : TemplatePlanArtifact) (artifact : Artifact S) (t : TemplateReceiptArtifact) where
  -- A handle that verifies has the state that its actor exposes; its context fields are the planned
  -- ones and come first among the runtime fields, and the layout of its state is that of the others.
  -- Its prefix is the Sil prefix followed by a context, its suffix is the Sil one, and its hash is the
  -- template hash of the two. The context decodes to values that encode to it again, and the value of
  -- each planned field is its commitment.
  pub verify_actor_type_handle-IsHandled :
      (contract_name : Text) (contract : S.SilContractArtifact)
      → verify_actor_type_handle S P D plan artifact t contract_name contract ≡ ok tt
      → IsHandled S P D plan artifact t contract
          (find (λ state. eqb state.contract contract_name) plan.runtime_states)
  unfolding verify_actor_type_handle
  verify_actor_type_handle-IsHandled contract_name contract h =
      let runtime_plan = find (λ state. eqb state.contract contract_name) plan.runtime_states in
      let fields = P.runtime_fields contract in
      let stated = bind_ok _ _ _ h in
      let split = bind_ok _ _ _ stated.2 in
      let cut = bind_ok {A = Bytes} _ _ _ split.2 in
      let read = bind_ok {A = P.Values} _ _ _ cut.2 in
      let exposed = check_handle_state-Exposed S P L D plan artifact t stated.1 in
      let layout = check_handle_fields-Split S P L D plan artifact t runtime_plan fields split.1 in
      let template = check_handle_template-Extended S P L D plan artifact t contract cut.0 cut.1 in
      let script =
        check_context_script-Canonical S P L D plan artifact t
          (take (length t.actor_type_handle.context_fields) fields) cut.0 read.0 read.1 in
      record {
        actor = exposed.0;
        actor_In = exposed.1;
        actor_name = exposed.2;
        exposed = exposed.3;
        planned = layout.0;
        leading = layout.1;
        state = layout.2.0;
        state_In = layout.2.1;
        state_name = layout.2.2;
        open_fields = layout.2.3;
        sil_prefix = template.0;
        sil_state = template.1;
        context = cut.0;
        parts = template.2;
        extended = template.3;
        committed = template.4;
        values = read.0;
        decoded = script.0;
        canonical = script.1;
        commitments = λ runtime_state field.
            check_commitments-Commits S P L D plan artifact t read.0 runtime_plan runtime_state
              field read.2;
      }
