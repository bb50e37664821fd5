-- ===== src/Artifact/Schema/Entry.antt =====
-- crates/argent-artifact/src/lib.rs: what an artifact records of an entry. `T` stands for the
-- TypeArtifact of silverscript-abi.
use argent.Base.{ℕ, ℤ, Option, List, Text}

pub data ActorTargetArtifact : Type 0 where
  static_actor : (app actor : Text) → ActorTargetArtifact
  dynamic_actor : (state : Text) → ActorTargetArtifact

pub data ObservedActorSideArtifact : Type 0 where
  input : ObservedActorSideArtifact
  output : ObservedActorSideArtifact

pub data HiddenParamSubjectArtifact : Type 0 where
  actor : (actor : Text) → HiddenParamSubjectArtifact
  observed_actor :
      (observe : Text) (side : ObservedActorSideArtifact) (handle actor : Text)
      → HiddenParamSubjectArtifact
  spawn_actor : (spawn handle actor : Text) → HiddenParamSubjectArtifact
  observed_output_field : (observe handle state field : Text) → HiddenParamSubjectArtifact
  route_family : (family_id : Text) → HiddenParamSubjectArtifact
  template_selector : (selector : Text) → HiddenParamSubjectArtifact
  state_expansion : (state field memory_state : Text) → HiddenParamSubjectArtifact

pub data HiddenParamPurposeArtifact : Type 0 where
  spawn_output_index : HiddenParamPurposeArtifact
  template_prefix_bytes : HiddenParamPurposeArtifact
  template_suffix_bytes : HiddenParamPurposeArtifact
  template_prefix_len : HiddenParamPurposeArtifact
  template_suffix_len : HiddenParamPurposeArtifact
  template_hash : HiddenParamPurposeArtifact
  route_template_leaf : HiddenParamPurposeArtifact
  route_template_proof : HiddenParamPurposeArtifact
  route_family_table : HiddenParamPurposeArtifact
  route_family_proof : HiddenParamPurposeArtifact
  state_expansion_preimage : HiddenParamPurposeArtifact
  observed_output_field_value : HiddenParamPurposeArtifact

pub data EntryKindArtifact : Type 0 where
  leader : EntryKindArtifact
  delegate : EntryKindArtifact

pub data CardinalityArtifact : Type 0 where
  one : CardinalityArtifact
  range : (minimum maximum : ℤ) → CardinalityArtifact

pub record WitnessArtifact : Type 0 where
  pub recipe_id : Text
  pub param : Text
  pub subject : HiddenParamSubjectArtifact
  pub purpose : HiddenParamPurposeArtifact
  pub route_proof_id : Option Text

pub record HiddenParamArtifact (T : Type 0) : Type 0 where
  pub recipe_id : Text
  pub name : Text
  pub ty : T
  pub subject : HiddenParamSubjectArtifact
  pub purpose : HiddenParamPurposeArtifact
  pub route_proof_id : Option Text

pub record ConsumeArtifact : Type 0 where
  pub name : Text
  pub actor : Text
  pub cardinality : CardinalityArtifact

pub record EmitOutputArtifact : Type 0 where
  pub name : Text
  pub auth_index : Option ℕ
  pub actors : List Text
  pub cardinality : CardinalityArtifact

pub data EmitArtifact : Type 0 where
  none : EmitArtifact
  outputs : List EmitOutputArtifact → EmitArtifact

pub record SpawnOutputArtifact : Type 0 where
  pub name : Text
  pub actor : Text
  pub state : Text
  pub group_index : ℕ
  pub cardinality : CardinalityArtifact
  pub target : Option ActorTargetArtifact

pub record SpawnArtifact : Type 0 where
  pub name : Text
  pub covenant : Text
  pub outputs : List SpawnOutputArtifact

pub record TemplateSelectorArtifact : Type 0 where
  pub name : Text
  pub actor_enum : Text
  pub state : Text
  pub variants : List Text
  pub fixed_actor : Option Text

pub data CovenantIdSourceArtifact : Type 0 where
  state_field : (field : Text) → CovenantIdSourceArtifact
  entry_argument : (index : ℕ) → CovenantIdSourceArtifact

pub record ObservedActorArtifact : Type 0 where
  pub name : Text
  pub target : ActorTargetArtifact
  pub cardinality : CardinalityArtifact

pub record ObserveArtifact : Type 0 where
  pub name : Text
  pub covenant_expr : Text
  pub covenant_id_source : CovenantIdSourceArtifact
  pub inputs : List ObservedActorArtifact
  pub outputs : List ObservedActorArtifact

pub record RouteInputArtifact : Type 0 where
  pub name : Text
  pub actor : Text
  pub cov_index : Option ℕ

pub record RouteOutputHandleArtifact : Type 0 where
  pub name : Text
  pub auth_index : Option ℕ
  pub actors : List Text

pub record EntryRoutePlanArtifact : Type 0 where
  pub active_input : Option RouteInputArtifact
  pub leader_input : Option RouteInputArtifact
  pub consumes : List RouteInputArtifact
  pub outputs : List RouteOutputHandleArtifact
  pub witness_recipe_ids : List Text

pub data RouteSuccessorArtifact : Type 0 where
  exact_self : RouteSuccessorArtifact
  constructed : (actor template_id state_expr : Text) → RouteSuccessorArtifact

pub record RouteArtifact : Type 0 where
  pub output : Text
  pub successor : RouteSuccessorArtifact

pub record EntryAbiRefArtifact : Type 0 where
  pub contract : Text
  pub entry : Text

pub record EntryArtifact (T : Type 0) : Type 0 where
  pub name : Text
  pub kind : EntryKindArtifact
  pub abi : EntryAbiRefArtifact
  pub route_plan : EntryRoutePlanArtifact
  pub hidden_params : List (HiddenParamArtifact T)
  pub template_selectors : List TemplateSelectorArtifact
  pub observes : List ObserveArtifact
  pub spawns : List SpawnArtifact
  pub witnesses : List WitnessArtifact
  pub consumes : List ConsumeArtifact
  pub emits : EmitArtifact
  pub routes : List RouteArtifact
