-- ===== src/Artifact/Schema/Plan.antt =====
-- crates/argent-artifact/src/lib.rs: the template plan of an artifact. A [u8; 32] is the list of its
-- bytes.
use argent.Base.{ℕ, Option, List, Text, Bytes}
use argent.Artifact.Schema.Entry.{HiddenParamSubjectArtifact, HiddenParamPurposeArtifact}

pub record ActorTemplateArtifact : Type 0 where
  pub prefix : Bytes
  pub suffix : Bytes
  pub hash : Bytes

pub record ActorTypeHandleArtifact : Type 0 where
  pub state : Text
  pub context_fields : List Text
  pub template : ActorTemplateArtifact

pub record TemplateReceiptArtifact : Type 0 where
  pub id : Text
  pub actor : Text
  pub contract : Text
  pub symbol : Text
  pub sil_template_hash : Bytes
  pub actor_type_handle : ActorTypeHandleArtifact

pub data RuntimeRouteLeafArtifact : Type 0 where
  contract : (contract : Text) → RuntimeRouteLeafArtifact
  digest : (id : Text) → RuntimeRouteLeafArtifact

pub data RuntimeFieldRoleArtifact : Type 0 where
  template : (contract : Text) → RuntimeFieldRoleArtifact
  template_table : (contracts : List Text) → RuntimeFieldRoleArtifact
  template_digest : (id : Text) → RuntimeFieldRoleArtifact
  template_root : (leaves : List RuntimeRouteLeafArtifact) → RuntimeFieldRoleArtifact

pub record RuntimeFieldRolePlanArtifact : Type 0 where
  pub name : Text
  pub role : RuntimeFieldRoleArtifact

pub record RuntimeStatePlanArtifact : Type 0 where
  pub contract : Text
  pub source : Text
  pub field_roles : List RuntimeFieldRolePlanArtifact

pub data RouteTemplateLeafArtifact : Type 0 where
  template : (actor template_id : Text) → RouteTemplateLeafArtifact
  route_family : (family_id proof_id : Text) → RouteTemplateLeafArtifact

pub record RouteTemplateTableEntryArtifact : Type 0 where
  pub index : ℕ
  pub offset : ℕ
  pub leaf : RouteTemplateLeafArtifact

pub record RouteTemplateTableArtifact : Type 0 where
  pub id : Text
  pub state : Text
  pub field : Text
  pub byte_len : ℕ
  pub entries : List RouteTemplateTableEntryArtifact

pub data RouteTemplateProofSideArtifact : Type 0 where
  left : RouteTemplateProofSideArtifact
  right : RouteTemplateProofSideArtifact

pub record RouteTemplateProofStepArtifact : Type 0 where
  pub side : RouteTemplateProofSideArtifact
  pub hash_hex : Text

pub record RouteTemplateProofLeafArtifact : Type 0 where
  pub index : ℕ
  pub leaf : RouteTemplateLeafArtifact
  pub hash_hex : Text
  pub proof : List RouteTemplateProofStepArtifact

pub record RouteTemplateProofArtifact : Type 0 where
  pub id : Text
  pub table_id : Text
  pub state : Text
  pub field : Text
  pub root_hex : Text
  pub leaves : List RouteTemplateProofLeafArtifact

pub record RouteTemplateFamilyArtifact : Type 0 where
  pub id : Text
  pub state : Text
  pub representative_actor : Text
  pub entry_actors : List Text
  pub table_id : Text
  pub actors : List Text

pub record WitnessRecipeArtifact : Type 0 where
  pub id : Text
  pub template_id : Option Text
  pub subject : HiddenParamSubjectArtifact
  pub param : Text
  pub purpose : HiddenParamPurposeArtifact
  pub route_proof_id : Option Text

pub record TemplatePlanArtifact : Type 0 where
  pub templates : List TemplateReceiptArtifact
  pub runtime_states : List RuntimeStatePlanArtifact
  pub route_tables : List RouteTemplateTableArtifact
  pub route_proofs : List RouteTemplateProofArtifact
  pub route_families : List RouteTemplateFamilyArtifact
  pub witness_recipes : List WitnessRecipeArtifact
