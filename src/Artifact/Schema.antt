-- ===== src/Artifact/Schema.antt =====
-- crates/argent-artifact/src/lib.rs: the records of an artifact, over the parts of silverscript-abi
-- that it holds.
pub mod Entry
pub mod Plan
use argent.Base.{ℕ, Bool, Option, List, Text}
use argent.Artifact.Sil.{SilAbi}
use Entry.{EntryArtifact}
use Plan.{TemplatePlanArtifact}

pub record GeneratorArtifact : Type 0 where
  pub name : Text
  pub version : Text

pub record AppDependencyArtifact : Type 0 where
  pub app : Text
  pub artifact_id : Text

pub record TemplateRefArtifact : Type 0 where
  pub id : Text
  pub actor : Text
  pub symbol : Text

pub record ActorEnumArtifact : Type 0 where
  pub name : Text
  pub state : Text
  pub variants : List Text

pub record ActorInterfaceArtifact : Type 0 where
  pub id : Text
  pub app : Text
  pub actor : Text
  pub state : Text
  pub fingerprint_hex : Text

pub record InterfaceSetArtifact : Type 0 where
  pub exports : List ActorInterfaceArtifact
  pub imports : List ActorInterfaceArtifact

pub record StateDigestExpansionArtifact : Type 0 where
  pub field : Text
  pub state : Text

pub record StateExpansionArtifact : Type 0 where
  pub state : Text
  pub base : Text
  pub digests : List StateDigestExpansionArtifact

pub data SourceArrayArtifact : Type 0 where
  dynamic : SourceArrayArtifact
  fixed : ℕ → SourceArrayArtifact

pub record SourceTypeArtifact : Type 0 where
  pub name : Text
  pub array : Option SourceArrayArtifact
  pub actor_state : Option Text

pub record ArgentFieldArtifact (T : Type 0) : Type 0 where
  pub name : Text
  pub ty : T
  pub source_type : Option SourceTypeArtifact
  pub virtual_slot : Bool

pub record ArgentStateArtifact (T : Type 0) : Type 0 where
  pub name : Text
  pub fields : List (ArgentFieldArtifact T)

pub record ActorAbiRefArtifact : Type 0 where
  pub contract : Text

pub record EntryRefArtifact : Type 0 where
  pub actor : Text
  pub entry : Text

pub record ActorArtifact (T : Type 0) : Type 0 where
  pub name : Text
  pub state : Text
  pub abi : ActorAbiRefArtifact
  pub leader_for : List EntryRefArtifact
  pub entries : List (EntryArtifact T)

pub record ArgentArtifact (T : Type 0) : Type 0 where
  pub templates : List TemplateRefArtifact
  pub template_plan : TemplatePlanArtifact
  pub interfaces : InterfaceSetArtifact
  pub states : List (ArgentStateArtifact T)
  pub state_expansions : List StateExpansionArtifact
  pub actor_enums : List ActorEnumArtifact
  pub actors : List (ActorArtifact T)

pub record Artifact (S : SilAbi) : Type 0 where
  pub schema_version : ℕ
  pub id : Text
  pub generator : GeneratorArtifact
  pub app : Text
  pub dependencies : List AppDependencyArtifact
  pub root : Text
  pub modules : List Text
  pub argent : ArgentArtifact S.TypeArtifact
  pub sil_abi : S.SilAbiArtifact
