-- ===== src/Artifact/Check.antt =====
-- crates/argent-artifact/src/lib.rs, `Artifact::check_consistency`: the checks of an artifact in their
-- order.
pub mod Verified
use argent.Base.{
  ℕ, ◌==◌, not, Bool, true, false, if◌then◌else◌, Text, bytes, Result, ok, err, ◌>>=◌, Done,
}
use argent.Artifact.Sil.{SilAbi, SilPlan}
use argent.Artifact.Digest.{Digest}
use argent.Artifact.Schema.{Artifact}
use argent.Artifact.Cardinality.{ArtifactCardinalityError, check_cardinality_consistency}
use argent.Artifact.Frames.{TemplateFrameVerificationError, verify_template_frames}
use argent.Artifact.Identity.{ArtifactIdentityError, Hashing, verify_id}
use argent.Artifact.PlanCheck
use argent.Artifact.RouteProof.{Failure}

pub record ArtifactVersionError : Type 0 where
  pub artifact : Text
  pub supported : ℕ
  pub found : ℕ

-- The checks that silverscript-abi makes of its own artifact, and their error.
pub record SilChecks (S : SilAbi) : Type 1 where
  pub SilAbiVerificationError : Type 0
  pub check_schema_version : S.SilAbiArtifact → Result Done ArtifactVersionError
  pub check_consistency : S.SilAbiArtifact → Result Done SilAbiVerificationError

-- A panic of the plan's check is one of its failures.
pub data ArtifactVerificationError (SilError : Type 0) : Type 0 where
  version : ArtifactVersionError → ArtifactVerificationError SilError
  cardinality : ArtifactCardinalityError → ArtifactVerificationError SilError
  sil_abi : SilError → ArtifactVerificationError SilError
  template_frames : TemplateFrameVerificationError → ArtifactVerificationError SilError
  template_plan : Failure → ArtifactVerificationError SilError
  identity : ArtifactIdentityError → ArtifactVerificationError SilError

-- The conversion of an error by `?`.
abbrev pub lift : {A E F : Type 0} → (E → F) → Result A E → Result A F
lift f (ok a) = ok a
lift f (err e) = err (f e)

abbrev pub artifact_schema_version : ℕ
artifact_schema_version = 1

module _ (S : SilAbi) (P : SilPlan S) (C : SilChecks S) (D : Digest) (H : Hashing S) where
  unfoldable pub check_schema_version : Artifact S → Result Done ArtifactVersionError
  check_schema_version artifact =
      if not (artifact.schema_version == artifact_schema_version)
      then err (record {
        artifact = bytes "Argent artifact";
        supported = artifact_schema_version;
        found = artifact.schema_version;
      })
      else C.check_schema_version artifact.sil_abi

  unfoldable pub check_template_plan_consistency : Artifact S → Result Done Failure
  unfolding PlanCheck.check_consistency
  check_template_plan_consistency artifact =
      PlanCheck.check_consistency S P D artifact.argent.template_plan artifact

  unfoldable pub check_artifact :
      Artifact S → Result Done (ArtifactVerificationError C.SilAbiVerificationError)
  unfolding check_schema_version verify_template_frames check_template_plan_consistency
      check_cardinality_consistency verify_id
  check_artifact artifact = lift version (check_schema_version artifact) >>= λ u.
      lift sil_abi (C.check_consistency artifact.sil_abi) >>= λ v.
      lift template_frames (verify_template_frames artifact) >>= λ w.
      lift template_plan (check_template_plan_consistency artifact) >>= λ x.
      lift cardinality (check_cardinality_consistency artifact) >>= λ y.
      lift identity (verify_id H artifact)
