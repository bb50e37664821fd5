-- ===== src/Artifact/Check/Verified.antt =====
-- `Artifact::check_consistency`: what a check that succeeds ensures of the artifact.
use argent.Base.{◌≡◌, ◌≢◌, ◌==◌, ==_iff, true, [], All, arith, Result, ok, err, bind_ok}
use argent.Collections.Slices.{Pairwise}
use argent.Artifact.Sil.{SilAbi, SilPlan, SilPlanLaws}
use argent.Artifact.Digest.{Digest}
use argent.Artifact.Schema.{Artifact}
use argent.Artifact.Cardinality.Supported.{EntrySupported, check_cardinality_consistency_iff}
use argent.Artifact.Frames.Unambiguous.{HasFrame, Unambiguous, verify_template_frames-Unambiguous}
use argent.Artifact.Identity.{Hashing, computed_id_hex}
use argent.Artifact.Identity.Sealed.{verify_id_iff}
use argent.Artifact.PlanCheck.Consistent.{IsConsistent, check_consistency-IsConsistent}
use argent.Artifact.Check.{
  SilChecks, lift, artifact_schema_version, check_schema_version, check_template_plan_consistency,
  check_artifact,
}

pub record IsVerified (S : SilAbi) (P : SilPlan S) (C : SilChecks S) (D : Digest) (H : Hashing S)
    (artifact : Artifact S) : Type 0 where
  pub supported : artifact.schema_version ≡ artifact_schema_version
  pub sil_supported : C.check_schema_version artifact.sil_abi ≡ ok tt
  pub sil_consistent : C.check_consistency artifact.sil_abi ≡ ok tt
  pub framed : All (HasFrame S artifact.sil_abi) artifact.argent.actors
  pub unambiguous : Pairwise (Unambiguous S artifact.sil_abi) artifact.argent.actors
  pub planned : IsConsistent S P D artifact.argent.template_plan artifact
  pub bounded : All (λ actor. All EntrySupported actor.entries) artifact.argent.actors
  pub named : artifact.id ≢ []
  pub identified : computed_id_hex H artifact ≡ ok artifact.id

lift_ok : {A E F : Type 0} (f : E → F) (r : Result A E) (a : A) → lift f r ≡ ok a → r ≡ ok a
lift_ok f (ok b) a h = cc
lift_ok f (err e) a h = cc

module _ (S : SilAbi) (P : SilPlan S) (L : SilPlanLaws S P) (C : SilChecks S) (D : Digest)
    (H : Hashing S) (artifact : Artifact S) where
  check_schema_version-supported :
      check_schema_version S P C D H artifact ≡ ok tt
      → (artifact.schema_version ≡ artifact_schema_version)
        × (C.check_schema_version artifact.sil_abi ≡ ok tt)
  unfolding check_schema_version
  check_schema_version-supported h =
      let same : artifact.schema_version == artifact_schema_version ≡ true = ground arith in
      ((==_iff artifact.schema_version artifact_schema_version).0 same, rw same at h)

  check_template_plan-IsConsistent :
      check_template_plan_consistency S P C D H artifact ≡ ok tt
      → IsConsistent S P D artifact.argent.template_plan artifact
  unfolding check_template_plan_consistency
  check_template_plan-IsConsistent =
      check_consistency-IsConsistent S P L D artifact.argent.template_plan artifact

  -- An artifact that passes the whole check has the supported schema versions and a consistent Sil
  -- ABI. Every actor has a frame and no script fits the frames of two actors; its template plan is
  -- consistent with it; every entry has supported cardinalities; and its id is the computed one.
  pub check_artifact-IsVerified :
      check_artifact S P C D H artifact ≡ ok tt → IsVerified S P C D H artifact
  unfolding check_artifact
  check_artifact-IsVerified h =
      let versions = bind_ok _ _ tt h in
      let sil = bind_ok _ _ tt versions.2 in
      let frames = bind_ok _ _ tt sil.2 in
      let plan = bind_ok _ _ tt frames.2 in
      let ranges = bind_ok _ _ tt plan.2 in
      let (supported', sil_supported') =
        check_schema_version-supported (lift_ok _ _ tt versions.1) in
      let (framed', unambiguous') =
        verify_template_frames-Unambiguous artifact (lift_ok _ _ tt frames.1) in
      let (named', identified') = (verify_id_iff H artifact).0 (lift_ok _ _ tt ranges.2) in
      record {
        supported = supported';
        sil_supported = sil_supported';
        sil_consistent = lift_ok _ _ tt sil.1;
        framed = framed';
        unambiguous = unambiguous';
        planned = check_template_plan-IsConsistent (lift_ok _ _ tt plan.1);
        bounded = (check_cardinality_consistency_iff artifact).0 (lift_ok _ _ tt ranges.1);
        named = named';
        identified = identified';
      }
