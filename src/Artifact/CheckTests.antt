-- ===== src/Artifact/CheckTests.antt =====
-- A run of the whole check on a small artifact, and an instance of its theorem.
use argent.Base.{◌≡◌, refl, Text, ok}
use argent.Artifact.Schema.{Artifact}
use argent.Artifact.Check.{SilChecks, check_artifact}
use argent.Artifact.Check.Verified.{IsVerified, check_artifact-IsVerified}
use argent.Artifact.PlanCheck.Entries.{recipe_agrees}
use argent.Artifact.Spawns.{verify_entry_spawns}
use argent.Artifact.Merkle.{
  route_template_merkle_root_hex, route_template_merkle_layers, decode_hash_hex,
  route_template_merkle_proof, route_template_merkle_proof_root,
}
use argent.Artifact.Tests.{small_abi, plain_digest}
use argent.Artifact.ProofTests.{app_hashing, app_id}
use argent.Artifact.PlanTests.{small_sil, small_sil-laws, planned_artifact}

-- The embedded Sil artifact passes its own checks.
abbrev sil_passes : SilChecks small_abi
sil_passes = record {
  SilAbiVerificationError = Text;
  check_schema_version = λ abi. ok tt;
  check_consistency = λ abi. ok tt;
}

abbrev identified_artifact : Artifact small_abi
identified_artifact = record planned_artifact { id = app_id }

identified_checks :
    check_artifact small_abi small_sil sil_passes plain_digest app_hashing identified_artifact
    ≡ ok tt
unfolding check_artifact recipe_agrees route_template_merkle_root_hex route_template_merkle_layers
    decode_hash_hex route_template_merkle_proof route_template_merkle_proof_root verify_entry_spawns
identified_checks = refl

check_artifact-IsVerified_example :
    IsVerified small_abi small_sil sil_passes plain_digest app_hashing identified_artifact
check_artifact-IsVerified_example =
    check_artifact-IsVerified small_abi small_sil small_sil-laws sil_passes plain_digest app_hashing
      identified_artifact identified_checks
