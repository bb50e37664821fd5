-- ===== src/Artifact/ProofTests.antt =====
-- Runs of the proofs of route tables and of the identity of an artifact, and instances of their theorems.
use argent.Base.{
  ℕ, ◌≡◌, refl, ◌↔◌, some, List, [], ◌∷◌, Text, Bytes, bytes, ok, ◌⊎◌, inl, inr, err, Bool-cases,
  arith, ◌≢◌,
}
use argent.Collections.Order.{bytes_ord, eqb}
use argent.Artifact.Schema.{Artifact}
use argent.Artifact.Schema.Plan.{
  RouteTemplateProofStepArtifact, TemplateReceiptArtifact, RouteTemplateTableArtifact,
  RouteTemplateProofArtifact, template,
}
use argent.Artifact.Merkle.{
  route_template_merkle_proof, route_template_merkle_layers, route_template_merkle_root_hex,
  route_template_merkle_proof_root,
}
use argent.Artifact.PlanError.{TemplatePlanError}
use argent.Artifact.RouteProof.{
  TemplateHashLookup, receipts_lookup, raised, route_template_proof_from_table,
  verify_route_template_proof,
}
use argent.Artifact.RouteProof.Leaves.{IsFirstFailure}
use argent.Artifact.RouteProof.Generated.{Hashes32, proof_from_table-verify}
use argent.Artifact.Identity.Binding.{
  Collision, portable_json, verify_id_binding, actor_interface_fingerprint_hex_apart,
}
use argent.Artifact.Identity.{actor_interface_fingerprint_hex, Hashing, computed_id_hex, verify_id}
use argent.Artifact.Identity.Sealed.{verify_id_iff, verify_id-sealed}
use argent.Artifact.Merkle.Rooted.{merkle_proof-resolves_to_root}
use argent.Artifact.Tests.{small_abi, small_artifact, fill, plain_digest, plain_digest-laws}

abbrev three_leaves : List Bytes
three_leaves = fill 32 1 ∷ fill 32 2 ∷ fill 32 3 ∷ []

merkle_proof-resolves_to_root_example :
    (steps : List RouteTemplateProofStepArtifact) × (root : Bytes) × (route_template_merkle_proof
        plain_digest
        (route_template_merkle_layers plain_digest three_leaves)
        2
      ≡ some steps)
    × (route_template_merkle_proof_root plain_digest (bytes "p") (fill 32 3) steps ≡ ok root)
    × (route_template_merkle_root_hex plain_digest
          (route_template_merkle_layers plain_digest three_leaves)
        ≡ root)
merkle_proof-resolves_to_root_example =
    merkle_proof-resolves_to_root plain_digest plain_digest-laws (bytes "p") three_leaves 2
      (fill 32 3) (refl, (refl, (refl, tt))) refl

abbrev receipt_of : Text → ℕ → TemplateReceiptArtifact
receipt_of name b = record {
  id = name;
  actor = name;
  contract = name;
  symbol = name;
  sil_template_hash = fill 32 b;
  actor_type_handle = record {
    state = bytes "Coin";
    context_fields = [];
    template = record { prefix = []; suffix = []; hash = fill 32 b };
  };
}

abbrev small_lookup : TemplateHashLookup
small_lookup = receipts_lookup (receipt_of (bytes "a") 1 ∷ receipt_of (bytes "b") 2 ∷ [])

small_lookup-Hashes32 : Hashes32 small_lookup
small_lookup-Hashes32 id t h = elim (Bool-cases (eqb (bytes "a") id)) [
  | inl e ↦ ground arith
  | inr e ↦ elim (Bool-cases (eqb (bytes "b") id)) [ inl e' ↦ ground arith | inr e' ↦ ground arith ]
]

abbrev small_table : RouteTemplateTableArtifact
small_table = record {
  id = bytes "t";
  state = bytes "Coin";
  field = bytes "f";
  byte_len = 64;
  entries =
      record { index = 0; offset = 0; leaf = template (bytes "a") (bytes "a") }
      ∷ record { index = 1; offset = 32; leaf = template (bytes "b") (bytes "b") }
      ∷ [];
}

proof_from_table-verify_example :
    ((x : TemplatePlanError) × (route_template_proof_from_table plain_digest small_lookup
          small_table []
        ≡ err (raised x))
      × IsFirstFailure plain_digest small_lookup small_table.id [] small_table.entries x)
    ⊎ ((proof : RouteTemplateProofArtifact) × (route_template_proof_from_table plain_digest
            small_lookup small_table []
          ≡ ok proof)
        × (verify_route_template_proof plain_digest small_lookup proof small_table [] ≡ ok tt))
proof_from_table-verify_example =
    proof_from_table-verify plain_digest plain_digest-laws small_lookup small_lookup-Hashes32
      small_table [] (refl, (refl, tt))

-- The document is the app's name.
abbrev pub app_hashing : Hashing small_abi
app_hashing = record {
  to_vec = λ a. some a.app;
  to_vec_fingerprint = λ f. some f.actor;
  blake2b = λ b. b;
  encode_hex = λ b. b;
}

abbrev pub app_id : Text
app_id = bytes "argent/artifact/v1app"

small_computed : computed_id_hex app_hashing small_artifact ≡ ok app_id
unfolding computed_id_hex
small_computed = refl

verify_id_iff_example : (verify_id app_hashing small_artifact ≡ ok tt) ↔ (
    (small_artifact.id ≢ []) × (computed_id_hex app_hashing small_artifact ≡ ok small_artifact.id))
verify_id_iff_example = verify_id_iff app_hashing small_artifact

app_id_inhabited : app_id ≢ []
app_id_inhabited = λ e. cc

verify_id-sealed_example :
    verify_id app_hashing
      (record small_artifact { id = app_id; root = bytes "elsewhere"; modules = bytes "m" ∷ [] })
    ≡ ok tt
verify_id-sealed_example =
    verify_id-sealed app_hashing small_artifact app_id (bytes "elsewhere") (bytes "m" ∷ [])
      small_computed app_id_inhabited

-- The same artifact, built in another place.
abbrev moved_artifact : Artifact small_abi
moved_artifact = record small_artifact {
  id = app_id;
  root = bytes "elsewhere";
  modules = bytes "m" ∷ [];
}

verify_id_binding_example :
    (portable_json app_hashing (record small_artifact { id = app_id })
      ≡ portable_json app_hashing moved_artifact)
    ⊎ Collision app_hashing
verify_id_binding_example =
    verify_id_binding app_hashing (record small_artifact { id = app_id }) moved_artifact
      (verify_id-sealed app_hashing small_artifact app_id small_artifact.root small_artifact.modules
        small_computed app_id_inhabited)
      (verify_id-sealed app_hashing small_artifact app_id (bytes "elsewhere") (bytes "m" ∷ [])
        small_computed app_id_inhabited)
      refl

-- A hash that keeps nothing of its input.
abbrev constant_hashing : Hashing small_abi
constant_hashing = record app_hashing { blake2b = λ b. [] }

constant_computed : computed_id_hex constant_hashing small_artifact ≡ ok []
unfolding computed_id_hex
constant_computed = refl

constant_fingerprint :
    actor_interface_fingerprint_hex constant_hashing (bytes "Launcher") (bytes "Coin") [] ≡ ok []
unfolding actor_interface_fingerprint_hex
constant_fingerprint = refl

actor_interface_fingerprint_hex_apart_example : Collision constant_hashing
actor_interface_fingerprint_hex_apart_example =
    actor_interface_fingerprint_hex_apart constant_hashing small_artifact (bytes "Launcher")
      (bytes "Coin") [] [] constant_computed constant_fingerprint
