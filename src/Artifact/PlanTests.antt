-- ===== src/Artifact/PlanTests.antt =====
-- Runs of the template plan's check on a small plan, and instances of its theorems.
use argent.Base.{
  ◌-◌, ◌+◌, ◌≡◌, refl, none, some, [], ◌∷◌, take, drop, true, false, Bytes, bytes, length, find, ok,
  Done,
}
use argent.Collections.Order.{eqb, bytes_ord}
use argent.Collections.BTreeMap.{get}
use argent.Artifact.Sil.{SilPlan, SilPlanLaws}
use argent.Artifact.Schema.{Artifact}
use argent.Artifact.Schema.Entry.{EntryArtifact, constructed, spawn_actor, spawn_output_index}
use argent.Artifact.Schema.Plan.{
  TemplatePlanArtifact, TemplateReceiptArtifact, RouteTemplateTableArtifact,
  RouteTemplateProofArtifact, template, RuntimeFieldRoleArtifact,
}
use argent.Artifact.Spawns.{verify_entry_spawns}
use argent.Artifact.Merkle.{
  route_template_merkle_root_hex, route_template_merkle_layers, decode_hash_hex,
  route_template_merkle_proof, route_template_merkle_proof_root,
}
use argent.Artifact.RouteProof.{receipts_lookup, verify_route_template_proof}
use argent.Artifact.RouteProof.Leaves.{HashOf}
use argent.Artifact.RouteProof.Verified.{IsProof, roots_of, verify_route_template_proof-IsProof}
use argent.Artifact.PlanCheck.{check_consistency}
use argent.Artifact.PlanCheck.Entries.{recipe_agrees}
use argent.Artifact.PlanCheck.Handle.{verify_actor_type_handle}
use argent.Artifact.PlanCheck.Handled.{IsHandled, verify_actor_type_handle-IsHandled}
use argent.Artifact.PlanCheck.Consistent.{IsConsistent, check_consistency-IsConsistent}
use argent.Artifact.Tests.{small_abi, plain_digest, fill, launch, launcher, small_artifact}

-- The codec of a context of one field is the identity.
abbrev pub small_sil : SilPlan small_abi
small_sil = record {
  contracts_get = λ abi name. get name abi;
  template_hash = λ c. fill 32 (length c.0 - c.2);
  runtime_fields = λ c. (bytes "k", tt) ∷ (bytes "amount", tt) ∷ [];
  fixed_bytes = λ n. tt;
  type_eqb = λ t u. true;
  script_parts = λ c. some (take c.1 c.0, take c.2 (drop c.1 c.0), drop (c.1 + c.2) c.0);
  template_hash_of = λ p s. fill 32 (length p + length s);
  Values = Bytes;
  decode_runtime_state_script = λ abi source fields script. ok script;
  encode_runtime_state_script = λ abi source fields values. ok values;
  bytes_of = λ values field. some values;
}

pub small_sil-laws : SilPlanLaws small_abi small_sil
small_sil-laws = record { type_eqb_iff = λ t u. (λ h. refl, λ h. refl) }

abbrev launcher_receipt : TemplateReceiptArtifact
launcher_receipt = record {
  id = bytes "t";
  actor = bytes "Launcher";
  contract = bytes "Launcher";
  symbol = bytes "L";
  sil_template_hash = fill 32 3;
  actor_type_handle = record {
    state = bytes "Coin";
    context_fields = bytes "k" ∷ [];
    template = record { prefix = 1 ∷ 2 ∷ fill 32 3; suffix = 3 ∷ []; hash = fill 32 35 };
  };
}

abbrev launcher_table : RouteTemplateTableArtifact
launcher_table = record {
  id = bytes "route_table/Coin/k";
  state = bytes "Coin";
  field = bytes "k";
  byte_len = 32;
  entries = record { index = 0; offset = 0; leaf = template (bytes "Launcher") (bytes "t") } ∷ [];
}

abbrev launcher_proof : RouteTemplateProofArtifact
launcher_proof = record {
  id = bytes "route_proof/Coin/k";
  table_id = bytes "route_table/Coin/k";
  state = bytes "Coin";
  field = bytes "k";
  root_hex = fill 32 3;
  leaves =
      record {
        index = 0;
        leaf = template (bytes "Launcher") (bytes "t");
        hash_hex = fill 32 3;
        proof = [];
      }
      ∷ [];
}

abbrev launcher_plan : TemplatePlanArtifact
launcher_plan = record {
  templates = launcher_receipt ∷ [];
  runtime_states =
      record {
        contract = bytes "Launcher";
        source = bytes "Coin";
        field_roles =
            record {
              name = bytes "k";
              role = RuntimeFieldRoleArtifact.template_table (bytes "Launcher" ∷ []);
            }
            ∷ [];
      }
      ∷ [];
  route_tables = launcher_table ∷ [];
  route_proofs = launcher_proof ∷ [];
  route_families = [];
  witness_recipes =
      record {
        id = bytes "index";
        template_id = none;
        subject = spawn_actor (bytes "token") (bytes "coin") (bytes "Launcher");
        param = bytes "coin_index";
        purpose = spawn_output_index;
        route_proof_id = none;
      }
      ∷ [];
}

abbrev routed_launch : EntryArtifact Done
routed_launch = record launch {
  route_plan = record (launch.route_plan) { witness_recipe_ids = bytes "index" ∷ [] };
  routes =
      record {
        output = bytes "next";
        successor = constructed (bytes "Launcher") (bytes "t") (bytes "state");
      }
      ∷ [];
}

abbrev pub planned_artifact : Artifact small_abi
planned_artifact = record small_artifact {
  argent = record (small_artifact.argent) {
    templates = record { id = bytes "t"; actor = bytes "Launcher"; symbol = bytes "L" } ∷ [];
    template_plan = launcher_plan;
    states =
        record {
          name = bytes "Coin";
          fields =
              record { name = bytes "amount"; ty = tt; source_type = none; virtual_slot = false }
              ∷ [];
        }
        ∷ [];
    actors = record launcher { entries = routed_launch ∷ [] } ∷ [];
  };
}

planned_checks :
    check_consistency small_abi small_sil plain_digest launcher_plan planned_artifact ≡ ok tt
unfolding check_consistency recipe_agrees route_template_merkle_root_hex
    route_template_merkle_layers decode_hash_hex route_template_merkle_proof
    route_template_merkle_proof_root verify_entry_spawns
planned_checks = refl

check_consistency-IsConsistent_example :
    IsConsistent small_abi small_sil plain_digest launcher_plan planned_artifact
check_consistency-IsConsistent_example =
    check_consistency-IsConsistent small_abi small_sil small_sil-laws plain_digest launcher_plan
      planned_artifact planned_checks

launcher_verifies :
    verify_actor_type_handle small_abi small_sil plain_digest launcher_plan planned_artifact
      launcher_receipt
      (bytes "Launcher")
      (1 ∷ 2 ∷ 9 ∷ 9 ∷ 3 ∷ [], 2, 2)
    ≡ ok tt
unfolding verify_actor_type_handle
launcher_verifies = refl

verify_actor_type_handle-IsHandled_example :
    IsHandled small_abi small_sil plain_digest launcher_plan planned_artifact launcher_receipt
      (1 ∷ 2 ∷ 9 ∷ 9 ∷ 3 ∷ [], 2, 2)
      (find (λ state. eqb state.contract (bytes "Launcher")) launcher_plan.runtime_states)
verify_actor_type_handle-IsHandled_example =
    verify_actor_type_handle-IsHandled small_abi small_sil small_sil-laws plain_digest launcher_plan
      planned_artifact launcher_receipt (bytes "Launcher") (1 ∷ 2 ∷ 9 ∷ 9 ∷ 3 ∷ [], 2, 2)
      launcher_verifies

launcher_proof-verifies :
    verify_route_template_proof plain_digest
      (receipts_lookup (launcher_receipt ∷ []))
      launcher_proof
      launcher_table
      ((launcher_proof.id, launcher_proof) ∷ [])
    ≡ ok tt
unfolding verify_route_template_proof route_template_merkle_root_hex route_template_merkle_layers
    decode_hash_hex route_template_merkle_proof route_template_merkle_proof_root
launcher_proof-verifies = refl

verify_route_template_proof-IsProof_example :
    IsProof plain_digest
      (HashOf plain_digest
        (receipts_lookup (launcher_receipt ∷ []))
        (roots_of ((launcher_proof.id, launcher_proof) ∷ [])))
      launcher_proof
      launcher_table
verify_route_template_proof-IsProof_example =
    verify_route_template_proof-IsProof plain_digest (receipts_lookup (launcher_receipt ∷ []))
      launcher_proof launcher_table ((launcher_proof.id, launcher_proof) ∷ [])
      launcher_proof-verifies
