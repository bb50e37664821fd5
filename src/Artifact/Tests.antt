-- ===== src/Artifact/Tests.antt =====
-- Runs of the artifact's checks on small artifacts, and instances of the theorems.
use argent.Base.{
  ℕ, zero, suc, ◌≡◌, refl, ◌↔◌, none, some, List, [], ◌∷◌, ◌++◌, All, Text, Bytes, bytes, length,
  ok, Done, pos,
}
use argent.Collections.Order.{bytes_ord}
use argent.Collections.BTreeMap.{get}
use argent.Collections.Slices.{Pairwise}
use argent.Artifact.Sil.{SilAbi}
use argent.Artifact.Digest.{Digest, DigestLaws}
use argent.Artifact.Schema.{Artifact, ActorArtifact}
use argent.Artifact.Schema.Entry.{
  EntryArtifact, EntryRoutePlanArtifact, leader, one, range, outputs, spawn_actor,
  spawn_output_index,
}
use argent.Artifact.Cardinality.{check_cardinality_consistency}
use argent.Artifact.Cardinality.Supported.{EntrySupported, check_cardinality_consistency_iff}
use argent.Artifact.Frames.{ActorFrame, extract_frame, verify_template_frames}
use argent.Artifact.Frames.Unambiguous.{
  Fits, HasFrame, Unambiguous, verify_template_frames-Unambiguous, extract_frame-Fits,
}
use argent.Artifact.Spawns.{verify_entry_spawns}
use argent.Artifact.Spawns.Params.{IsSpawnMetadata, verify_entry_spawns-IsSpawnMetadata}

-- A contract is its bytecode with the offset and the length of its state.
abbrev pub small_abi : SilAbi
small_abi = record {
  TypeArtifact = Done;
  SilAbiArtifact = List (Text × (Bytes × ℕ × ℕ));
  SilContractArtifact = Bytes × ℕ × ℕ;
  contract = λ abi name. get name abi;
  bytecode = λ c. c.0;
  state_offset = λ c. c.1;
  state_len = λ c. c.2;
}

abbrev no_plan : EntryRoutePlanArtifact
no_plan = record {
  active_input = none;
  leader_input = none;
  consumes = [];
  outputs = [];
  witness_recipe_ids = [];
}

abbrev pub launch : EntryArtifact Done
launch = record {
  name = bytes "launch";
  kind = leader;
  abi = record { contract = bytes "Launcher"; entry = bytes "launch" };
  route_plan = no_plan;
  hidden_params =
      record {
        recipe_id = bytes "index";
        name = bytes "coin_index";
        ty = tt;
        subject = spawn_actor (bytes "token") (bytes "coin") (bytes "Launcher");
        purpose = spawn_output_index;
        route_proof_id = none;
      }
      ∷ [];
  template_selectors = [];
  observes = [];
  spawns =
      record {
        name = bytes "token";
        covenant = bytes "cov";
        outputs =
            record {
              name = bytes "coin";
              actor = bytes "Launcher";
              state = bytes "Coin";
              group_index = 0;
              cardinality = one;
              target = none;
            }
            ∷ [];
      }
      ∷ [];
  witnesses = [];
  consumes =
      record {
        name = bytes "inputs";
        actor = bytes "Launcher";
        cardinality = range (pos 0) (pos 4);
      }
      ∷ [];
  emits = outputs (
      record {
        name = bytes "next";
        auth_index = none;
        actors = bytes "Launcher" ∷ [];
        cardinality = range (pos 1) (pos 2);
      }
      ∷ []);
  routes = [];
}

abbrev pub launcher : ActorArtifact Done
launcher = record {
  name = bytes "Launcher";
  state = bytes "Coin";
  abi = record { contract = bytes "Launcher" };
  leader_for = [];
  entries = launch ∷ [];
}

abbrev keeper : ActorArtifact Done
keeper = record {
  name = bytes "Keeper";
  state = bytes "Coin";
  abi = record { contract = bytes "Keeper" };
  leader_for = [];
  entries = [];
}

abbrev launcher_contract : Bytes × ℕ × ℕ
launcher_contract = (1 ∷ 2 ∷ 9 ∷ 9 ∷ 3 ∷ [], 2, 2)

abbrev pub small_artifact : Artifact small_abi
small_artifact = record {
  schema_version = 1;
  id = bytes "id";
  generator = record { name = bytes "argentc"; version = bytes "0" };
  app = bytes "app";
  dependencies = [];
  root = bytes "app.ag";
  modules = [];
  argent = record {
    templates = [];
    template_plan = record {
      templates = [];
      runtime_states = [];
      route_tables = [];
      route_proofs = [];
      route_families = [];
      witness_recipes = [];
    };
    interfaces = record { exports = []; imports = [] };
    states = [];
    state_expansions = [];
    actor_enums = [];
    actors = launcher ∷ keeper ∷ [];
  };
  sil_abi =
      (bytes "Keeper", (1 ∷ 4 ∷ 9 ∷ 9 ∷ 3 ∷ [], 2, 2)) ∷ (bytes "Launcher", launcher_contract) ∷ [];
}

check_cardinality_consistency_iff_example :
    (check_cardinality_consistency small_artifact ≡ ok tt)
    ↔ All (λ a. All EntrySupported a.entries) small_artifact.argent.actors
check_cardinality_consistency_iff_example = check_cardinality_consistency_iff small_artifact

frames_verify : verify_template_frames small_artifact ≡ ok tt
unfolding verify_template_frames
frames_verify = refl

verify_template_frames-Unambiguous_example :
    All (HasFrame small_abi small_artifact.sil_abi) small_artifact.argent.actors
    × Pairwise (Unambiguous small_abi small_artifact.sil_abi) small_artifact.argent.actors
verify_template_frames-Unambiguous_example =
    verify_template_frames-Unambiguous small_artifact frames_verify

abbrev launcher_frame : ActorFrame
launcher_frame = record {
  actor = bytes "Launcher";
  prefix = 1 ∷ 2 ∷ [];
  state_len = 2;
  suffix = 3 ∷ [];
  total_len = 5;
}

launcher_framed : extract_frame small_abi launcher launcher_contract ≡ ok launcher_frame
unfolding extract_frame
launcher_framed = refl

extract_frame-Fits_example :
    Fits launcher_frame ((launcher_frame.prefix ++ 7 ∷ 8 ∷ []) ++ launcher_frame.suffix)
extract_frame-Fits_example =
    extract_frame-Fits small_abi launcher launcher_contract launcher_frame (7 ∷ 8 ∷ [])
      launcher_framed refl

launch_verifies : verify_entry_spawns launch ≡ ok tt
unfolding verify_entry_spawns
launch_verifies = refl

verify_entry_spawns-IsSpawnMetadata_example : IsSpawnMetadata launch
verify_entry_spawns-IsSpawnMetadata_example =
    verify_entry_spawns-IsSpawnMetadata launch launch_verifies

abbrev pub fill : ℕ → ℕ → Bytes
fill zero b = []
fill (suc n) b = b ∷ fill n b

-- A digest of 32 equal bytes, and hex that shows bytes as they are.
abbrev pub plain_digest : Digest
plain_digest = record {
  hash = λ b. fill 32 (length b);
  hex_encode = λ b. b;
  hex_decode = λ h. some h;
}

pub plain_digest-laws : DigestLaws plain_digest
plain_digest-laws = record { length-hash = λ b. refl; decode-encode = λ b. refl }
