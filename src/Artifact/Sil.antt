-- ===== src/Artifact/Sil.antt =====
-- The parts of silverscript-abi that the artifact's checks use. The crate is not part of the
-- repository: its types and functions are parameters.
use argent.Base.{ℕ, ◌≡◌, ◌↔◌, Bool, true, Option, List, Text, Bytes, Result}

pub record SilAbi : Type 1 where
  pub TypeArtifact : Type 0
  pub SilAbiArtifact : Type 0
  pub SilContractArtifact : Type 0
  pub contract : SilAbiArtifact → Text → Option SilContractArtifact
  pub bytecode : SilContractArtifact → Bytes
  pub state_offset : SilContractArtifact → ℕ
  pub state_len : SilContractArtifact → ℕ

-- What the check of the template plan reads besides. A runtime field is its name and its type; a codec
-- error is its text.
pub record SilPlan (S : SilAbi) : Type 1 where
  -- `contracts.get(name)`.
  pub contracts_get : S.SilAbiArtifact → Text → Option S.SilContractArtifact
  pub template_hash : S.SilContractArtifact → Bytes
  pub runtime_fields : S.SilContractArtifact → List (Text × S.TypeArtifact)
  pub fixed_bytes : ℕ → S.TypeArtifact
  pub type_eqb : S.TypeArtifact → S.TypeArtifact → Bool
  -- `compiled.script_parts(&compiled.bytecode)`.
  pub script_parts : S.SilContractArtifact → Option (Bytes × Bytes × Bytes)
  pub template_hash_of : (prefix suffix : Bytes) → Bytes
  pub Values : Type 0
  pub decode_runtime_state_script :
      S.SilAbiArtifact
      → (source : Text) (fields : List (Text × S.TypeArtifact)) (script : Bytes)
      → Result Values Text
  pub encode_runtime_state_script :
      S.SilAbiArtifact
      → (source : Text) (fields : List (Text × S.TypeArtifact)) (values : Values)
      → Result Bytes Text
  -- The bytes of the field, if it is there and is of bytes.
  pub bytes_of : Values → (field : Text) → Option Bytes

-- `==` of types is equality.
pub record SilPlanLaws (S : SilAbi) (P : SilPlan S) : Type 0 where
  pub type_eqb_iff : (t u : S.TypeArtifact) → (P.type_eqb t u ≡ true) ↔ (t ≡ u)
