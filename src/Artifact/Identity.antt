-- ===== src/Artifact/Identity.antt =====
-- crates/argent-artifact/src/lib.rs: the identity of an artifact and of an
-- actor interface. The JSON of serde_json and the hash of
-- blake2b are parameters.
pub mod Sealed
pub mod Binding
use argent.Base.{
  Option, none, some, List, [], ◌∷◌, ◌++◌, Bool, true, false, not, if◌then◌else◌, Text, Bytes,
  bytes, Result, ok, err, ◌>>=◌, Done,
}
use argent.Collections.Order.{eqb, bytes_ord}
use argent.Artifact.Sil.{SilAbi}
use argent.Artifact.Schema.{Artifact}

pub data ArtifactIdentityError : Type 0 where
  missing_artifact_id : (app : Text) → ArtifactIdentityError
  artifact_id_mismatch : (app expected found : Text) → ArtifactIdentityError
  serialize : (subject : Text) → ArtifactIdentityError

-- What the fingerprint of an interface hashes. A runtime field is its name and its type.
pub record ActorInterfaceFingerprint (S : SilAbi) : Type 0 where
  pub kind : Text
  pub actor : Text
  pub state : Text
  pub runtime_fields : List (Text × S.TypeArtifact)

-- `none` of `to_vec` is a failed serialization.
pub record Hashing (S : SilAbi) : Type 0 where
  pub to_vec : Artifact S → Option Bytes
  pub to_vec_fingerprint : ActorInterfaceFingerprint S → Option Bytes
  pub blake2b : Bytes → Bytes
  pub encode_hex : Bytes → Text

abbrev pub is_empty : Text → Bool
is_empty [] = true
is_empty (c ∷ rest) = false

abbrev pub actor_interface_id : Text → Text
actor_interface_id actor = bytes "interface/actor/" ++ actor

module _ {S : SilAbi} (H : Hashing S) where
  -- The serializer is that of the type of the value.
  unfoldable pub hash_json :
      {T : Type 0} → (T → Option Bytes) → Text → T → Result Text ArtifactIdentityError
  hash_json to_vec domain value = elim (to_vec value) [
    | none ↦ err (serialize domain)
    | some json ↦ ok (H.encode_hex (H.blake2b (domain ++ json)))
  ]

  unfoldable pub computed_id_hex : Artifact S → Result Text ArtifactIdentityError
  unfolding hash_json
  computed_id_hex a =
      hash_json H.to_vec (bytes "argent/artifact/v1")
        (record a { id = []; root = []; modules = [] })

  unfoldable pub actor_interface_fingerprint_hex :
      Text → Text → List (Text × S.TypeArtifact) → Result Text ArtifactIdentityError
  unfolding hash_json
  actor_interface_fingerprint_hex actor state runtime_fields =
      hash_json H.to_vec_fingerprint (bytes "argent/interface/actor/v1") (record {
        kind = bytes "actor";
        actor = actor;
        state = state;
        runtime_fields = runtime_fields;
      })

  unfoldable pub verify_id : Artifact S → Result Done ArtifactIdentityError
  unfolding computed_id_hex
  verify_id a =
      if is_empty a.id
      then err (missing_artifact_id a.app)
      else computed_id_hex a >>= λ expected.
          if not (eqb a.id expected) then err (artifact_id_mismatch a.app expected a.id) else ok tt
