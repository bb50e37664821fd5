-- ===== src/Artifact/Identity/Binding.antt =====
-- crates/argent-artifact/src/lib.rs: an id and a fingerprint stand for one value, unless the hash
-- collides.
use argent.Base.{
  ◌≡◌, ◌≢◌, sym, ap, ◌∙◌, ◌⊎◌, inl, inr, Option, some, List, [], ◌∷◌, ◌++◌, arith, Text, Bytes,
  bytes, ok, get_elem?, Bool-cases, Option-cases,
}
use argent.Collections.Order.{eqb, eqb_iff, bytes_ord}
use argent.Artifact.Sil.{SilAbi}
use argent.Artifact.Schema.{Artifact}
use argent.Artifact.Identity.{
  Hashing, hash_json, computed_id_hex, actor_interface_fingerprint_hex, verify_id,
}
use argent.Artifact.Identity.Sealed.{verify_id_iff}

append-cancel : (p x y : Bytes) → p ++ x ≡ p ++ y → x ≡ y
append-cancel [] x y e = e
append-cancel (b ∷ p) x y e = let tail : p ++ x ≡ p ++ y = cc in append-cancel p x y tail

-- Two different inputs with one hash.
abbrev pub Collision : {S : SilAbi} → Hashing S → Type 0
Collision H =
    (x : Bytes) × (y : Bytes) × (x ≢ y) × (H.encode_hex (H.blake2b x) ≡ H.encode_hex (H.blake2b y))

-- The JSON of the artifact without what depends on the build.
abbrev pub portable_json : {S : SilAbi} → Hashing S → Artifact S → Option Bytes
portable_json H a = H.to_vec (record a { id = []; root = []; modules = [] })

module _ {S : SilAbi} (H : Hashing S) where
  -- The input of a hash that succeeds.
  hash_json-input :
      {T : Type 0} (to_vec : T → Option Bytes) (domain : Text) (value : T) (hex : Text)
      → hash_json H to_vec domain value ≡ ok hex
      → (json : Bytes) × (to_vec value ≡ some json)
        × (H.encode_hex (H.blake2b (domain ++ json)) ≡ hex)
  unfolding hash_json
  hash_json-input to_vec domain value hex h = elim (Option-cases (to_vec value)) [
    | inl failed ↦ absurd (ground arith)
    | inr (json, e) ↦ (json, e, ground arith)
  ]

  same_hash :
      (a b : Artifact S) (id : Text)
      → computed_id_hex H a ≡ ok id
      → computed_id_hex H b ≡ ok id
      → (portable_json H a ≡ portable_json H b) ⊎ Collision H
  unfolding computed_id_hex
  same_hash a b id h k =
      let domain = bytes "argent/artifact/v1" in
      let (x, a_x, e) =
        hash_json-input H.to_vec domain (record a { id = []; root = []; modules = [] }) id h in
      let (y, b_y, f) =
        hash_json-input H.to_vec domain (record b { id = []; root = []; modules = [] }) id k in
      elim (Bool-cases (eqb x y)) [
        | inl same ↦ inl (a_x ∙ ap some ((eqb_iff x y).0 same) ∙ sym b_y)
        | inr other ↦ inr (
          domain ++ x,
          domain ++ y,
          λ one. let equal : x ≡ y = append-cancel domain x y one in ground (arith, eqb_iff x y),
          e ∙ sym f,
        )
      ]

  -- Two artifacts with one id that both pass the check of their identities have the same JSON, but for the
  -- id, the root and the modules, or they show a collision of the hash.
  pub verify_id_binding :
      (a b : Artifact S)
      → verify_id H a ≡ ok tt
      → verify_id H b ≡ ok tt
      → a.id ≡ b.id
      → (portable_json H a ≡ portable_json H b) ⊎ Collision H
  verify_id_binding a b h k same =
      same_hash a b a.id ((verify_id_iff H a).0 h).1
        (((verify_id_iff H b).0 k).1 ∙ ap ok (sym same))

  -- If the id of an artifact is the fingerprint of an interface, they show a collision of the hash.
  pub actor_interface_fingerprint_hex_apart :
      (a : Artifact S) (actor state : Text) (runtime_fields : List (Text × S.TypeArtifact))
      (hex : Text)
      → computed_id_hex H a ≡ ok hex
      → actor_interface_fingerprint_hex H actor state runtime_fields ≡ ok hex
      → Collision H
  unfolding computed_id_hex actor_interface_fingerprint_hex
  actor_interface_fingerprint_hex_apart a actor state runtime_fields hex h k =
      let (x, _, e) = hash_json-input H.to_vec (bytes "argent/artifact/v1") _ hex h in
      let (y, _, f) =
        hash_json-input H.to_vec_fingerprint (bytes "argent/interface/actor/v1") _ hex k in
      (
        bytes "argent/artifact/v1" ++ x,
        bytes "argent/interface/actor/v1" ++ y,
        λ one.
            let eighth : some 97 ≡ some 105 = ap (λ (z : Bytes). get_elem? z 7) one in
            absurd (ground arith),
        e ∙ sym f,
      )
