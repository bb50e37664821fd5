-- ===== src/Artifact/Merkle.antt =====
-- crates/argent-artifact/src/lib.rs: the Merkle layers, proofs and roots of route tables.
pub mod Rooted
use argent.Base.{
  ℕ, zero, suc, ◌+◌, ◌-◌, ◌/◌, ◌%◌, Bool, true, false, ◌==◌, leb, Option, none, some, List, [], ◌∷◌,
  ◌++◌, length, get_elem?, if◌then◌else◌, Text, Bytes, Result, ok, err, ◌>>=◌,
}
use argent.Artifact.Digest.{Digest}
use argent.Artifact.PlanError.{TemplatePlanError, invalid_hex, undecodable, wrong_length}
use argent.Artifact.Schema.Plan.{
  RouteTemplateProofStepArtifact, RouteTemplateProofSideArtifact, left, right,
}

-- `a.min(b)`.
abbrev pub min_of : ℕ → ℕ → ℕ
min_of a b = if leb a b then a else b

abbrev pub is_left_child : ℕ → Bool
is_left_child index = index % 2 == 0

abbrev pub sibling_index : ℕ → ℕ → ℕ
sibling_index index len = if is_left_child index then min_of (index + 1) (len - 1) else index - 1

-- `layers.last().and_then(|layer| layer.first())`.
abbrev pub last_first : List (List Bytes) → Option Bytes
last_first [] = none
last_first ([] ∷ []) = none
last_first ((h ∷ layer) ∷ []) = some h
last_first (layer ∷ next ∷ rest) = last_first (next ∷ rest)

module _ (D : Digest) where
  unfoldable pub route_template_merkle_parent : Bytes → Bytes → Bytes
  route_template_merkle_parent l r = D.hash (l ++ r)

  -- `current.chunks(2)`: the last hash of an odd layer is its own sibling.
  unfoldable pub next_layer : List Bytes → List Bytes
  unfolding route_template_merkle_parent
  next_layer [] = []
  next_layer (l ∷ []) = route_template_merkle_parent l l ∷ []
  next_layer (l ∷ r ∷ rest) = route_template_merkle_parent l r ∷ next_layer rest

  -- The loop, with rounds to spare.
  unfoldable pub layers_from : ℕ → List Bytes → List (List Bytes)
  unfolding next_layer
  layers_from zero layer = layer ∷ []
  layers_from (suc rounds) layer =
      let rest = layers_from rounds (next_layer layer) in
      if leb (length layer) 1 then layer ∷ [] else layer ∷ rest

  unfoldable pub route_template_merkle_layers : List Bytes → List (List Bytes)
  unfolding layers_from
  route_template_merkle_layers [] = []
  route_template_merkle_layers (leaf ∷ leaves) =
      layers_from (length (leaf ∷ leaves)) (leaf ∷ leaves)

  unfoldable pub route_template_merkle_root_hex : List (List Bytes) → Text
  route_template_merkle_root_hex layers = elim (last_first layers) [
    | some h ↦ D.hex_encode h
    | none ↦ D.hex_encode (D.hash [])
  ]

  -- All layers but the last add a step; an index out of range is `none`.
  unfoldable pub route_template_merkle_proof :
      List (List Bytes) → ℕ → Option (List RouteTemplateProofStepArtifact)
  route_template_merkle_proof [] index = some []
  route_template_merkle_proof (layer ∷ []) index = some []
  route_template_merkle_proof (layer ∷ next ∷ rest) index =
      elim (get_elem? layer (sibling_index index (length layer))) [
        | none ↦ none
        | some h ↦ elim (route_template_merkle_proof (next ∷ rest) (index / 2)) [
          | none ↦ none
          | some steps ↦ some (
              record {
                side = if is_left_child index then right else left;
                hash_hex = D.hex_encode h;
              }
              ∷ steps)
        ]
      ]

  unfoldable pub decode_hash_hex : Text → Text → Result Bytes TemplatePlanError
  decode_hash_hex id hex = elim (D.hex_decode hex) [
    | none ↦ err (invalid_hex id undecodable)
    | some bytes ↦
        if length bytes == 32 then ok bytes else err (invalid_hex id (wrong_length (length bytes)))
  ]

  -- The loop over the steps.
  unfoldable pub resolve :
      Text → Bytes → List RouteTemplateProofStepArtifact → Result Bytes TemplatePlanError
  unfolding decode_hash_hex route_template_merkle_parent
  resolve id resolved [] = ok resolved
  resolve id resolved (step ∷ rest) = decode_hash_hex id step.hash_hex >>= λ sibling.
      resolve id
        (elim step.side [
          | left ↦ route_template_merkle_parent sibling resolved
          | right ↦ route_template_merkle_parent resolved sibling
        ])
        rest

  unfoldable pub route_template_merkle_proof_root :
      Text → Text → List RouteTemplateProofStepArtifact → Result Bytes TemplatePlanError
  unfolding resolve
  route_template_merkle_proof_root id leaf_hash_hex proof =
      decode_hash_hex id leaf_hash_hex >>= λ leaf. resolve id leaf proof
