-- ===== src/Artifact/RouteProof/Leaves.antt =====
-- crates/argent-artifact/src/lib.rs: the leaves of a proof that is verified, and the hashes of a table.
use argent.Base.{
  ℕ, zero, suc, ◌+◌, ◌≡◌, sym, ap, ◌∙◌, subst, ◌↔◌, inl, inr, true, false, ==_iff, some, List, [],
  ◌∷◌, get_elem?, arith, Text, Bytes, ok, bind_ok, Option-cases, Result-cases, refl, length, err,
  All, ◌++◌,
}
use argent.Artifact.PlanError.{TemplatePlanError}
use argent.Collections.Order.{eqb_iff, bytes_ord}
use argent.Collections.BTreeMap.{get}
use argent.Artifact.Digest.{Digest}
use argent.Artifact.Schema.Plan.{
  RouteTemplateTableEntryArtifact, RouteTemplateProofArtifact, RouteTemplateProofLeafArtifact,
  RouteTemplateLeafArtifact, template, route_family,
}
use argent.Artifact.Merkle.{
  route_template_merkle_layers, route_template_merkle_proof, route_template_merkle_proof_root,
  decode_hash_hex,
}
use argent.Artifact.RouteProof.{
  TemplateHashRef, TemplateHashLookup, leaf_eqb, is_recursive, route_template_leaf_hash,
  leaf_hashes, verify_leaf, verify_leaves,
}

pub leaf_eqb_iff : (l m : RouteTemplateLeafArtifact) → (leaf_eqb l m ≡ true) ↔ (l ≡ m)
leaf_eqb_iff (template a b) (template c d) = ground (arith, eqb_iff a c, eqb_iff b d)
leaf_eqb_iff (template a b) (route_family c d) = (λ h. cc, λ h. cc)
leaf_eqb_iff (route_family a b) (template c d) = (λ h. cc, λ h. cc)
leaf_eqb_iff (route_family a b) (route_family c d) = ground (arith, eqb_iff a c, eqb_iff b d)

-- The hash of a leaf: that of the template, or the root of the proof that the leaf refers to.
abbrev pub HashOf :
    Digest → TemplateHashLookup → List (Text × Text) → RouteTemplateLeafArtifact → Bytes → Type 0
HashOf D templates roots (template actor id) hash =
    (t : TemplateHashRef) × (templates.template_hash_by_id id ≡ some t)
    × (t.actor ≡ actor)
    × (t.hash ≡ hash)
HashOf D templates roots (route_family family_id proof_id) hash =
    (root_hex : Text) × (get proof_id roots ≡ some root_hex)
    × (decode_hash_hex D proof_id root_hex ≡ ok hash)

-- A leaf of a proof states the entry of its position, and its path leads to the root.
pub record IsProofLeaf (D : Digest) (id : Text) (root hash : Bytes)
    (leaf : RouteTemplateProofLeafArtifact) (entry : RouteTemplateTableEntryArtifact) : Type 0 where
  pub index_lem : leaf.index ≡ entry.index
  pub leaf_lem : leaf.leaf ≡ entry.leaf
  pub not_recursive : is_recursive id leaf.leaf ≡ false
  pub hash_lem : leaf.hash_hex ≡ D.hex_encode hash
  pub resolves : route_template_merkle_proof_root D id leaf.hash_hex leaf.proof ≡ ok root

-- The error is that of an entry's leaf hash, and the leaf hashes of the entries before it succeed.
abbrev pub IsFirstFailure :
    Digest
    → TemplateHashLookup
    → Text
    → List (Text × Text)
    → List RouteTemplateTableEntryArtifact
    → TemplatePlanError
    → Type 0
IsFirstFailure D templates table_id roots entries x =
    (before : List RouteTemplateTableEntryArtifact) × (entry : RouteTemplateTableEntryArtifact)
    × (after : List RouteTemplateTableEntryArtifact) × (entries ≡ before ++ entry ∷ after)
    × All
        (λ e.
          (hash : Bytes) × (route_template_leaf_hash D templates table_id e.leaf roots ≡ ok hash))
        before
    × (route_template_leaf_hash D templates table_id entry.leaf roots ≡ err x)

module _ (D : Digest) (templates : TemplateHashLookup) where
  leaf_hash-HashOf :
      (table_id : Text) (leaf : RouteTemplateLeafArtifact) (roots : List (Text × Text))
      (hash : Bytes)
      → route_template_leaf_hash D templates table_id leaf roots ≡ ok hash
      → HashOf D templates roots leaf hash
  unfolding route_template_leaf_hash
  leaf_hash-HashOf table_id (template actor id) roots hash h =
      elim (Option-cases (templates.template_hash_by_id id)) [
        | inl gone ↦ absurd (ground arith)
        | inr (t, found) ↦ (t, found, ground (arith, eqb_iff t.actor actor), ground arith)
      ]
  leaf_hash-HashOf table_id (route_family family_id proof_id) roots hash h =
      elim (Option-cases (get proof_id roots)) [
        | inl gone ↦ absurd (ground arith)
        | inr (root_hex, found) ↦ (root_hex, found, ground arith)
      ]

  pub leaf_hashes-HashOf :
      (table_id : Text) (roots : List (Text × Text))
      (entries : List RouteTemplateTableEntryArtifact) (hashes : List Bytes)
      → leaf_hashes D templates table_id roots entries ≡ ok hashes
      → (k : ℕ) (entry : RouteTemplateTableEntryArtifact) → get_elem? entries k ≡ some entry
      → (hash : Bytes) × (get_elem? hashes k ≡ some hash) × HashOf D templates roots entry.leaf hash
  unfolding leaf_hashes
  leaf_hashes-HashOf table_id roots [] hashes h k entry e = cc
  leaf_hashes-HashOf table_id roots (x ∷ xs) hashes h k entry e =
      let (first, at, h') =
        bind_ok (route_template_leaf_hash D templates table_id x.leaf roots) _ hashes h in
      let (rest, later, done) = bind_ok (leaf_hashes D templates table_id roots xs) _ hashes h' in
      let same : first ∷ rest ≡ hashes = ground arith in
      elim k
          as (λ k.
            get_elem? (x ∷ xs) k ≡ some entry
            → (hash : Bytes) × (get_elem? hashes k ≡ some hash)
              × HashOf D templates roots entry.leaf hash) [
                | zero ↦ λ e.
                    let here : x ≡ entry = ground arith in
                    (
                      first,
                      ap (λ z. get_elem? z 0) (sym same),
                      subst (λ z. HashOf D templates roots z.leaf first) here
                          (leaf_hash-HashOf table_id x.leaf roots first at),
                    )
                | suc k ↦ λ e.
                    let (hash, found, of) =
                      leaf_hashes-HashOf table_id roots xs rest later k entry e in
                    (hash, ap (λ z. get_elem? z (suc k)) (sym same) ∙ found, of)
              ]
        e

  -- There is one hash for each entry.
  pub length-leaf_hashes :
      (table_id : Text) (roots : List (Text × Text))
      (entries : List RouteTemplateTableEntryArtifact) (hashes : List Bytes)
      → leaf_hashes D templates table_id roots entries ≡ ok hashes
      → length hashes ≡ length entries
  unfolding leaf_hashes
  length-leaf_hashes table_id roots [] hashes h =
      let same : hashes ≡ [] = ground arith in rw same refl
  length-leaf_hashes table_id roots (x ∷ xs) hashes h =
      let (first, at, h') =
        bind_ok (route_template_leaf_hash D templates table_id x.leaf roots) _ hashes h in
      let (rest, later, done) = bind_ok (leaf_hashes D templates table_id roots xs) _ hashes h' in
      let same : hashes ≡ first ∷ rest = ground arith in
      rw same (ap suc (length-leaf_hashes table_id roots xs rest later))

  -- A failure is that of the first leaf whose hash fails.
  pub leaf_hashes-IsFirstFailure :
      (table_id : Text) (roots : List (Text × Text))
      (entries : List RouteTemplateTableEntryArtifact) (x : TemplatePlanError)
      → leaf_hashes D templates table_id roots entries ≡ err x
      → IsFirstFailure D templates table_id roots entries x
  unfolding leaf_hashes
  leaf_hashes-IsFirstFailure table_id roots [] x h = cc
  leaf_hashes-IsFirstFailure table_id roots (e ∷ entries) x h =
      elim (Result-cases (route_template_leaf_hash D templates table_id e.leaf roots)) [
        | inr (y, failed) ↦
            let same : y ≡ x = ground arith in ([], e, entries, refl, tt, failed ∙ ap err same)
        | inl (hash, first) ↦ elim (Result-cases (leaf_hashes D templates table_id roots entries)) [
          | inl (hashes, rest) ↦ absurd (ground arith)
          | inr (y, failed) ↦
              let same : y ≡ x = ground arith in
              let (before, entry, after, at, fine, fails) =
                leaf_hashes-IsFirstFailure table_id roots entries y failed in
              (
                e ∷ before,
                entry,
                after,
                ap (λ es. e ∷ es) at,
                ((hash, first), fine),
                fails ∙ ap err same,
              )
        ]
      ]

module _ (D : Digest) (proof : RouteTemplateProofArtifact) (hashes : List Bytes)
    (root : Bytes) where
  abbrev layers : List (List Bytes)
  layers = route_template_merkle_layers D hashes

  verify_leaf-IsProofLeaf :
      (index : ℕ) (leaf : RouteTemplateProofLeafArtifact) (entry : RouteTemplateTableEntryArtifact)
      → verify_leaf D proof layers hashes root index leaf entry ≡ ok tt
      → (hash : Bytes) × (get_elem? hashes index ≡ some hash)
        × IsProofLeaf D proof.id root hash leaf entry
  unfolding verify_leaf
  verify_leaf-IsProofLeaf index leaf entry h = elim (Option-cases (get_elem? hashes index)) [
    | inl gone ↦ absurd (ground arith)
    | inr (hash, found) ↦ elim (Option-cases (route_template_merkle_proof D layers index)) [
      | inl gone ↦ absurd (ground arith)
      | inr (path, at) ↦
          elim (Result-cases
            (route_template_merkle_proof_root D proof.id leaf.hash_hex leaf.proof)) [
              | inr (e, failed) ↦ absurd (ground arith)
              | inl (resolved, led) ↦
                  let same : resolved ≡ root = ground (arith, eqb_iff resolved root) in
                  (
                    hash,
                    found,
                    record {
                      index_lem = ground (arith, ==_iff leaf.index entry.index);
                      leaf_lem = ground (arith, leaf_eqb_iff leaf.leaf entry.leaf);
                      not_recursive = ground arith;
                      hash_lem = ground (arith, eqb_iff leaf.hash_hex (D.hex_encode hash));
                      resolves = led ∙ ap ok same;
                    },
                  )
            ]
    ]
  ]

  pub verify_leaves-IsProofLeaf :
      (index : ℕ) (leaves : List RouteTemplateProofLeafArtifact)
      (entries : List RouteTemplateTableEntryArtifact)
      → verify_leaves D proof layers hashes root index leaves entries ≡ ok tt
      → (k : ℕ) (leaf : RouteTemplateProofLeafArtifact) (entry : RouteTemplateTableEntryArtifact)
      → get_elem? leaves k ≡ some leaf
      → get_elem? entries k ≡ some entry
      → (hash : Bytes) × (get_elem? hashes (index + k) ≡ some hash)
        × IsProofLeaf D proof.id root hash leaf entry
  unfolding verify_leaves
  verify_leaves-IsProofLeaf index [] entries h k leaf entry e f = cc
  verify_leaves-IsProofLeaf index (l ∷ ls) [] h k leaf entry e f = cc
  verify_leaves-IsProofLeaf index (l ∷ ls) (x ∷ xs) h zero leaf entry e f =
      let (_, first, _) = bind_ok (verify_leaf D proof layers hashes root index l x) _ tt h in
      let here : l ≡ leaf = ground arith in
      let there : x ≡ entry = ground arith in
      let (hash, found, of) = verify_leaf-IsProofLeaf index l x first in
      (
        hash,
        ap (get_elem? hashes) (omega arith) ∙ found,
        subst (λ z. IsProofLeaf D proof.id root hash leaf z) there
            (subst (λ z. IsProofLeaf D proof.id root hash z x) here of),
      )
  verify_leaves-IsProofLeaf index (l ∷ ls) (x ∷ xs) h (suc k) leaf entry e f =
      let (_, _, rest) = bind_ok (verify_leaf D proof layers hashes root index l x) _ tt h in
      let (hash, found, of) = verify_leaves-IsProofLeaf (index + 1) ls xs rest k leaf entry e f in
      (hash, ap (get_elem? hashes) (omega arith) ∙ found, of)
