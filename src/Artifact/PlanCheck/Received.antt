-- ===== src/Artifact/PlanCheck/Received.antt =====
-- `check_consistency`: what the checks of the template receipts ensure.
use argent.Base.{
  ◌≡◌, ◌⊎◌, inl, inr, true, some, List, [], ◌∷◌, All, In, arith, Text, ok, bind_ok, Bool-cases,
  Option-cases,
}
use argent.Collections.Order.{eqb, eqb_iff, bytes_ord}
use argent.Collections.BTreeSet
use argent.Collections.BTreeSet.{contains, contains-insert}
use argent.Collections.BTreeMap
use argent.Collections.BTreeMap.{get}
use argent.Artifact.Sil.{SilAbi, SilPlan}
use argent.Artifact.Digest.{Digest}
use argent.Artifact.Schema.{TemplateRefArtifact}
use argent.Artifact.Schema.Plan.{TemplateReceiptArtifact}
use argent.Artifact.PlanCheck.Templates.{
  TemplatesById, check_receipt, index_templates, check_refs, check_referenced,
}
use argent.Artifact.PlanCheck.Indexed.{Kept, insert-Kept, Fresh}

abbrev pub receipt_ids : List TemplateReceiptArtifact → List Text
receipt_ids [] = []
receipt_ids (t ∷ ts) = t.id ∷ receipt_ids ts

abbrev pub ref_ids : List TemplateRefArtifact → List Text
ref_ids [] = []
ref_ids (r ∷ rs) = r.id ∷ ref_ids rs

module _ (S : SilAbi) (P : SilPlan S) (D : Digest) (abi : S.SilAbiArtifact) where
  -- The receipt is that of its compiled contract.
  abbrev pub IsReceipt : TemplateReceiptArtifact → Type 0
  IsReceipt t =
      (contract : S.SilContractArtifact) × (S.contract abi t.contract ≡ some contract)
      × (t.actor ≡ t.contract)
      × (t.sil_template_hash ≡ P.template_hash contract)

  check_receipt-IsReceipt :
      (t : TemplateReceiptArtifact) → check_receipt S P D abi t ≡ ok tt → IsReceipt t
  unfolding check_receipt
  check_receipt-IsReceipt t h = elim (Option-cases (S.contract abi t.contract)) [
    | inl e ↦ absurd (ground arith)
    | inr (contract, found) ↦ (
      contract,
      found,
      ground (arith, eqb_iff t.actor t.contract),
      ground (arith, eqb_iff t.sil_template_hash (P.template_hash contract)),
    )
  ]

  pub index_templates_lem :
      (Q : Text → TemplateReceiptArtifact → Type 0) (ids : List Text) (m : TemplatesById)
      (ts : List TemplateReceiptArtifact) (out : TemplatesById)
      → index_templates S P D abi ids m ts ≡ ok out
      → Kept Q m
      → All (λ t. Q t.id t) ts
      → Fresh ids (receipt_ids ts) × All IsReceipt ts × Kept Q out
  unfolding index_templates
  index_templates_lem Q ids m [] out h kept all =
      let same : m ≡ out = cc in (tt, tt, rw same at kept)
  index_templates_lem Q ids m (t ∷ ts) out h kept all = elim (Bool-cases (contains t.id ids)) [
    | inl e ↦ absurd (ground arith)
    | inr fresh ↦
        let step = bind_ok (check_receipt S P D abi t) _ out (rw fresh at h) in
        let rest =
          index_templates_lem Q (BTreeSet.insert t.id ids) (BTreeMap.insert t.id t m) ts out step.2
            (insert-Kept Q m t.id t kept all.0) all.1 in
        ((fresh, rest.0), (check_receipt-IsReceipt t step.1, rest.1), rest.2)
  ]

-- A receipt of the index answers the reference.
abbrev pub Referred : TemplatesById → TemplateRefArtifact → Type 0
Referred m r =
    (t : TemplateReceiptArtifact) × (get r.id m ≡ some t)
    × (t.actor ≡ r.actor)
    × (t.symbol ≡ r.symbol)

pub check_refs_lem :
    (m : TemplatesById) (ids : List Text) (rs : List TemplateRefArtifact) (out : List Text)
    → check_refs m ids rs ≡ ok out
    → All (Referred m) rs
      × ((id : Text) → contains id out ≡ true → (contains id ids ≡ true) ⊎ In id (ref_ids rs))
unfolding check_refs
check_refs_lem m ids [] out h = let same : ids ≡ out = cc in (tt, λ id k. inl (rw same k))
check_refs_lem m ids (r ∷ rs) out h = elim (Option-cases (get r.id m)) [
  | inl e ↦ absurd (ground arith)
  | inr (t, found) ↦
      let actors : eqb t.actor r.actor ≡ true = ground arith in
      let symbols : eqb t.symbol r.symbol ≡ true = ground arith in
      let rest = check_refs_lem m (BTreeSet.insert r.id ids) rs out (ground arith) in
      (
        (
          (t, found, (eqb_iff t.actor r.actor).0 actors, (eqb_iff t.symbol r.symbol).0 symbols),
          rest.0,
        ),
        λ id k. elim (rest.1 id k) [
          | inl here ↦ elim (Bool-cases (eqb id r.id)) [
            | inl same ↦ inr (inl ((eqb_iff id r.id).0 same))
            | inr other ↦ inl (ground (arith, contains-insert id r.id ids))
          ]
          | inr later ↦ inr (inr later)
        ],
      )
]

pub check_referenced_lem :
    (ids : List Text) (t : TemplateReceiptArtifact)
    → check_referenced ids t ≡ ok tt
    → contains t.id ids ≡ true
unfolding check_referenced
check_referenced_lem ids t h = ground arith
