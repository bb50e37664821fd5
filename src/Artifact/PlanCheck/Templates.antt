-- ===== src/Artifact/PlanCheck/Templates.antt =====
-- `check_consistency`: the template receipts and the references to them.
use argent.Base.{
  ◌||◌, not, none, some, List, [], ◌∷◌, if◌then◌else◌, Text, Result, ok, err, ◌>>=◌, Done,
}
use argent.Collections.Order.{eqb, bytes_ord}
use argent.Collections.BTreeSet
use argent.Collections.BTreeSet.{contains}
use argent.Collections.BTreeMap
use argent.Collections.BTreeMap.{get}
use argent.Artifact.Sil.{SilAbi, SilPlan}
use argent.Artifact.Digest.{Digest}
use argent.Artifact.Schema.{TemplateRefArtifact}
use argent.Artifact.Schema.Plan.{TemplateReceiptArtifact}
use argent.Artifact.PlanError.{
  TemplatePlanError, duplicate_template_id, unknown_contract, template_contract_mismatch,
  template_hash_mismatch, missing_template_receipt, template_ref_mismatch,
  unreferenced_template_receipt,
}

abbrev pub TemplatesById : Type 0
TemplatesById = List (Text × TemplateReceiptArtifact)

module _ (S : SilAbi) (P : SilPlan S) (D : Digest) (abi : S.SilAbiArtifact) where
  -- One receipt against its contract.
  unfoldable pub check_receipt : TemplateReceiptArtifact → Result Done TemplatePlanError
  check_receipt template = elim (S.contract abi template.contract) [
    | none ↦ err (unknown_contract template.contract)
    | some contract ↦
        if not (eqb template.actor template.contract)
        then err (template_contract_mismatch template.id template.actor template.contract)
        else if not (eqb template.sil_template_hash (P.template_hash contract))
        then err (
            template_hash_mismatch template.id (D.hex_encode (P.template_hash contract))
              (D.hex_encode template.sil_template_hash))
        else ok tt
  ]

  -- The first loop, with `template_ids` and `templates_by_id`.
  unfoldable pub index_templates :
      List Text
      → TemplatesById
      → List TemplateReceiptArtifact
      → Result TemplatesById TemplatePlanError
  unfolding check_receipt
  index_templates ids by_id [] = ok by_id
  index_templates ids by_id (template ∷ rest) =
      if contains template.id ids
      then err (duplicate_template_id template.id)
      else check_receipt template >>= λ u.
          index_templates (BTreeSet.insert template.id ids)
            (BTreeMap.insert template.id template by_id) rest

-- The loop over the references; the result is `referenced_template_ids`.
unfoldable pub check_refs :
    TemplatesById → List Text → List TemplateRefArtifact → Result (List Text) TemplatePlanError
check_refs by_id referenced [] = ok referenced
check_refs by_id referenced (template_ref ∷ rest) = elim (get template_ref.id by_id) [
  | none ↦ err (missing_template_receipt template_ref.actor template_ref.id)
  | some template ↦
      if not (eqb template.actor template_ref.actor)
        || not (eqb template.symbol template_ref.symbol)
      then err (template_ref_mismatch template.id template_ref.actor)
      else check_refs by_id (BTreeSet.insert template_ref.id referenced) rest
]

unfoldable pub check_referenced :
    List Text → TemplateReceiptArtifact → Result Done TemplatePlanError
check_referenced referenced template =
    if contains template.id referenced
    then ok tt
    else err (unreferenced_template_receipt template.id)
