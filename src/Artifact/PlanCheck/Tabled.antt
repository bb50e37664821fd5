-- ===== src/Artifact/PlanCheck/Tabled.antt =====
-- `check_consistency`: what the checks of the families and of the route tables ensure.
use argent.Base.{
  ℕ, zero, suc, ◌+◌, ◌*◌, ◌≡◌, sym, inl, inr, true, ◌==◌, ==_iff, some, List, [], ◌∷◌, length,
  get_elem?, All, arith, Text, ok, bind_ok, Bool-cases, Option-cases,
}
use argent.Collections.Order.{eqb_iff, bytes_ord}
use argent.Collections.BTreeSet
use argent.Collections.BTreeSet.{contains}
use argent.Collections.BTreeMap
use argent.Collections.BTreeMap.{get}
use argent.Artifact.Schema.Plan.{
  TemplateReceiptArtifact, RouteTemplateFamilyArtifact, RouteTemplateTableArtifact,
  RouteTemplateTableEntryArtifact, RouteTemplateLeafArtifact, template, route_family,
}
use argent.Artifact.RouteProof.{route_template_proof_receipt_id}
use argent.Artifact.PlanCheck.Templates.{TemplatesById}
use argent.Artifact.PlanCheck.Families.{FamiliesById, index_families, check_family}
use argent.Artifact.PlanCheck.Tables.{
  TablesById, index_tables, check_leaf, check_table_entries, check_table,
}
use argent.Artifact.PlanCheck.Indexed.{Kept, insert-Kept, Fresh}

abbrev pub table_ids : List RouteTemplateTableArtifact → List Text
table_ids [] = []
table_ids (t ∷ ts) = t.id ∷ table_ids ts

abbrev pub family_ids : List RouteTemplateFamilyArtifact → List Text
family_ids [] = []
family_ids (f ∷ fs) = f.id ∷ family_ids fs

pub index_tables_lem :
    (Q : Text → RouteTemplateTableArtifact → Type 0) (ids : List Text) (m : TablesById)
    (ts : List RouteTemplateTableArtifact) (out : TablesById)
    → index_tables ids m ts ≡ ok out
    → Kept Q m
    → All (λ t. Q t.id t) ts
    → Fresh ids (table_ids ts) × Kept Q out
unfolding index_tables
index_tables_lem Q ids m [] out h kept all = let same : m ≡ out = cc in (tt, rw same at kept)
index_tables_lem Q ids m (t ∷ ts) out h kept all = elim (Bool-cases (contains t.id ids)) [
  | inl e ↦ absurd (ground arith)
  | inr fresh ↦
      let rest =
        index_tables_lem Q (BTreeSet.insert t.id ids) (BTreeMap.insert t.id t m) ts out
          (rw fresh at h) (insert-Kept Q m t.id t kept all.0) all.1 in
      ((fresh, rest.0), rest.1)
]

pub index_families_lem :
    (states : List (Text × Text)) (Q : Text → RouteTemplateFamilyArtifact → Type 0)
    (ids : List Text) (m : FamiliesById) (fs : List RouteTemplateFamilyArtifact)
    (out : FamiliesById)
    → index_families states ids m fs ≡ ok out
    → Kept Q m
    → All (λ f. Q f.id f) fs
    → Fresh ids (family_ids fs) × All (λ f. check_family states f ≡ ok tt) fs × Kept Q out
unfolding index_families
index_families_lem states Q ids m [] out h kept all =
    let same : m ≡ out = cc in (tt, tt, rw same at kept)
index_families_lem states Q ids m (f ∷ fs) out h kept all = elim (Bool-cases (contains f.id ids)) [
  | inl e ↦ absurd (ground arith)
  | inr fresh ↦
      let step = bind_ok (check_family states f) _ out (rw fresh at h) in
      let rest =
        index_families_lem states Q (BTreeSet.insert f.id ids) (BTreeMap.insert f.id f m) fs out
          step.2 (insert-Kept Q m f.id f kept all.0) all.1 in
      ((fresh, rest.0), (step.1, rest.1), rest.2)
]

module _ (templates_by_id : TemplatesById) (families_by_id : FamiliesById)
    (tables_by_id : TablesById) where
  -- The template of the leaf's actor, or the proof of the table of the leaf's family.
  abbrev pub Resolved : RouteTemplateLeafArtifact → Type 0
  Resolved (template actor template_id) =
      (t : TemplateReceiptArtifact) × (get template_id templates_by_id ≡ some t) × (t.actor ≡ actor)
  Resolved (route_family family_id proof_id) =
      (family : RouteTemplateFamilyArtifact) × (table : RouteTemplateTableArtifact) × (get family_id
          families_by_id
        ≡ some family)
      × (get family.table_id tables_by_id ≡ some table)
      × (proof_id ≡ route_template_proof_receipt_id table.state table.field)

  check_leaf-Resolved :
      (id : Text) (leaf : RouteTemplateLeafArtifact)
      → check_leaf templates_by_id families_by_id tables_by_id id leaf ≡ ok tt
      → Resolved leaf
  unfolding check_leaf
  check_leaf-Resolved id (template actor template_id) h =
      elim (Option-cases (get template_id templates_by_id)) [
        | inl e ↦ absurd (ground arith)
        | inr (t, found) ↦ (t, found, ground (arith, eqb_iff t.actor actor))
      ]
  check_leaf-Resolved id (route_family family_id proof_id) h =
      elim (Option-cases (get family_id families_by_id)) [
        | inl e ↦ absurd (ground arith)
        | inr (family, found) ↦ elim (Option-cases (get family.table_id tables_by_id)) [
          | inl e ↦ absurd (ground arith)
          | inr (table, known) ↦
              let proof = route_template_proof_receipt_id table.state table.field in
              (family, table, found, known, ground (arith, eqb_iff proof_id proof))
        ]
      ]

  -- The entry at this place.
  abbrev pub Placed : ℕ → RouteTemplateTableEntryArtifact → Type 0
  Placed k entry = (entry.index ≡ k) × (entry.offset ≡ k * 32) × Resolved entry.leaf

  check_table_entries-step :
      (id : Text) (n : ℕ) (x : RouteTemplateTableEntryArtifact)
      (xs : List RouteTemplateTableEntryArtifact)
      → check_table_entries templates_by_id families_by_id tables_by_id id n (x ∷ xs) ≡ ok tt
      → Placed n x
        × (check_table_entries templates_by_id families_by_id tables_by_id id (n + 1) xs ≡ ok tt)
  unfolding check_table_entries
  check_table_entries-step id n x xs h =
      let index : x.index == n ≡ true = ground arith in
      let offset : x.offset == n * 32 ≡ true = ground arith in
      let step =
        bind_ok (check_leaf templates_by_id families_by_id tables_by_id id x.leaf) _ tt
          (rw (index, offset) at h) in
      (
        (
          (==_iff x.index n).0 index,
          (==_iff x.offset (n * 32)).0 offset,
          check_leaf-Resolved id x.leaf step.1,
        ),
        step.2,
      )

  check_table_entries-Placed :
      (id : Text) (n : ℕ) (entries : List RouteTemplateTableEntryArtifact)
      → check_table_entries templates_by_id families_by_id tables_by_id id n entries ≡ ok tt
      → (k : ℕ) (entry : RouteTemplateTableEntryArtifact) → get_elem? entries k ≡ some entry
      → Placed (n + k) entry
  check_table_entries-Placed id n [] h k entry e = cc
  check_table_entries-Placed id n (x ∷ xs) h zero entry e =
      let same : x ≡ entry = cc in
      let at : n + 0 ≡ n = omega arith in
      rw (at, sym same) ((check_table_entries-step id n x xs h).0)
  check_table_entries-Placed id n (x ∷ xs) h (suc k) entry e =
      let next = (check_table_entries-step id n x xs h).1 in
      let at : n + suc k ≡ n + 1 + k = omega arith in
      rw at (check_table_entries-Placed id (n + 1) xs next k entry e)

  -- Entry `k` has index `k` and the offset of its hash, and the bytes are those of the hashes.
  abbrev pub IsTable : RouteTemplateTableArtifact → Type 0
  IsTable table =
      (table.byte_len ≡ length table.entries * 32)
      × ((k : ℕ) (entry : RouteTemplateTableEntryArtifact)
          → get_elem? table.entries k ≡ some entry
          → Placed k entry)

  pub check_table-IsTable :
      (table : RouteTemplateTableArtifact)
      → check_table templates_by_id families_by_id tables_by_id table ≡ ok tt
      → IsTable table
  unfolding check_table
  check_table-IsTable table h = (
    ground (arith, ==_iff table.byte_len (length table.entries * 32)),
    λ k entry e.
        let at : 0 + k ≡ k = omega arith in
        rw (sym at) (check_table_entries-Placed table.id 0 table.entries (ground arith) k entry e),
  )
