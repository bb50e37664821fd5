-- ===== src/Artifact/Spawns/Params.antt =====
-- crates/argent-artifact/src/verify_spawns.rs: what `verify_entry_spawns` ensures of the hidden
-- parameters of an entry.
use argent.Base.{
  ℕ, ◌≡◌, ◌≢◌, refl, sym, ap, inl, inr, true, ==_iff, some, [], length, get_elem?, All, All_at, In,
  arith, Text, ok, ◌>>=◌, each_ok, each-All, then_ok, bind_ok, Option-cases,
}
use argent.Collections.Order.{eqb, eqb_iff, bytes_ord, pair_ord}
use argent.Collections.BTreeMap.{get, In-of_get}
use argent.Collections.Slices.{Pairwise}
use argent.Artifact.Schema.Entry.{
  EntryArtifact, SpawnArtifact, SpawnOutputArtifact, HiddenParamArtifact,
  HiddenParamSubjectArtifact, spawn_actor, spawn_output_index,
}
use argent.Artifact.Spawns.Outputs.{SpawnIndex, empty_index}
use argent.Artifact.Spawns.{
  index_spawn_outputs, index_params, verify_index_param, verify_spawn_output_index_params,
  verify_spawn_template_params, verify_param_subject, verify_spawn_param_subjects,
  verify_entry_spawns, is_spawn_purpose,
}
use argent.Artifact.Spawns.Subjects.{purpose_eqb, purpose_eqb_index}
use argent.Artifact.Spawns.Index.{Declared, Distinct, Source, index_spawns-Run}

-- The spawn declarations of an entry and the hidden parameters that speak of them.
pub record IsSpawnMetadata {T : Type 0} (entry : EntryArtifact T) : Type 0 where
  pub distinct : Pairwise Distinct entry.spawns
  pub inhabited : (s : SpawnArtifact) → In s entry.spawns → s.outputs ≢ []
  pub numbered :
      (s : SpawnArtifact) (k : ℕ) (o : SpawnOutputArtifact)
      → In s entry.spawns
      → get_elem? s.outputs k ≡ some o
      → o.group_index ≡ k
  pub handles :
      (s : SpawnArtifact) (k l : ℕ) (o p : SpawnOutputArtifact)
      → In s entry.spawns
      → get_elem? s.outputs k ≡ some o
      → get_elem? s.outputs l ≡ some p
      → o.name ≡ p.name
      → k ≡ l
  pub index_param :
      (s : SpawnArtifact) (k : ℕ) (o : SpawnOutputArtifact)
      → In s entry.spawns
      → get_elem? s.outputs k ≡ some o
      → length (index_params entry (spawn_actor s.name o.name o.actor)) ≡ 1
  pub index_subject :
      (p : HiddenParamArtifact T)
      → In p entry.hidden_params
      → p.purpose ≡ spawn_output_index
      → (s : SpawnArtifact) × (o : SpawnOutputArtifact) × In s entry.spawns
        × In o s.outputs
        × (p.subject ≡ spawn_actor s.name o.name o.actor)
  pub spawn_subject :
      (p : HiddenParamArtifact T) (spawn handle a : Text)
      → In p entry.hidden_params
      → p.subject ≡ spawn_actor spawn handle a
      → (is_spawn_purpose p.purpose ≡ true)
        × ((s : SpawnArtifact) × (o : SpawnOutputArtifact) × In s entry.spawns
            × In o s.outputs
            × (s.name ≡ spawn)
            × (o.name ≡ handle)
            × (o.actor ≡ a))

module _ {T : Type 0} (entry : EntryArtifact T) (index : SpawnIndex) where
  abbrev pub IndexedOnce : (Text × Text) × SpawnOutputArtifact → Type 0
  IndexedOnce ((spawn, handle), o) =
      length (index_params entry (spawn_actor spawn handle o.actor)) ≡ 1

  index_params_ok :
      verify_spawn_output_index_params entry index ≡ ok tt → All IndexedOnce index.outputs
  unfolding verify_spawn_output_index_params verify_index_param
  index_params_ok h =
      (each_ok (verify_index_param entry) IndexedOnce index.outputs (λ e.
          ground
            (arith, ==_iff (length (index_params entry (spawn_actor e.0.0 e.0.1 e.1.actor))) 1))).0
        h

  -- What the loop over the hidden parameters checks of each.
  abbrev pub SubjectMatches : HiddenParamArtifact T → Type 0
  SubjectMatches p =
      ((spawn handle a : Text)
        → p.subject ≡ spawn_actor spawn handle a
        → (is_spawn_purpose p.purpose ≡ true)
          × ((o : SpawnOutputArtifact) × (get (spawn, handle) index.outputs ≡ some o)
              × (o.actor ≡ a)))
      × (p.purpose ≡ spawn_output_index
          → (spawn : Text) × (handle : Text) × (a : Text) × (p.subject
              ≡ spawn_actor spawn handle a))

  subject_ok : (p : HiddenParamArtifact T) → verify_param_subject index p ≡ ok tt → SubjectMatches p
  unfolding verify_param_subject
  subject_ok p h = (
    λ spawn handle a e. elim (Option-cases (get (spawn, handle) index.outputs)) [
      | inl gone ↦ absurd (ground arith)
      | inr (o, found) ↦
          let both : (is_spawn_purpose p.purpose ≡ true) × (eqb a o.actor ≡ true) = ground arith in
          (both.0, (o, found, sym ((eqb_iff a o.actor).0 both.1)))
    ],
    λ e. let is_index = (purpose_eqb_index p.purpose).1 e in is_spawn p.subject refl is_index,
  )
    where
      is_spawn :
          (s : HiddenParamSubjectArtifact)
          → p.subject ≡ s
          → purpose_eqb p.purpose spawn_output_index ≡ true
          → (spawn : Text) × (handle : Text) × (a : Text) × (p.subject ≡ spawn_actor spawn handle a)
      is_spawn (spawn_actor spawn handle a) e i = (spawn, handle, a, e)
      is_spawn s e i = absurd (ground arith)

  -- The loop over all hidden parameters.
  subjects_ok :
      verify_spawn_param_subjects entry index ≡ ok tt → All SubjectMatches entry.hidden_params
  unfolding verify_spawn_param_subjects
  subjects_ok h =
      each-All (verify_param_subject index) SubjectMatches entry.hidden_params subject_ok h

-- On success, the entry has the spawn metadata that the documentation of `verify_entry_spawns`
-- describes: distinct spawns with numbered outputs, exactly one index parameter for every output, and
-- no parameter that speaks of an output that is not declared.
pub verify_entry_spawns-IsSpawnMetadata :
    {T : Type 0} (entry : EntryArtifact T)
    → verify_entry_spawns entry ≡ ok tt
    → IsSpawnMetadata entry
unfolding verify_entry_spawns index_spawn_outputs
verify_entry_spawns-IsSpawnMetadata entry h =
    let (index, indexed, h') = bind_ok (index_spawn_outputs entry) _ tt h in
    let steps =
      (then_ok (verify_spawn_output_index_params entry index) (
          verify_spawn_template_params entry index >>= λ v.
          verify_spawn_param_subjects entry index)).0
        h' in
    let last =
      (then_ok (verify_spawn_template_params entry index)
          (verify_spawn_param_subjects entry index)).0
        steps.1 in
    let run = index_spawns-Run [] [] entry.spawns empty_index index indexed in
    let once = index_params_ok entry index steps.0 in
    let matches = subjects_ok entry index last.1 in
    let find_source =
      λ (k : Text × Text) (v : SpawnOutputArtifact) (e : get k index.outputs ≡ some v).
        let source : Source entry.spawns k v = elim (run.only k v e) [ inl e' ↦ cc | inr s ↦ s ] in
        source in
    record {
      distinct = run.distinct;
      inhabited = λ s m. (All_at (Declared index) entry.spawns run.declared m).0;
      numbered = λ s k o m e. ((All_at (Declared index) entry.spawns run.declared m).1 k o e).0;
      handles = λ s k l o p m e e' same.
          let declared = (All_at (Declared index) entry.spawns run.declared m).1 in
          let (g, f) = declared k o e in
          let (g', f') = declared l p e' in let one : o ≡ p = ground arith in ground arith;
      index_param = λ s k o m e.
          let f = ((All_at (Declared index) entry.spawns run.declared m).1 k o e).1 in
          All_at (IndexedOnce entry index) index.outputs once
            (In-of_get (s.name, o.name) o index.outputs f);
      index_subject = λ p m e.
          let (spawned, is_index) =
            All_at (SubjectMatches entry index) entry.hidden_params matches m in
          let (spawn, handle, a, sub) = is_index e in
          let (_, (o, found, is_a)) = spawned spawn handle a sub in
          let (s, in_s, in_o, key) = find_source (spawn, handle) o found in
          (s, o, in_s, in_o, ground arith);
      spawn_subject = λ p spawn handle a m sub.
          let (spawned, _) = All_at (SubjectMatches entry index) entry.hidden_params matches m in
          let (purpose, (o, found, is_a)) = spawned spawn handle a sub in
          let (s, in_s, in_o, key) = find_source (spawn, handle) o found in
          (purpose, (s, o, in_s, in_o, sym (ap (λ k. k.0) key), sym (ap (λ k. k.1) key), is_a));
    }
