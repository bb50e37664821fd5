-- ===== src/Artifact/PlanCheck/HandleParts.antt =====
-- crates/argent-artifact/src/lib.rs: what the parts of `verify_actor_type_handle` ensure.
use argent.Base.{
  ◌≡◌, sym, ap, true, Option, none, some, List, ◌++◌, length, take, drop, All_at, In, Text, Bytes,
  Result, ok, err, bind_ok, each-All,
}
use argent.Collections.Order.{eqb, eqb_iff, bytes_ord}
use argent.Artifact.Sil.{SilAbi, SilPlan, SilPlanLaws}
use argent.Artifact.Digest.{Digest}
use argent.Artifact.Schema.{Artifact, ActorArtifact, ArgentStateArtifact}
use argent.Artifact.Schema.Plan.{
  TemplatePlanArtifact, TemplateReceiptArtifact, RuntimeStatePlanArtifact,
  RuntimeFieldRolePlanArtifact,
}
use argent.Artifact.PlanError.{HandleMessage, outside_script}
use argent.Artifact.PlanCheck.Handle.{
  ok_or, mismatch, source_state, context_fields, first_names, plan_lookup,
  fixed_runtime_context_value, check_handle_state, check_handle_fields, check_handle_template,
  map_err, check_context_script, holds, check_commitment, check_commitments,
}
use argent.Artifact.PlanCheck.Outcomes.{
  SameLayout, ensure_ok, ok_inj, ok_or_ok, find-In, texts_eqb_iff, append-drop-of_starts_with,
  layout_eqb-SameLayout,
}

module _ (S : SilAbi) (P : SilPlan S) (L : SilPlanLaws S P) (D : Digest)
    (plan : TemplatePlanArtifact) (artifact : Artifact S) (t : TemplateReceiptArtifact) where
  pub map_err_ok :
      {A : Type 0} (message : Text → HandleMessage) (r : Result A Text) (a : A)
      → map_err S P D plan artifact t message r ≡ ok a
      → r ≡ ok a
  map_err_ok message (ok b) a h = cc
  map_err_ok message (err e) a h = cc

  pub holds_lem :
      (o : Option Bytes) (b : Bytes) → holds S P D plan artifact t o b ≡ true → o ≡ some b
  holds_lem none b h = cc
  holds_lem (some c) b h = ap some ((eqb_iff c b).0 h)

  abbrev pub Exposed : Type 0
  Exposed =
      (actor : ActorArtifact S.TypeArtifact) × In actor artifact.argent.actors
      × (actor.name ≡ t.actor)
      × (source_state artifact.argent.state_expansions actor.state ≡ t.actor_type_handle.state)

  pub check_handle_state-Exposed : check_handle_state S P D plan artifact t ≡ ok tt → Exposed
  unfolding check_handle_state
  check_handle_state-Exposed h =
      let found = bind_ok _ _ _ h in
      let actor = found.0 in
      let here =
        find-In (λ actor. eqb actor.name t.actor) artifact.argent.actors actor
          (ok_or_ok _ _ _ found.1) in
      (
        actor,
        here.0,
        (eqb_iff actor.name t.actor).0 here.1,
        (eqb_iff (source_state artifact.argent.state_expansions actor.state)
              t.actor_type_handle.state).0
            (ensure_ok _ _ found.2),
      )

  abbrev pub Split : Option RuntimeStatePlanArtifact → List (Text × S.TypeArtifact) → Type 0
  Split runtime_plan fields =
      let names = t.actor_type_handle.context_fields in
      (names ≡ context_fields runtime_plan)
      × (first_names (take (length names) fields) ≡ names)
      × ((state : ArgentStateArtifact S.TypeArtifact) × In state artifact.argent.states
          × (state.name ≡ t.actor_type_handle.state)
          × SameLayout (drop (length names) fields) state.fields)

  pub check_handle_fields-Split :
      (runtime_plan : Option RuntimeStatePlanArtifact) (fields : List (Text × S.TypeArtifact))
      → check_handle_fields S P D plan artifact t runtime_plan fields ≡ ok tt
      → Split runtime_plan fields
  unfolding check_handle_fields
  check_handle_fields-Split runtime_plan fields h =
      let names = t.actor_type_handle.context_fields in
      let named = bind_ok _ _ _ h in
      let led = bind_ok _ _ _ named.2 in
      let found = bind_ok _ _ _ led.2 in
      let state = found.0 in
      let here =
        find-In (λ state. eqb state.name t.actor_type_handle.state) artifact.argent.states state
          (ok_or_ok _ _ _ found.1) in
      (
        (texts_eqb_iff names (context_fields runtime_plan)).0 (ensure_ok _ _ named.1),
        (texts_eqb_iff (first_names (take (length names) fields)) names).0 (ensure_ok _ _ led.1),
        (
          state,
          here.0,
          (eqb_iff state.name t.actor_type_handle.state).0 here.1,
          layout_eqb-SameLayout S P L (drop (length names) fields) state.fields
              (ensure_ok _ _ found.2),
        ),
      )

  abbrev pub Extended : S.SilContractArtifact → Bytes → Type 0
  Extended contract script =
      let handle = t.actor_type_handle.template in
      (sil_prefix : Bytes) × (sil_state : Bytes) × (P.script_parts contract
        ≡ some (sil_prefix, sil_state, handle.suffix))
      × (handle.prefix ≡ sil_prefix ++ script)
      × (handle.hash ≡ P.template_hash_of handle.prefix handle.suffix)

  pub check_handle_template-Extended :
      (contract : S.SilContractArtifact) (script : Bytes)
      → check_handle_template S P D plan artifact t contract ≡ ok script
      → Extended contract script
  unfolding check_handle_template
  check_handle_template-Extended contract script h =
      let handle = t.actor_type_handle.template in
      let found =
        bind_ok (ok_or (mismatch S P D plan artifact t outside_script) (P.script_parts contract)) _
          script h in
      let parts = found.0 in
      let starts = bind_ok _ _ _ found.2 in
      let ends = bind_ok _ _ _ starts.2 in
      let hashed = bind_ok _ _ _ ends.2 in
      let suffix : handle.suffix ≡ parts.2 =
        (eqb_iff handle.suffix parts.2).0 (ensure_ok _ _ ends.1) in
      let script_eq : drop (length parts.0) handle.prefix ≡ script =
        ok_inj (drop (length parts.0) handle.prefix) script hashed.2 in
      (
        parts.0,
        parts.1,
        rw suffix (ok_or_ok _ _ _ found.1),
        rw (sym script_eq)
            (append-drop-of_starts_with handle.prefix parts.0 (ensure_ok _ _ starts.1)),
        (eqb_iff handle.hash (P.template_hash_of handle.prefix handle.suffix)).0
            (ensure_ok _ _ hashed.1),
      )

  abbrev pub Canonical : List (Text × S.TypeArtifact) → Bytes → P.Values → Type 0
  Canonical fields script values =
      (P.decode_runtime_state_script artifact.sil_abi t.actor_type_handle.state fields script
        ≡ ok values)
      × (P.encode_runtime_state_script artifact.sil_abi t.actor_type_handle.state fields values
          ≡ ok script)

  pub check_context_script-Canonical :
      (fields : List (Text × S.TypeArtifact)) (script : Bytes) (values : P.Values)
      → check_context_script S P D plan artifact t fields script ≡ ok values
      → Canonical fields script values
  unfolding check_context_script
  check_context_script-Canonical fields script values h =
      let decoded = bind_ok _ _ _ h in
      let encoded = bind_ok _ _ _ decoded.2 in
      let same = bind_ok _ _ _ encoded.2 in
      let values_eq : decoded.0 ≡ values = cc in
      let script_eq : encoded.0 ≡ script = (eqb_iff encoded.0 script).0 (ensure_ok _ _ same.1) in
      (
        rw (sym values_eq) (map_err_ok _ _ _ decoded.1),
        rw (sym values_eq) (rw (sym script_eq) (map_err_ok _ _ _ encoded.1)),
      )

  abbrev pub Commits : P.Values → RuntimeStatePlanArtifact → RuntimeFieldRolePlanArtifact → Type 0
  Commits values runtime_state field =
      (expected : Bytes) × (fixed_runtime_context_value D (plan_lookup plan) runtime_state
          field.name field.role
        ≡ ok expected)
      × (P.bytes_of values field.name ≡ some expected)

  pub check_commitment-Commits :
      (values : P.Values) (runtime_state : RuntimeStatePlanArtifact)
      (field : RuntimeFieldRolePlanArtifact)
      → check_commitment S P D plan artifact t values runtime_state field ≡ ok tt
      → Commits values runtime_state field
  unfolding check_commitment
  check_commitment-Commits values runtime_state field h =
      let fixed = bind_ok _ _ _ h in
      (fixed.0, fixed.1, holds_lem (P.bytes_of values field.name) fixed.0 (ensure_ok _ _ fixed.2))

  pub check_commitments-Commits :
      (values : P.Values) (runtime_plan : Option RuntimeStatePlanArtifact)
      (runtime_state : RuntimeStatePlanArtifact) (field : RuntimeFieldRolePlanArtifact)
      → check_commitments S P D plan artifact t values runtime_plan ≡ ok tt
      → runtime_plan ≡ some runtime_state
      → In field runtime_state.field_roles
      → Commits values runtime_state field
  unfolding check_commitments
  check_commitments-Commits values none runtime_state field h e i = cc
  check_commitments-Commits values (some planned) runtime_state field h e i =
      let same : planned ≡ runtime_state = cc in
      All_at (Commits values runtime_state) runtime_state.field_roles
        (rw (sym same) (
          each-All (check_commitment S P D plan artifact t values planned) (Commits values planned)
            planned.field_roles (check_commitment-Commits values planned) h))
        i
