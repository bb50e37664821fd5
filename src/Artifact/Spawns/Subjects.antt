-- ===== src/Artifact/Spawns/Subjects.antt =====
-- crates/argent-artifact/src/lib.rs: the derived equality of hidden parameter subjects and purposes.
use argent.Base.{
  ℕ, ◌≡◌, refl, sym, ap, ◌∙◌, ◌↔◌, ==_iff, some, List, [], ◌∷◌, get_elem?, Bool, true, false, ◌&&◌,
  ◌==◌, arith, Text,
}
use argent.Collections.Order.{eqb, eqb_iff, bytes_ord}
use argent.Artifact.Schema.Entry.{
  HiddenParamSubjectArtifact, actor, observed_actor, spawn_actor, observed_output_field,
  route_family, template_selector, state_expansion, HiddenParamPurposeArtifact, spawn_output_index,
  template_prefix_bytes, template_suffix_bytes, template_prefix_len, template_suffix_len,
  template_hash, route_template_leaf, route_template_proof, route_family_table, route_family_proof,
  state_expansion_preimage, observed_output_field_value, ObservedActorSideArtifact, input, output,
}

abbrev pub side_eqb : ObservedActorSideArtifact → ObservedActorSideArtifact → Bool
side_eqb input input = true
side_eqb output output = true
side_eqb s t = false

abbrev pub subject_eqb : HiddenParamSubjectArtifact → HiddenParamSubjectArtifact → Bool
subject_eqb (actor a) (actor b) = eqb a b
subject_eqb (observed_actor a b c d) (observed_actor e f g h) =
    eqb a e && side_eqb b f && eqb c g && eqb d h
subject_eqb (spawn_actor a b c) (spawn_actor d e f) = eqb a d && eqb b e && eqb c f
subject_eqb (observed_output_field a b c d) (observed_output_field e f g h) =
    eqb a e && eqb b f && eqb c g && eqb d h
subject_eqb (route_family a) (route_family b) = eqb a b
subject_eqb (template_selector a) (template_selector b) = eqb a b
subject_eqb (state_expansion a b c) (state_expansion d e f) = eqb a d && eqb b e && eqb c f
subject_eqb s t = false

-- The position of a purpose in its declaration.
abbrev discriminant : HiddenParamPurposeArtifact → ℕ
discriminant spawn_output_index = 0
discriminant template_prefix_bytes = 1
discriminant template_suffix_bytes = 2
discriminant template_prefix_len = 3
discriminant template_suffix_len = 4
discriminant template_hash = 5
discriminant route_template_leaf = 6
discriminant route_template_proof = 7
discriminant route_family_table = 8
discriminant route_family_proof = 9
discriminant state_expansion_preimage = 10
discriminant observed_output_field_value = 11

abbrev pub purpose_eqb : HiddenParamPurposeArtifact → HiddenParamPurposeArtifact → Bool
purpose_eqb a b = discriminant a == discriminant b

pub purpose_eqb_index :
    (p : HiddenParamPurposeArtifact)
    → (purpose_eqb p spawn_output_index ≡ true) ↔ (p ≡ spawn_output_index)
purpose_eqb_index p = ground arith

pub subject_eqb_spawn :
    (s : HiddenParamSubjectArtifact) (a b c : Text)
    → (subject_eqb s (spawn_actor a b c) ≡ true) ↔ (s ≡ spawn_actor a b c)
subject_eqb_spawn (spawn_actor d e f) a b c = ground (arith, eqb_iff d a, eqb_iff e b, eqb_iff f c)
subject_eqb_spawn (actor d) a b c = ground arith
subject_eqb_spawn (observed_actor d e f g) a b c = ground arith
subject_eqb_spawn (observed_output_field d e f g) a b c = ground arith
subject_eqb_spawn (route_family d) a b c = ground arith
subject_eqb_spawn (template_selector d) a b c = ground arith
subject_eqb_spawn (state_expansion d e f) a b c = ground arith

-- Equality as the tests decide it.
abbrev purposes : List HiddenParamPurposeArtifact
purposes =
    spawn_output_index ∷ template_prefix_bytes ∷ template_suffix_bytes ∷ template_prefix_len
    ∷ template_suffix_len ∷ template_hash ∷ route_template_leaf ∷ route_template_proof
    ∷ route_family_table ∷ route_family_proof ∷ state_expansion_preimage
    ∷ observed_output_field_value ∷ []

discriminant-get_elem? :
    (p : HiddenParamPurposeArtifact) → get_elem? purposes (discriminant p) ≡ some p
discriminant-get_elem? spawn_output_index = refl
discriminant-get_elem? template_prefix_bytes = refl
discriminant-get_elem? template_suffix_bytes = refl
discriminant-get_elem? template_prefix_len = refl
discriminant-get_elem? template_suffix_len = refl
discriminant-get_elem? template_hash = refl
discriminant-get_elem? route_template_leaf = refl
discriminant-get_elem? route_template_proof = refl
discriminant-get_elem? route_family_table = refl
discriminant-get_elem? route_family_proof = refl
discriminant-get_elem? state_expansion_preimage = refl
discriminant-get_elem? observed_output_field_value = refl

pub purpose_eqb_lem : (p q : HiddenParamPurposeArtifact) → purpose_eqb p q ≡ true → p ≡ q
purpose_eqb_lem p q h =
    let same : discriminant p ≡ discriminant q = (==_iff (discriminant p) (discriminant q)).0 h in
    let found : some p ≡ some q =
      sym (discriminant-get_elem? p) ∙ ap (get_elem? purposes) same ∙ discriminant-get_elem? q in
    cc

side_eqb_lem : (s t : ObservedActorSideArtifact) → side_eqb s t ≡ true → s ≡ t
side_eqb_lem input input h = refl
side_eqb_lem output output h = refl
side_eqb_lem input output h = cc
side_eqb_lem output input h = cc

pub subject_eqb_lem : (s t : HiddenParamSubjectArtifact) → subject_eqb s t ≡ true → s ≡ t
subject_eqb_lem (actor a) (actor b) h = ground (arith, eqb_iff a b)
subject_eqb_lem (observed_actor a b c d) (observed_actor e f g i) h =
    ground (arith, eqb_iff a e, side_eqb_lem b f, eqb_iff c g, eqb_iff d i)
subject_eqb_lem (spawn_actor a b c) (spawn_actor d e f) h =
    ground (arith, eqb_iff a d, eqb_iff b e, eqb_iff c f)
subject_eqb_lem (observed_output_field a b c d) (observed_output_field e f g i) h =
    ground (arith, eqb_iff a e, eqb_iff b f, eqb_iff c g, eqb_iff d i)
subject_eqb_lem (route_family a) (route_family b) h = ground (arith, eqb_iff a b)
subject_eqb_lem (template_selector a) (template_selector b) h = ground (arith, eqb_iff a b)
subject_eqb_lem (state_expansion a b c) (state_expansion d e f) h =
    ground (arith, eqb_iff a d, eqb_iff b e, eqb_iff c f)
subject_eqb_lem s t h = cc
