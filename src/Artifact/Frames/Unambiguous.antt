-- ===== src/Artifact/Frames/Unambiguous.antt =====
-- crates/argent-artifact/src/template_frames.rs: no script can be taken for two actors of an artifact
-- that passed the check.
use argent.Base.{
  ◌+◌, ◌-◌, ◌≤◌, ◌≡◌, refl, ap, ◌∙◌, subst, ◌↔◌, inl, inr, true, false, ==_iff, leb→le, List, [],
  ◌∷◌, ◌++◌, take, drop, length, length-append, length-drop, length-take-of_le, Bytes, ok, each,
  each_ok, then_ok, bind_ok, All, arith, Option-cases, append_assoc,
}
use argent.Collections.Slices.{
  starts_with, ends_with, sort_by, Pairwise, Pairwise-sort_by, All-sort_by, starts_with_comparable,
  ends_with_comparable, starts_with-append, ends_with-append,
}
use argent.Artifact.Sil.{SilAbi}
use argent.Artifact.Schema.{Artifact, ActorArtifact}
use argent.Artifact.Frames.{
  ActorFrame, conflicts_with, state_end, extract_frame, frame_of, frames_of, compare_frames,
  compare_all, verify_template_frames,
}

-- A script that an observer who knows only the frame may take for the actor's.
pub record Fits (f : ActorFrame) (script : Bytes) : Type 0 where
  pub total : length script ≡ f.total_len
  pub begins : starts_with script f.prefix ≡ true
  pub ends : ends_with script f.suffix ≡ true

-- A script that fits two frames makes them conflict.
Fits-conflicts_with :
    (f g : ActorFrame) (script : Bytes) → Fits f script → Fits g script → conflicts_with f g ≡ true
unfolding conflicts_with
Fits-conflicts_with f g script x y = ground (
  arith,
  starts_with_comparable script f.prefix g.prefix x.begins y.begins,
  ends_with_comparable script f.suffix g.suffix x.ends y.ends,
  ==_iff f.total_len g.total_len,
  x.total,
  y.total,
)

abbrev NoConflict : ActorFrame → ActorFrame → Type 0
NoConflict f g = conflicts_with f g ≡ false

compare_frames_ok : (f g : ActorFrame) → (compare_frames f g ≡ ok tt) ↔ NoConflict f g
unfolding compare_frames
compare_frames_ok f g = ground arith

compare_all_ok : (fs : List ActorFrame) → (compare_all fs ≡ ok tt) ↔ Pairwise NoConflict fs
unfolding compare_all
compare_all_ok [] = (λ h. tt, λ h. refl)
compare_all_ok (f ∷ fs) =
    let rest = compare_all_ok fs in
    let both = then_ok (each (compare_frames f) fs) (compare_all fs) in
    let first = each_ok (compare_frames f) (NoConflict f) fs (compare_frames_ok f) in
    (λ h. (first.0 (both.0 h).0, rest.0 (both.0 h).1), λ p. both.1 (first.1 p.0, rest.1 p.1))

module _ (S : SilAbi) (abi : S.SilAbiArtifact) where
  abbrev pub Actor : Type 0
  Actor = ActorArtifact S.TypeArtifact

  -- The frames of two actors, where both have one, fit no common script.
  abbrev pub Unambiguous : Actor → Actor → Type 0
  Unambiguous a b =
      (f g : ActorFrame)
      → frame_of S abi a ≡ ok f
      → frame_of S abi b ≡ ok g
      → (script : Bytes) → Fits f script
      → Fits g script
      → ⊥

  abbrev pub HasFrame : Actor → Type 0
  HasFrame a = (f : ActorFrame) × (frame_of S abi a ≡ ok f)

  frames_apart :
      (x : Actor) (f : ActorFrame) (actors : List Actor) (fs : List ActorFrame)
      → frame_of S abi x ≡ ok f
      → frames_of S abi actors ≡ ok fs
      → All (NoConflict f) fs
      → All (Unambiguous x) actors
  unfolding frames_of
  frames_apart x f [] fs e h apart = tt
  frames_apart x f (a ∷ actors) fs e h apart =
      let (g, a_g, h') = bind_ok (frame_of S abi a) _ fs h in
      let (gs, rest_gs, done) = bind_ok (frames_of S abi actors) _ fs h' in
      let same : fs ≡ g ∷ gs = ground arith in
      let apart' : All (NoConflict f) (g ∷ gs) = subst (All (NoConflict f)) same apart in
      (
        λ p q ep eq script fits fits'.
            let clash = Fits-conflicts_with p q script fits fits' in ground arith,
        frames_apart x f actors gs e rest_gs apart'.1,
      )

  frames-Unambiguous :
      (actors : List Actor) (fs : List ActorFrame)
      → frames_of S abi actors ≡ ok fs
      → Pairwise NoConflict fs
      → All HasFrame actors × Pairwise Unambiguous actors
  unfolding frames_of
  frames-Unambiguous [] fs h p = (tt, tt)
  frames-Unambiguous (a ∷ actors) fs h p =
      let (g, a_g, h') = bind_ok (frame_of S abi a) _ fs h in
      let (gs, rest_gs, done) = bind_ok (frames_of S abi actors) _ fs h' in
      let same : fs ≡ g ∷ gs = ground arith in
      let p' : Pairwise NoConflict (g ∷ gs) = subst (Pairwise NoConflict) same p in
      let (has, rest) = frames-Unambiguous actors gs rest_gs p'.1 in
      (((g, a_g), has), (frames_apart a g actors gs a_g rest_gs p'.0, rest))

-- If `verify` succeeds, then every actor has a frame, and no script fits the frames of two actors of
-- the artifact.
pub verify_template_frames-Unambiguous :
    {S : SilAbi} (artifact : Artifact S)
    → verify_template_frames artifact ≡ ok tt
    → All (HasFrame S artifact.sil_abi) artifact.argent.actors
      × Pairwise (Unambiguous S artifact.sil_abi) artifact.argent.actors
unfolding verify_template_frames
verify_template_frames-Unambiguous {S} artifact h =
    let abi = artifact.sil_abi in
    let name = λ (actor : Actor S abi). actor.name in
    let (fs, framed, compared) =
      bind_ok (frames_of S abi (sort_by name artifact.argent.actors)) compare_all tt h in
    let (has, apart) =
      frames-Unambiguous S abi (sort_by name artifact.argent.actors) fs framed
        ((compare_all_ok fs).0 compared) in
    (
      (All-sort_by name (HasFrame S abi) artifact.argent.actors).0 has,
      Pairwise-sort_by name (Unambiguous S abi)
          (λ x y u f g ef eg script fits fits'. u g f eg ef script fits' fits)
          artifact.argent.actors apart,
    )

-- A frame is the compiled script without its state, and whatever state of the contract's length stands
-- in the place of the compiled one, the script fits the frame.
pub extract_frame-Fits :
    (S : SilAbi) (actor : ActorArtifact S.TypeArtifact) (contract : S.SilContractArtifact)
    (f : ActorFrame) (state : Bytes)
    → extract_frame S actor contract ≡ ok f
    → length state ≡ f.state_len
    → Fits f ((f.prefix ++ state) ++ f.suffix)
unfolding extract_frame
extract_frame-Fits S actor contract f state e len =
    elim (Option-cases
      (state_end (S.state_offset contract) (S.state_len contract) (length (S.bytecode contract)))) [
        | inl gone ↦ absurd (ground arith)
        | inr (end, found) ↦
            let code = S.bytecode contract in
            let sum : (end ≡ S.state_offset contract + S.state_len contract) × (end ≤ length code) =
              ground (arith, leb→le end (length code)) in
            let is_f : f ≡ record {
              actor = actor.name;
              prefix = take (S.state_offset contract) code;
              state_len = S.state_len contract;
              suffix = drop end code;
              total_len = length code;
            } =
              ground arith in
            record {
              total =
                  let p = ap ActorFrame.prefix is_f in
                  let q = ap ActorFrame.suffix is_f in
                  let t = ap ActorFrame.total_len is_f in
                  let l = ap ActorFrame.state_len is_f in
                  let lp : length f.prefix ≡ S.state_offset contract =
                    ap length p ∙ length-take-of_le (S.state_offset contract) code (omega arith) in
                  let lq : length f.suffix ≡ length code - end =
                    ap length q ∙ length-drop end code in
                  omega (
                    arith,
                    length-append (f.prefix ++ state) f.suffix,
                    length-append f.prefix state,
                  );
              begins =
                  rw (append_assoc f.prefix state f.suffix)
                    (starts_with-append f.prefix (state ++ f.suffix));
              ends = ends_with-append (f.prefix ++ state) f.suffix;
            }
      ]
