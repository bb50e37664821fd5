-- ===== src/Artifact/Frames.antt =====
-- crates/argent-artifact/src/template_frames.rs: the frame that the compiled template of an actor
-- leaves around its state.
pub mod Unambiguous
use argent.Base.{
  ℕ, ◌+◌, ◌^◌, Bool, true, false, ◌&&◌, ◌||◌, ◌==◌, ltb, leb, Option, none, some, List, [], ◌∷◌,
  take, drop, length, if◌then◌else◌, Text, Bytes, Result, ok, err, ◌>>=◌, Done, each,
}
use argent.Collections.Slices.{starts_with, ends_with, sort_by}
use argent.Artifact.Sil.{SilAbi}
use argent.Artifact.Schema.{Artifact, ActorArtifact}

pub record TemplateFrameLengths : Type 0 where
  pub prefix : ℕ
  pub state : ℕ
  pub suffix : ℕ
  pub total : ℕ

pub data TemplateFrameVerificationError : Type 0 where
  missing_contract : (actor contract : Text) → TemplateFrameVerificationError
  invalid_state_span :
      (actor contract : Text) (offset state_len total_len : ℕ) → TemplateFrameVerificationError
  ambiguous :
      (first_actor : Text) (first_frame : TemplateFrameLengths) (second_actor : Text)
      (second_frame : TemplateFrameLengths)
      → TemplateFrameVerificationError

pub record ActorFrame : Type 0 where
  pub actor : Text
  pub prefix : Bytes
  pub state_len : ℕ
  pub suffix : Bytes
  pub total_len : ℕ

unfoldable pub lengths : ActorFrame → TemplateFrameLengths
lengths f = record {
  prefix = length f.prefix;
  state = f.state_len;
  suffix = length f.suffix;
  total = f.total_len;
}

unfoldable pub conflicts_with : ActorFrame → ActorFrame → Bool
conflicts_with f g =
    f.total_len == g.total_len
    && (starts_with f.prefix g.prefix || starts_with g.prefix f.prefix)
    && (ends_with f.suffix g.suffix || ends_with g.suffix f.suffix)

-- `usize::checked_add`, on 64 bits.
abbrev pub checked_add : ℕ → ℕ → Option ℕ
checked_add a b = if ltb (a + b) (2 ^ 64) then some (a + b) else none

-- `offset.checked_add(state_len).filter(|state_end| *state_end <= total_len)`.
abbrev pub state_end : ℕ → ℕ → ℕ → Option ℕ
state_end offset state_len total_len = elim (checked_add offset state_len) [
  | none ↦ none
  | some end ↦ if leb end total_len then some end else none
]

module _ (S : SilAbi) where
  unfoldable pub extract_frame :
      ActorArtifact S.TypeArtifact
      → S.SilContractArtifact
      → Result ActorFrame TemplateFrameVerificationError
  extract_frame actor contract =
      let offset = S.state_offset contract in
      let state_len = S.state_len contract in
      let bytecode = S.bytecode contract in
      elim (state_end offset state_len (length bytecode)) [
        | none ↦
            err
              (invalid_state_span actor.name actor.abi.contract offset state_len (length bytecode))
        | some end ↦ ok (record {
          actor = actor.name;
          prefix = take offset bytecode;
          state_len = state_len;
          suffix = drop end bytecode;
          total_len = length bytecode;
        })
      ]

  -- The frame of one actor: the closure that `verify` maps over the actors.
  unfoldable pub frame_of :
      S.SilAbiArtifact
      → ActorArtifact S.TypeArtifact
      → Result ActorFrame TemplateFrameVerificationError
  unfolding extract_frame
  frame_of sil_abi actor = elim (S.contract sil_abi actor.abi.contract) [
    | none ↦ err (missing_contract actor.name actor.abi.contract)
    | some contract ↦ extract_frame actor contract
  ]

  -- `map(...).collect::<Result<Vec<_>, _>>()`.
  unfoldable pub frames_of :
      S.SilAbiArtifact
      → List (ActorArtifact S.TypeArtifact)
      → Result (List ActorFrame) TemplateFrameVerificationError
  unfolding frame_of
  frames_of sil_abi [] = ok []
  frames_of sil_abi (actor ∷ rest) =
      frame_of sil_abi actor >>= λ frame. frames_of sil_abi rest >>= λ frames. ok (frame ∷ frames)

-- The inner loop of `verify`, and the outer one.
unfoldable pub compare_frames : ActorFrame → ActorFrame → Result Done TemplateFrameVerificationError
unfolding conflicts_with
compare_frames first second =
    if conflicts_with first second
    then err (ambiguous first.actor (lengths first) second.actor (lengths second))
    else ok tt

unfoldable pub compare_all : List ActorFrame → Result Done TemplateFrameVerificationError
unfolding compare_frames
compare_all [] = ok tt
compare_all (first ∷ rest) = each (compare_frames first) rest >>= λ u. compare_all rest

unfoldable pub verify_template_frames :
    {S : SilAbi} → Artifact S → Result Done TemplateFrameVerificationError
unfolding frames_of compare_all
verify_template_frames {S} artifact =
    frames_of S artifact.sil_abi (sort_by (λ actor. actor.name) artifact.argent.actors)
    >>= λ frames. compare_all frames
