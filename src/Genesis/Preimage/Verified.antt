-- ===== src/Genesis/Preimage/Verified.antt =====
-- crates/argent-genesis/src/preimage.rs: what a verified proof says, and that a composed proof verifies.
use argent.Base.{ℕ, ◌<◌, ◌≡◌, ◌≢◌, refl, ap, ◌↔◌, List, [], ◌∷◌, map, All, arith, ok}
use argent.Collections.Slices.{Pairwise}
use argent.Genesis.Consensus.{Consensus}
use argent.Genesis.Preimage.{
  IndexedGenesisOutput, ConsensusGenesisProof, transaction_output, check_pair, check_windows,
  check_output_order, compute_covenant_id, compose, computed_covenant_id, check_consistency, verify,
}

module _ (C : Consensus) where
  abbrev pub Before : IndexedGenesisOutput C → IndexedGenesisOutput C → Type 0
  Before a b = a.index < b.index

  -- The outputs are a nonempty list with increasing indices.
  abbrev pub IsGroup : List (IndexedGenesisOutput C) → Type 0
  IsGroup outputs = (outputs ≢ []) × Pairwise Before outputs

  All-Before :
      (a b : IndexedGenesisOutput C) (os : List (IndexedGenesisOutput C))
      → Before a b
      → All (Before b) os
      → All (Before a) os
  All-Before a b [] h k = tt
  All-Before a b (o ∷ os) h k = (omega (arith, h, k.0), All-Before a b os h k.1)

  check_windows_ok :
      (os : List (IndexedGenesisOutput C)) → (check_windows C os ≡ ok tt) ↔ Pairwise Before os
  unfolding check_windows check_pair
  check_windows_ok [] = (λ h. tt, λ h. refl)
  check_windows_ok (a ∷ []) = (λ h. (tt, tt), λ h. refl)
  check_windows_ok (a ∷ b ∷ os) =
      let rest = check_windows_ok (b ∷ os) in
      (
        λ h.
            let both : Before a b × (check_windows C (b ∷ os) ≡ ok tt) = ground arith in
            let later = rest.0 both.1 in ((both.0, All-Before a b os both.0 later.0), later),
        λ p. let later = rest.1 p.1 in let first = p.0.0 in ground (arith, first, later),
      )

  check_output_order_ok :
      (os : List (IndexedGenesisOutput C)) → (check_output_order C os ≡ ok tt) ↔ IsGroup os
  unfolding check_output_order
  check_output_order_ok [] = (λ h. cc, λ h. absurd (h.0 refl))
  check_output_order_ok (o ∷ os) =
      (λ h. (λ e. cc, (check_windows_ok (o ∷ os)).0 h), λ h. (check_windows_ok (o ∷ os)).1 h.1)

  abbrev pub preimage : List (IndexedGenesisOutput C) → List (ℕ × C.TransactionOutput)
  preimage os = map (λ o. (o.index, transaction_output C o)) os

  -- A proof verifies against an ID exactly if its outputs are a genesis group, the hash of its preimage
  -- is the ID that it claims, and that ID is the expected one.
  pub verify_iff :
      (proof : ConsensusGenesisProof C) (expected : C.Hash)
      → (verify C proof expected ≡ ok tt) ↔ (
          IsGroup proof.outputs
          × (C.covenant_id proof.authorizing_outpoint (preimage proof.outputs)
              ≡ proof.claimed_covenant_id)
          × (proof.claimed_covenant_id ≡ expected))
  unfolding verify check_consistency computed_covenant_id compute_covenant_id
  verify_iff proof expected = ground (
    arith,
    check_output_order_ok proof.outputs,
    C.hash_eqb_iff proof.claimed_covenant_id expected,
    C.hash_eqb_iff (C.covenant_id proof.authorizing_outpoint (preimage proof.outputs))
        proof.claimed_covenant_id,
  )

  -- A composed proof keeps its preimage, and verifies against exactly the ID that it claims.
  pub compose-verify :
      (outpoint : C.TransactionOutpoint) (os : List (IndexedGenesisOutput C))
      (proof : ConsensusGenesisProof C)
      → compose C outpoint os ≡ ok proof
      → (proof.authorizing_outpoint ≡ outpoint)
        × (proof.outputs ≡ os)
        × ((expected : C.Hash)
            → (verify C proof expected ≡ ok tt) ↔ (proof.claimed_covenant_id ≡ expected))
  unfolding compose compute_covenant_id
  compose-verify outpoint os proof h =
      let id = C.covenant_id outpoint (preimage os) in
      let parts : (check_output_order C os ≡ ok tt)
          × (proof ≡ record {
            authorizing_outpoint = outpoint;
            claimed_covenant_id = id;
            outputs = os;
          }) =
        ground arith in
      (
        ap (λ p. p.authorizing_outpoint) parts.1,
        ap (λ p. p.outputs) parts.1,
        λ expected. rw parts.1 (
            let v =
              verify_iff
                (record { authorizing_outpoint = outpoint; claimed_covenant_id = id; outputs = os })
                expected in
            (λ e. (v.0 e).2, λ e. v.1 ((check_output_order_ok os).0 parts.0, refl, e))),
      )
