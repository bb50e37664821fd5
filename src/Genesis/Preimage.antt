-- ===== src/Genesis/Preimage.antt =====
-- crates/argent-genesis/src/preimage.rs: composition and verification of the consensus preimage of a
-- covenant ID.
pub mod Verified
use argent.Base.{ℕ, Bool, not, leb, List, [], ◌∷◌, map, if◌then◌else◌, Result, ok, err, ◌>>=◌, Done}
use argent.Genesis.Consensus.{Consensus}

module _ (C : Consensus) where
  pub record IndexedGenesisOutput : Type 0 where
    pub index : ℕ
    pub value : ℕ
    pub script_public_key : C.ScriptPublicKey

  pub record ConsensusGenesisProof : Type 0 where
    pub authorizing_outpoint : C.TransactionOutpoint
    pub claimed_covenant_id : C.Hash
    pub outputs : List IndexedGenesisOutput

  pub data GenesisProofError : Type 0 where
    empty_outputs : GenesisProofError
    output_indices_not_strictly_increasing : (previous current : ℕ) → GenesisProofError
    claimed_covenant_id_mismatch : (claimed computed : C.Hash) → GenesisProofError
    expected_covenant_id_mismatch : (expected computed : C.Hash) → GenesisProofError

  abbrev pub transaction_output : IndexedGenesisOutput → C.TransactionOutput
  transaction_output o = C.new_output o.value o.script_public_key

  unfoldable pub check_pair :
      IndexedGenesisOutput → IndexedGenesisOutput → Result Done GenesisProofError
  check_pair previous current =
      if leb current.index previous.index
      then err (output_indices_not_strictly_increasing previous.index current.index)
      else ok tt

  -- The loop over `outputs.windows(2)`.
  unfoldable pub check_windows : List IndexedGenesisOutput → Result Done GenesisProofError
  unfolding check_pair
  check_windows [] = ok tt
  check_windows (previous ∷ []) = ok tt
  check_windows (previous ∷ current ∷ rest) =
      check_pair previous current >>= λ u. check_windows (current ∷ rest)

  unfoldable pub check_output_order : List IndexedGenesisOutput → Result Done GenesisProofError
  unfolding check_windows
  check_output_order [] = err empty_outputs
  check_output_order (o ∷ rest) = check_windows (o ∷ rest)

  unfoldable pub compute_covenant_id :
      C.TransactionOutpoint → List IndexedGenesisOutput → Result C.Hash GenesisProofError
  unfolding check_output_order
  compute_covenant_id authorizing_outpoint outputs = check_output_order outputs >>= λ u.
      ok (C.covenant_id authorizing_outpoint (map (λ o. (o.index, transaction_output o)) outputs))

  unfoldable pub compose :
      C.TransactionOutpoint
      → List IndexedGenesisOutput
      → Result ConsensusGenesisProof GenesisProofError
  unfolding compute_covenant_id
  compose authorizing_outpoint outputs = compute_covenant_id authorizing_outpoint outputs >>= λ id.
      ok (record {
        authorizing_outpoint = authorizing_outpoint;
        claimed_covenant_id = id;
        outputs = outputs;
      })

  unfoldable pub computed_covenant_id : ConsensusGenesisProof → Result C.Hash GenesisProofError
  unfolding compute_covenant_id
  computed_covenant_id proof = compute_covenant_id proof.authorizing_outpoint proof.outputs

  unfoldable pub check_consistency : ConsensusGenesisProof → Result Done GenesisProofError
  unfolding computed_covenant_id
  check_consistency proof = computed_covenant_id proof >>= λ computed.
      if not (C.hash_eqb computed proof.claimed_covenant_id)
      then err (claimed_covenant_id_mismatch proof.claimed_covenant_id computed)
      else ok tt

  unfoldable pub verify : ConsensusGenesisProof → C.Hash → Result Done GenesisProofError
  unfolding check_consistency
  verify proof expected = check_consistency proof >>= λ u.
      if not (C.hash_eqb proof.claimed_covenant_id expected)
      then err (expected_covenant_id_mismatch expected proof.claimed_covenant_id)
      else ok tt
