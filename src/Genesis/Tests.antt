-- ===== src/Genesis/Tests.antt =====
-- A composed proof over a small hash, and instances of the theorems.
use argent.Base.{ℕ, ◌+◌, ◌≡◌, refl, ◌↔◌, ◌==◌, ==_iff, List, [], ◌∷◌, length, ok}
use argent.Genesis.Consensus.{Consensus}
use argent.Genesis.Preimage.{IndexedGenesisOutput, ConsensusGenesisProof, compose, verify}
use argent.Genesis.Preimage.Verified.{IsGroup, verify_iff, compose-verify}

-- Numbers for all external types; the hash adds the outpoint and the number of outputs.
abbrev small_consensus : Consensus
small_consensus = record {
  Hash = ℕ;
  ScriptPublicKey = ℕ;
  TransactionOutpoint = ℕ;
  TransactionOutput = ℕ × ℕ;
  new_output = λ v s. (v, s);
  covenant_id = λ o os. o + length os;
  hash_eqb = λ a b. a == b;
  hash_eqb_iff = ==_iff;
}

abbrev two_outputs : List (IndexedGenesisOutput small_consensus)
two_outputs =
    record { index = 0; value = 1000; script_public_key = 81 }
    ∷ record { index = 2; value = 3000; script_public_key = 82 }
    ∷ []

abbrev two_proof : ConsensusGenesisProof small_consensus
two_proof = record { authorizing_outpoint = 7; claimed_covenant_id = 9; outputs = two_outputs }

two_composed : compose small_consensus 7 two_outputs ≡ ok two_proof
unfolding compose
two_composed = refl

abbrev nine : ℕ
nine = 9

verify_iff_example : (verify small_consensus two_proof nine ≡ ok tt) ↔ (
    IsGroup small_consensus two_outputs
    × (two_proof.claimed_covenant_id ≡ two_proof.claimed_covenant_id)
    × (two_proof.claimed_covenant_id ≡ nine))
verify_iff_example = verify_iff small_consensus two_proof nine

compose-verify_example :
    (two_proof.authorizing_outpoint ≡ two_proof.authorizing_outpoint)
    × (two_outputs ≡ two_outputs)
    × ((expected : ℕ)
        → (verify small_consensus two_proof expected ≡ ok tt)
          ↔ (two_proof.claimed_covenant_id ≡ expected))
compose-verify_example = compose-verify small_consensus 7 two_outputs two_proof two_composed
