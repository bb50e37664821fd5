-- ===== src/Genesis/Consensus.antt =====
-- The types and the hash that crates/argent-genesis takes from kaspa-consensus-core: the crate is not
-- part of the repository.
use argent.Base.{ℕ, ◌≡◌, ◌↔◌, Bool, true, List}

pub record Consensus : Type 1 where
  pub Hash : Type 0
  pub ScriptPublicKey : Type 0
  pub TransactionOutpoint : Type 0
  pub TransactionOutput : Type 0
  pub new_output : ℕ → ScriptPublicKey → TransactionOutput
  pub covenant_id : TransactionOutpoint → List (ℕ × TransactionOutput) → Hash
  pub hash_eqb : Hash → Hash → Bool
  pub hash_eqb_iff : (a b : Hash) → (hash_eqb a b ≡ true) ↔ (a ≡ b)
