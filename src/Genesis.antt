-- ===== src/Genesis.antt =====
-- crates/argent-genesis: proofs that a covenant ID commits to the outputs of its genesis.
pub mod Consensus
pub mod Preimage
mod Tests
