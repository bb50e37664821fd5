-- ===== src/Artifact.antt =====
-- crates/argent-artifact: the portable artifact and its checks.
pub mod Sil
pub mod Schema
pub mod Cardinality
pub mod Frames
pub mod Spawns
pub mod PlanError
pub mod PlanCheck
pub mod Check
pub mod Identity
pub mod Digest
pub mod Merkle
pub mod RouteProof
mod Tests
mod ProofTests
mod PlanTests
mod CheckTests
