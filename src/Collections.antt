-- ===== src/Collections.antt =====
-- The ordered collections of Rust's standard library, as far as the sources use them.
pub mod Order
pub mod BTreeSet
pub mod BTreeMap
pub mod Slices
