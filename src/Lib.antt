-- ===== src/Lib.antt =====
-- Argent compiles actor programs to Silverscript contracts. An actor's contract must know the
-- templates of the actors that it consumes and emits; route planning decides which commitments every
-- actor carries, and the portable artifact records what was compiled, so that a runtime can rebuild
-- the transactions. This library models route planning (src/routing) and the checks of the artifact
-- (crates/argent-artifact), the proof that a covenant ID commits to its genesis
-- (crates/argent-genesis), and the lexer of the source language (src/compiler/syntax).
--
-- The parts and their files:
--   Base: the names that all files share, lists under native indices, Rust's Result and its loops.
--   Collections: BTreeSet and BTreeMap as lists in the order of an Ord, slices, a stable sort.
--   Routing/Graph: src/routing/graph.rs, RouteGraph with add_actor, add_emit, add_consume and
--     add_emit_clique. Graph/Build: what every operation keeps. Graph/Built: any sequence of them.
--   Routing/Needs: needs of the same file. A round of its loop is `visit`; the rounds are counted
--     before the loop starts, one for every initial entry of the stack and every edge, since only the
--     first visit of an actor pushes its edges. Needs/Fuel shows that they suffice, Needs/Invariant
--     and Needs/Correct what the loop returns.
--   Routing/Forest: src/routing/commitment.rs, CommitmentForest with is_valid_cut, open and pack.
--     A child list is a data type of its own (Nodes). Forest/Paths, Forest/Validity, Forest/Moves.
--   Routing/Commitment: the planner of the same file. Groups: validate_families and validate_cohorts;
--     Locations: build_commitment_forest; Plan: cut_for_needs, expose_actors and commitment_plan. The
--     planner reads the graph and the closures of needs, and the cuts it returns are cuts of the
--     forest that it built. Groups/Defects, FamilyDefects, CohortDefects: the errors of the validation,
--     Plan/Accepted: those of the planner. Plan/Related, Plan/Due, Plan/Minimal: what a cut may select;
--     Plan/Promises and Plan/Correct: what a plan promises, and why it does;
--     Plan/Routed: how the cuts of the two ends of an emit edge fit together.
--   Routing/Components: components of src/routing/graph.rs. An actor enters the pending stack once, so
--     the traversal has as many rounds as the domain has actors. Components/Linked: the neighbors;
--     Components/Explored: one traversal; Components/Discovered: the loop over the domain;
--     Components/Gates: the targets of outside edges; Components/Classes: what is promised.
--   Routing/RoutePlan: src/routing/plan.rs, the selector requirements and the order of members.
--     RoutePlan/Families: route_plan, which hands the components of every domain to the planner as
--     cohorts and families. RoutePlan/Table, RoutePlan/Groups, RoutePlan/Steps: why the planner accepts;
--     RoutePlan/Promises, RoutePlan/Carried: what a plan promises, in terms of graph and domains.
--   Routing/Transition: transition, cut_transition and cut_nodes of src/routing/commitment.rs.
--     Transition/Derivable: when there are operations; Progressed (with Opened and Collected): what the
--     loop collects; Opening, Packing, Carried: the operations as runs of open and pack.
--   Artifact/Schema: crates/argent-artifact/src/lib.rs, the records of an artifact.
--   Artifact/Cardinality, Artifact/Frames, Artifact/Spawns: the checks of cardinality.rs,
--     template_frames.rs and verify_spawns.rs. Spawns/Outputs: the index of the spawned outputs.
--   Artifact/Identity: computed_id_hex, verify_id and actor_interface_fingerprint_hex of lib.rs, over
--     serde_json and blake2b as parameters. Identity/Binding: what an id stands for.
--   Artifact/PlanCheck: TemplatePlanArtifact::check_consistency of lib.rs, a file for each of its phases
--     (Templates, Families, Tables, Bindings, Proofs, Handle, Recipes, Entries), each with the loops in
--     the order of the source. An index is a BTreeMap from the ids, and Indexed says what it holds.
--     Outcomes, Received, Members, Tabled, Role, Bound, Proved, Rooted, Registry, Handled (with
--     HandleParts) and Exposed say what the checks ensure, Phases and ProofPhases what the phases do,
--     and Consistent puts them together.
--   Artifact/Check: Artifact::check_consistency of lib.rs, the checks of one artifact in their order.
--   Artifact/Merkle, Artifact/RouteProof: the layers, proofs and receipts of route tables in lib.rs.
--     RouteProof/Generated: why a generated proof verifies. RouteProof/Leaves, RouteProof/Verified: what
--     a proof that verifies is.
--   Syntax/Lexer: src/compiler/syntax/lexer.rs. Tokens: its data; Grammar: the words of the language,
--     independently of the lexer; Scans, Bodies, Numbers, Words, Steps: what the loops and one round
--     consume; Sound: the whole loop; NumberValue: parse_number_value. The loop has one round for every
--     byte and one more, and every round but the last consumes a byte. The nesting depth of comments is
--     an i32 there and a number here: a source would need more than 2 ^ 32 bytes to reach its bound.
--   Genesis/Preimage: crates/argent-genesis/src/preimage.rs.
--   Routing/Tests, Routing/PlanTests, Routing/ConstraintTests, Routing/MoveTests,
--     Artifact/Tests, Artifact/ProofTests, Artifact/PlanTests, Artifact/CheckTests, Genesis/Tests,
--     Syntax/Tests: runs on small inputs and instances of the theorems.
--
-- Conventions. A String is its UTF-8 bytes, and a [u8; 32] is the list of its bytes. A failed expect
-- or assertion, or an index out of range, is an outcome of its own: `panic`, `none` or `panicked`.
-- Debug assertions do not branch. A usize is a natural number, and a checked addition is bounded by
-- 2 ^ 64. The layers of a Merkle tree have as many rounds as leaves, and every round halves the layer.
--
-- Parameters: serde_json's reading of a string literal (Syntax/Lexer); the types, lookups, codec and own
-- checks of silverscript-abi (Artifact/Sil, Artifact/Check), with the law that its equality of types is
-- equality; the hash of blake3 with the hex coding of faster-hex (Artifact/Digest), with the laws that
-- a digest has 32 bytes and that decoding reverses encoding; and the types and the covenant hash of
-- kaspa-consensus-core (Genesis/Consensus).
--
-- Not modelled: genesis packages, the runtime, the compiler's parser, model and code generation, and
-- the command line.
pub mod Base
pub mod Collections
pub mod Routing
pub mod Artifact
pub mod Genesis
pub mod Syntax
