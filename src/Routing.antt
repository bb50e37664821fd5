-- ===== src/Routing.antt =====
-- src/routing: the actor route graph and the commitment planner.
pub mod Graph
pub mod Needs
pub mod Forest
pub mod Commitment
pub mod Transition
pub mod Components
pub mod RoutePlan
mod Tests
mod ConstraintTests
mod MoveTests
mod PlanTests
