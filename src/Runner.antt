-- ===== src/Runner.antt =====
-- How a run finds the chain that it extends: src/internal/scheduler/runner/chain.go.
pub mod Chain
pub mod FullAfter
pub mod Databases
pub mod Names
pub mod Expand
pub mod Strategy
pub mod Run
pub mod Ending
pub mod Outcome
pub mod Base
pub mod Fan
pub mod Examples
