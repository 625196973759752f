-- ===== src/Actor.antt =====
-- rust/engine/crates/app_core/src/engine/actor: the actor that owns the engine. Its messages, its
-- state and its steps are here by file of the source; what the steps keep is in the later modules.
pub mod Operation
pub mod Core
pub mod Protocol
pub mod State
pub mod Generations
pub mod Prepare
pub mod Completion
pub mod Worker
pub mod Process
pub mod Handle
pub mod Ledger
pub mod Refinement
pub mod Promise
pub mod Staleness
