-- ===== src/Engine.antt =====
-- rust/engine/crates/app_core/src/engine/core.rs and its submodules: the engine.
pub mod State
pub mod Projections
pub mod Source
pub mod Controls
pub mod Settle
pub mod Transport
pub mod Play
pub mod Preferences
pub mod Reduce
pub mod Observe
pub mod PlatformEvents
