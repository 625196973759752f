-- ===== src/Model.antt =====
-- rust/engine/crates/app_core/src/model and data: the records and enumerations of the engine.
pub mod Media
pub mod Error
pub mod Playback
pub mod Preferences
pub mod Auth
pub mod Backend
pub mod Snapshot
pub mod Page
pub mod Catalog
pub mod Config
pub mod Playlist
pub mod Profile
pub mod Json
pub mod Effect
pub mod Command
pub mod PlatformEvent
pub mod Wire
pub mod Library
pub mod History
