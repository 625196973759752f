-- ===== src/Lib.antt =====
-- The media engine of PandaWave: the Rust crate rust/engine/crates/app_core, which the Android app
-- hosts through rust/engine/crates/ffi.
--
-- The engine keeps a snapshot, which the host renders, a queue, and the state of playback recovery.
-- It takes commands and platform events one at a time; each gives a new engine and a list of effects
-- that the host carries out on its player. The paths below are in rust/engine/crates/app_core/src.
--
-- Prelude: Boolean tests, lists, options, the arithmetic of `u64`, texts and the computations with floats
--   (`f32` and `f64` are bit patterns, rounded as IEEE 754 says), for all other files.
-- Model: the data of model/, data/session.rs and data/repository/types.rs. Model/Snapshot is
--   model/snapshot.rs; Model/Wire has the wire names of commands, events and states.
-- Queue: data/queue/manager.rs. A method that changes the queue returns it.
-- StateMachine: engine/state_machine.rs.
-- Retry: networking/retrying_audio_source_client.rs. Its loop has fuel, one more than the retries
--   allowed; Retry/Loop shows that it does not run out. A `Duration` is its nanoseconds.
-- Reconciler: services/playlist_reconciler.rs. The loop over the server's pages has fuel, since a
--   server may answer with a next page for ever; Reconciler/Pages shows which fuel is enough.
-- Engine: engine/core.rs and its submodules. Engine/State is the state; Engine/Projections is
--   `sync_auth_state_projection` of engine/core.rs; Engine/Source is engine/core/effects.rs;
--   Engine/Controls is engine/core/controls.rs; Engine/Settle, Transport, Play, Preferences and Reduce are
--   the middle of `dispatch_command` in engine/core/dispatch_command.rs; Engine/Observe and PlatformEvents
--   are engine/core/dispatch_platform_event.rs. `self` is passed as an `Engine`; what lies behind the
--   engine's ports answers as a `Ports`, which is fixed during one dispatch.
-- Library: engine/core/library.rs. Library/Commands has the commands; the `LibraryPort` is an argument.
-- History: engine/core/history.rs, of which the listen tracker, the automatic record and the buffer of a
--   listener who is not logged in. History/Service is what the history service is asked for an account;
--   the `HistoryPort` is an argument, which answers by the number of the request.
-- Middleware: middleware/pipeline.rs and middleware/standard.rs, and `dispatch_command` as a whole: the
--   pipeline, the projection of the authentication state, Engine's `reduce`, the history record.
-- Actor: engine/actor. Actor/Operation is operation.rs, Actor/Protocol is protocol.rs, Actor/Handle is
--   handle.rs, Actor/State, Generations and Process are state.rs, and Actor/Prepare, Completion and Worker are
--   state/operations.rs. The actor runs any engine that has the methods of Actor/Core, in which `none`
--   is a panic. A step takes one message of one lane; the lanes' messages come in any order, so that the
--   order in which `select!` polls them is one case. Actor/Ledger is the abstract view of it: which
--   commands are still owed an answer, and which have one. The worker of an operation gives one
--   completion, which comes back as a message.
-- Tests: small runs of the definitions, and the theorems at concrete inputs.
--
-- `usize` and `u64` are natural numbers with their saturation written out; where the actor's command
-- ids or generations matter, a hypothesis keeps them below the limit. Logging has no counterpart.
--
-- Not modelled: the commands of catalog, feeds, history, playlists, account, profile, voice
-- capture and sleep timer, for which `arm` gives no draft; the projection and the history record after
-- a platform event; engine/persistence; the networking adapters (networking/canopy,
-- networking/remote_repository.rs), which only translate to a generated client; the encrypted session
-- store; voice; threads, channels and timers of the runtime; and the bindings in rust/engine/crates/ffi.
-- The fields of the snapshot and of the engine that only those parts use are left out.
pub mod Prelude
pub mod Model
pub mod Queue
pub mod StateMachine
pub mod Retry
pub mod Reconciler
pub mod Engine
pub mod Library
pub mod History
pub mod Middleware
pub mod Actor
pub mod Tests
