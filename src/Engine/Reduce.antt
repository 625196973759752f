-- ===== src/Engine/Reduce.antt =====
-- rust/engine/crates/app_core/src/engine/core/dispatch_command.rs: the middle of
-- `dispatch_command`, on the commands of playback, session, configuration and theme: from the intent to
-- play to `refresh_controls`. The projection of the authentication state before it and the history
-- record and middleware after it are put around it by `dispatch_command` of Middleware. The commands of catalog, feeds, history,
-- library, playlists, account, profile, voice capture and sleep timer have no draft here.
pub mod Effects
pub mod Instances
pub mod Outcomes
pub mod Ordered
pub mod Intent
use media_app.Prelude.{ℕ, Bool, Option, none, some, List, []}
use media_app.Model.Command.{EngineCommandType}
use media_app.Model.Effect.{EngineEffect}
use media_app.Model.Media.{MediaItem}
use media_app.Model.Playback.{PlaybackState}
use media_app.Retry.{Answer}
use media_app.Engine.State.{Engine, Ports, Draft}
use media_app.Engine.Settle.{begin, settle}
use media_app.Engine.Transport.{
  with_next, skip_next, skip_previous, play, seek, set_speed, start_session, end_session,
  refresh_backend_status,
}
use media_app.Engine.Play.{play_media_by_id, play_queue, voice_play}
use media_app.Engine.Preferences.{hydrate_theme, set_theme, apply_remote_theme}

-- `result.unwrap_or_default()`.
abbrev pub or_nil : {E : Type 0} → Answer E (List MediaItem) → List MediaItem
or_nil (Answer.ok items) = items
or_nil (Answer.err e) = []

-- The `match` on the command: the state before, `desired_play_when_ready` before, the time.
unfoldable pub arm : Ports → EngineCommandType → PlaybackState → Bool → ℕ → Draft → Option Draft
arm ports EngineCommandType.bootstrap prev desired now d = some d
arm ports EngineCommandType.play prev desired now d = some (play ports prev now d)
arm ports EngineCommandType.pause prev desired now d = some d
arm ports EngineCommandType.skip_previous prev desired now d =
    some (skip_previous ports desired prev now d)
arm ports EngineCommandType.skip_next prev desired now d = some (skip_next ports desired d)
arm ports (EngineCommandType.start_session user_id) prev desired now d =
    some (start_session user_id now d)
arm ports EngineCommandType.end_session prev desired now d = some (end_session d)
arm ports EngineCommandType.refresh_backend_status prev desired now d =
    some (refresh_backend_status ports d)
arm ports (EngineCommandType.set_speed speed) prev desired now d = some (set_speed speed d)
arm ports (EngineCommandType.seek position) prev desired now d = some (seek position now d)
arm ports (EngineCommandType.update_config config) prev desired now d =
    some (record d { engine = record d.engine { config = config } })
arm ports (EngineCommandType.hydrate_theme_preference theme) prev desired now d =
    some (with_next (hydrate_theme theme d.next_snapshot) d)
arm ports (EngineCommandType.set_theme_preference theme) prev desired now d =
    some (with_next (set_theme theme d.next_snapshot) d)
arm ports (EngineCommandType.apply_remote_theme_preference theme user_id baseline) prev desired now
      d =
    some (with_next (apply_remote_theme theme user_id baseline d.next_snapshot) d)
arm ports (EngineCommandType.voice_play query) prev desired now d =
    some (voice_play ports query (or_nil (ports.search query)) d)
arm ports (EngineCommandType.play_media_by_id media_id) prev desired now d =
    some (play_media_by_id ports media_id d)
arm ports (EngineCommandType.play_queue media_ids start_index) prev desired now d =
    some (play_queue ports media_ids start_index d)
arm ports (EngineCommandType.unknown _) prev desired now d = some d
arm ports _ prev desired now d = none

-- From the intent to play, after `sync_auth_state_projection`, to `refresh_controls`, before the
-- history record.
unfoldable pub reduce : Ports → EngineCommandType → ℕ → Engine → Option (Engine × List EngineEffect)
reduce ports c now e =
    let prev = e.snapshot.playback_state in
    elim (arm ports c prev e.recovery.desired_play_when_ready now (begin c now e)) [
      | none ↦ none
      | some d ↦ some (settle prev d)
    ]
