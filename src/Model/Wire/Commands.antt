-- ===== src/Model/Wire/Commands.antt =====
-- rust/engine/crates/app_core/src/model/command/types.rs: the wire names of the commands.
use media_app.Prelude.{String, false, none, List, [], ◌∷◌}
use media_app.Model.Command.{EngineCommandType}
use media_app.Model.Config.{default_config}
use media_app.Model.Effect.{F32}
use media_app.Model.Json.{end}
use media_app.Model.Page.{default_page}
use media_app.Model.Preferences.{system_default}
use media_app.Model.Wire.Table.{lookup_wire}

-- The `f32` 1.0.
abbrev pub f32_one : F32
f32_one = 0x3f800000

-- `EngineCommandType::as_wire`.
unfoldable pub as_wire : EngineCommandType → String
as_wire EngineCommandType.bootstrap = "bootstrap"
as_wire EngineCommandType.play = "play"
as_wire EngineCommandType.pause = "pause"
as_wire EngineCommandType.skip_previous = "skip_previous"
as_wire EngineCommandType.skip_next = "skip_next"
as_wire (EngineCommandType.start_session _) = "start_session"
as_wire EngineCommandType.end_session = "end_session"
as_wire EngineCommandType.refresh_backend_status = "refresh_backend_status"
as_wire (EngineCommandType.search_catalog _ _) = "search"
as_wire (EngineCommandType.browse_catalog _ _ _) = "browse"
as_wire (EngineCommandType.load_next_catalog_page _) = "load_next_catalog_page"
as_wire (EngineCommandType.load_discovery_feed _ _) = "load_discovery_feed"
as_wire (EngineCommandType.load_for_you_feed _ _) = "load_for_you_feed"
as_wire (EngineCommandType.load_recommendations _ _) = "load_recommendations"
as_wire EngineCommandType.load_next_discovery_page = "load_next_discovery_page"
as_wire EngineCommandType.load_history_settings = "load_history_settings"
as_wire (EngineCommandType.update_history_settings _) = "update_history_settings"
as_wire (EngineCommandType.list_history _) = "list_history"
as_wire EngineCommandType.load_next_history_page = "load_next_history_page"
as_wire (EngineCommandType.delete_history_entry _) = "delete_history_entry"
as_wire EngineCommandType.clear_history = "clear_history"
as_wire (EngineCommandType.save_track _) = "save_track"
as_wire (EngineCommandType.remove_saved_track _) = "remove_saved_track"
as_wire (EngineCommandType.list_saved_tracks _) = "list_saved_tracks"
as_wire EngineCommandType.load_next_saved_tracks_page = "load_next_saved_tracks_page"
as_wire (EngineCommandType.like_track _) = "like_track"
as_wire (EngineCommandType.unlike_track _) = "unlike_track"
as_wire (EngineCommandType.list_liked_tracks _) = "list_liked_tracks"
as_wire EngineCommandType.load_next_liked_tracks_page = "load_next_liked_tracks_page"
as_wire (EngineCommandType.create_playlist _) = "create_playlist"
as_wire (EngineCommandType.update_playlist _) = "update_playlist"
as_wire (EngineCommandType.delete_playlist _) = "delete_playlist"
as_wire (EngineCommandType.list_playlists _) = "list_playlists"
as_wire EngineCommandType.load_next_playlists_page = "load_next_playlists_page"
as_wire (EngineCommandType.add_playlist_track _ _) = "add_playlist_track"
as_wire (EngineCommandType.remove_playlist_track _ _) = "remove_playlist_track"
as_wire (EngineCommandType.list_playlist_tracks _ _) = "list_playlist_tracks"
as_wire EngineCommandType.load_next_playlist_tracks_page = "load_next_playlist_tracks_page"
as_wire (EngineCommandType.reorder_playlist_tracks _ _ _) = "reorder_playlist_tracks"
as_wire EngineCommandType.get_account = "get_account"
as_wire EngineCommandType.delete_account = "delete_account"
as_wire (EngineCommandType.list_device_sessions _) = "list_device_sessions"
as_wire EngineCommandType.load_next_device_sessions_page = "load_next_device_sessions_page"
as_wire (EngineCommandType.revoke_device_session _) = "revoke_device_session"
as_wire (EngineCommandType.set_speed _) = "set_speed"
as_wire (EngineCommandType.seek _) = "seek"
as_wire (EngineCommandType.update_config _) = "update_config"
as_wire (EngineCommandType.hydrate_theme_preference _) = "hydrate_theme_preference"
as_wire (EngineCommandType.set_theme_preference _) = "set_theme_preference"
as_wire (EngineCommandType.apply_remote_theme_preference _ _ _) = "apply_remote_theme_preference"
as_wire (EngineCommandType.upsert_profile _) = "upsert_profile"
as_wire EngineCommandType.get_profile = "get_profile"
as_wire (EngineCommandType.update_profile _) = "update_profile"
as_wire EngineCommandType.delete_profile = "delete_profile"
as_wire EngineCommandType.load_profile_preferences = "load_profile_preferences"
as_wire (EngineCommandType.update_profile_preferences _) = "update_profile_preferences"
as_wire (EngineCommandType.voice_play _) = "voice_play"
as_wire EngineCommandType.start_voice_interaction = "start_voice_interaction"
as_wire EngineCommandType.stop_voice_interaction = "stop_voice_interaction"
as_wire (EngineCommandType.process_voice_audio _) = "process_voice_audio"
as_wire (EngineCommandType.play_media_by_id _) = "play_media_by_id"
as_wire (EngineCommandType.play_queue _ _) = "play_queue"
as_wire (EngineCommandType.set_sleep_timer _) = "set_sleep_timer"
as_wire (EngineCommandType.unknown value) = value

-- The arms of `EngineCommandType::from_wire`, in their order, but for the last.
abbrev pub commands : List (String × EngineCommandType)
commands =
    ("bootstrap", EngineCommandType.bootstrap)
    ∷ ("play", EngineCommandType.play)
    ∷ ("pause", EngineCommandType.pause)
    ∷ ("skip_previous", EngineCommandType.skip_previous)
    ∷ ("skip_next", EngineCommandType.skip_next)
    ∷ ("start_session", EngineCommandType.start_session "unknown")
    ∷ ("end_session", EngineCommandType.end_session)
    ∷ ("refresh_backend_status", EngineCommandType.refresh_backend_status)
    ∷ ("search", EngineCommandType.search_catalog "" default_page)
    ∷ ("browse", EngineCommandType.browse_catalog none [] default_page)
    ∷ ("load_next_catalog_page", EngineCommandType.load_next_catalog_page "")
    ∷ ("load_discovery_feed", EngineCommandType.load_discovery_feed [] default_page)
    ∷ ("load_for_you_feed", EngineCommandType.load_for_you_feed [] default_page)
    ∷ ("load_recommendations", EngineCommandType.load_recommendations [] default_page)
    ∷ ("load_next_discovery_page", EngineCommandType.load_next_discovery_page)
    ∷ ("load_history_settings", EngineCommandType.load_history_settings)
    ∷ ("update_history_settings", EngineCommandType.update_history_settings false)
    ∷ ("list_history", EngineCommandType.list_history default_page)
    ∷ ("load_next_history_page", EngineCommandType.load_next_history_page)
    ∷ ("delete_history_entry", EngineCommandType.delete_history_entry "")
    ∷ ("clear_history", EngineCommandType.clear_history)
    ∷ ("save_track", EngineCommandType.save_track "")
    ∷ ("remove_saved_track", EngineCommandType.remove_saved_track "")
    ∷ ("list_saved_tracks", EngineCommandType.list_saved_tracks default_page)
    ∷ ("load_next_saved_tracks_page", EngineCommandType.load_next_saved_tracks_page)
    ∷ ("like_track", EngineCommandType.like_track "")
    ∷ ("unlike_track", EngineCommandType.unlike_track "")
    ∷ ("list_liked_tracks", EngineCommandType.list_liked_tracks default_page)
    ∷ ("load_next_liked_tracks_page", EngineCommandType.load_next_liked_tracks_page)
    ∷ (
      "create_playlist",
      EngineCommandType.create_playlist (record { name = ""; description = none }),
    )
    ∷ (
      "update_playlist",
      EngineCommandType.update_playlist
          (record { id = ""; name = ""; description = none; expected_revision = 0 }),
    )
    ∷ ("delete_playlist", EngineCommandType.delete_playlist "")
    ∷ ("list_playlists", EngineCommandType.list_playlists default_page)
    ∷ ("load_next_playlists_page", EngineCommandType.load_next_playlists_page)
    ∷ ("add_playlist_track", EngineCommandType.add_playlist_track "" "")
    ∷ ("remove_playlist_track", EngineCommandType.remove_playlist_track "" "")
    ∷ ("list_playlist_tracks", EngineCommandType.list_playlist_tracks "" default_page)
    ∷ ("load_next_playlist_tracks_page", EngineCommandType.load_next_playlist_tracks_page)
    ∷ ("reorder_playlist_tracks", EngineCommandType.reorder_playlist_tracks "" [] 0)
    ∷ ("get_account", EngineCommandType.get_account)
    ∷ ("delete_account", EngineCommandType.delete_account)
    ∷ ("list_device_sessions", EngineCommandType.list_device_sessions default_page)
    ∷ ("load_next_device_sessions_page", EngineCommandType.load_next_device_sessions_page)
    ∷ ("revoke_device_session", EngineCommandType.revoke_device_session "")
    ∷ ("set_speed", EngineCommandType.set_speed f32_one)
    ∷ ("seek", EngineCommandType.seek 0)
    ∷ ("update_config", EngineCommandType.update_config default_config)
    ∷ ("hydrate_theme_preference", EngineCommandType.hydrate_theme_preference system_default)
    ∷ ("set_theme_preference", EngineCommandType.set_theme_preference system_default)
    ∷ (
      "apply_remote_theme_preference",
      EngineCommandType.apply_remote_theme_preference system_default "" 0,
    )
    ∷ ("upsert_profile", EngineCommandType.upsert_profile none)
    ∷ ("get_profile", EngineCommandType.get_profile)
    ∷ ("update_profile", EngineCommandType.update_profile (record { display_name = none }))
    ∷ ("delete_profile", EngineCommandType.delete_profile)
    ∷ ("load_profile_preferences", EngineCommandType.load_profile_preferences)
    ∷ ("update_profile_preferences", EngineCommandType.update_profile_preferences end)
    ∷ ("voice_play", EngineCommandType.voice_play "")
    ∷ ("start_voice_interaction", EngineCommandType.start_voice_interaction)
    ∷ ("stop_voice_interaction", EngineCommandType.stop_voice_interaction)
    ∷ ("process_voice_audio", EngineCommandType.process_voice_audio [])
    ∷ ("play_media_by_id", EngineCommandType.play_media_by_id "")
    ∷ ("play_queue", EngineCommandType.play_queue [] 0)
    ∷ ("set_sleep_timer", EngineCommandType.set_sleep_timer none)
    ∷ []

-- `EngineCommandType::from_wire`.
unfoldable pub from_wire : String → EngineCommandType
from_wire value = lookup_wire commands (EngineCommandType.unknown value) value
