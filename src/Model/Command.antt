-- ===== src/Model/Command.antt =====
-- rust/engine/crates/app_core/src/model/command/types.rs: the commands of the engine.
use media_app.Prelude.{ℕ, String, Bool, Option, List}
use media_app.Model.Config.{EngineConfig}
use media_app.Model.Effect.{F32}
use media_app.Model.Json.{Fields}
use media_app.Model.Page.{EnginePageRequest}
use media_app.Model.Playlist.{EngineCreatePlaylist, EngineUpdatePlaylist}
use media_app.Model.Preferences.{ThemePreference}
use media_app.Model.Profile.{EngineProfileUpdate}

-- The samples of `ProcessVoiceAudio` are the bit patterns of `i16`.
pub data EngineCommandType : Type 0 where
  bootstrap play pause skip_previous skip_next : EngineCommandType
  start_session : String → EngineCommandType
  end_session refresh_backend_status : EngineCommandType
  search_catalog : String → EnginePageRequest → EngineCommandType
  browse_catalog : Option String → List String → EnginePageRequest → EngineCommandType
  load_next_catalog_page : String → EngineCommandType
  load_discovery_feed : List String → EnginePageRequest → EngineCommandType
  load_for_you_feed : List String → EnginePageRequest → EngineCommandType
  load_recommendations : List String → EnginePageRequest → EngineCommandType
  load_next_discovery_page load_history_settings : EngineCommandType
  update_history_settings : Bool → EngineCommandType
  list_history : EnginePageRequest → EngineCommandType
  load_next_history_page : EngineCommandType
  delete_history_entry : String → EngineCommandType
  clear_history : EngineCommandType
  save_track : String → EngineCommandType
  remove_saved_track : String → EngineCommandType
  list_saved_tracks : EnginePageRequest → EngineCommandType
  load_next_saved_tracks_page : EngineCommandType
  like_track : String → EngineCommandType
  unlike_track : String → EngineCommandType
  list_liked_tracks : EnginePageRequest → EngineCommandType
  load_next_liked_tracks_page : EngineCommandType
  create_playlist : EngineCreatePlaylist → EngineCommandType
  update_playlist : EngineUpdatePlaylist → EngineCommandType
  delete_playlist : String → EngineCommandType
  list_playlists : EnginePageRequest → EngineCommandType
  load_next_playlists_page : EngineCommandType
  add_playlist_track : String → String → EngineCommandType
  remove_playlist_track : String → String → EngineCommandType
  list_playlist_tracks : String → EnginePageRequest → EngineCommandType
  load_next_playlist_tracks_page : EngineCommandType
  reorder_playlist_tracks : String → List String → ℕ → EngineCommandType
  get_account delete_account : EngineCommandType
  list_device_sessions : EnginePageRequest → EngineCommandType
  load_next_device_sessions_page : EngineCommandType
  revoke_device_session : String → EngineCommandType
  set_speed : F32 → EngineCommandType
  seek : ℕ → EngineCommandType
  update_config : EngineConfig → EngineCommandType
  hydrate_theme_preference : ThemePreference → EngineCommandType
  set_theme_preference : ThemePreference → EngineCommandType
  apply_remote_theme_preference : ThemePreference → String → ℕ → EngineCommandType
  upsert_profile : Option String → EngineCommandType
  get_profile : EngineCommandType
  update_profile : EngineProfileUpdate → EngineCommandType
  delete_profile load_profile_preferences : EngineCommandType
  update_profile_preferences : Fields → EngineCommandType
  voice_play : String → EngineCommandType
  start_voice_interaction stop_voice_interaction : EngineCommandType
  process_voice_audio : List ℕ → EngineCommandType
  play_media_by_id : String → EngineCommandType
  play_queue : List String → ℕ → EngineCommandType
  set_sleep_timer : Option ℕ → EngineCommandType
  unknown : String → EngineCommandType
