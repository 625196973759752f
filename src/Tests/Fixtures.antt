-- ===== src/Tests/Fixtures.antt =====
-- The inputs that the tests share: media items, queues, an engine, and ports.
use media_app.Prelude.{
  ℕ, String, true, false, Option, none, some, List, [], ◌∷◌, str_eq, if◌then◌else◌,
}
use media_app.Model.Auth.{AuthState, new_session}
use media_app.Model.Backend.{BackendAvailability}
use media_app.Model.Config.{default_config}
use media_app.Model.Error.{ok}
use media_app.Model.Media.{MediaItem, EnginePlaybackSource}
use media_app.Model.PlatformEvent.{PlaybackObservationPayload}
use media_app.Model.Playback.{
  PlaybackState, RestrictionState, DrivingState, ControlState, PlayerControls,
}
use media_app.Model.Preferences.{default_theme}
use media_app.Model.Snapshot.{EngineSnapshot}
use media_app.Queue.{QueueManager}
use media_app.Queue.Mode.{RepeatMode}
use media_app.Retry.{Answer}
use media_app.Engine.State.{Engine, Ports, default_recovery}
use media_app.Engine.Play.{bare_media}

abbrev pub dawn : MediaItem
dawn = bare_media "dawn"

abbrev pub noon : MediaItem
noon = bare_media "noon"

abbrev pub dusk : MediaItem
dusk = bare_media "dusk"

abbrev pub day : List MediaItem
day = dawn ∷ noon ∷ dusk ∷ []

-- Three items in a repeat mode, with the cursor at an index.
abbrev pub queue_at : RepeatMode → ℕ → QueueManager
queue_at mode i = record {
  items = day;
  current_index = some i;
  shuffle_enabled = false;
  repeat_mode = mode;
  generation = 1;
}

abbrev pub hidden : ControlState
hidden = record { is_visible = false; is_enabled = false; is_active = false }

abbrev pub no_controls : PlayerControls
no_controls = record {
  play_pause = hidden;
  skip_next = hidden;
  skip_prev = hidden;
  show_play_icon = true;
}

-- A snapshot of a session in which "dawn" plays, 40 s of 200 s in.
abbrev pub playing_snapshot : EngineSnapshot
playing_snapshot = record {
  auth_state = AuthState.anonymous;
  playback_state = PlaybackState.playing;
  last_error = none;
  backend_status = none;
  backend_availability = BackendAvailability.connecting;
  media_id = some "dawn";
  title = some "Dawn";
  artist = some "Birds";
  album = none;
  duration_millis = some 200000;
  thumbnail_url = none;
  artwork_id = none;
  artwork_content_hash = none;
  source_uri = none;
  mime_type = none;
  playback_expires_at_epoch_millis = none;
  theme_preference = default_theme;
  playlist_tracks = [];
  restriction_state = RestrictionState.unknown;
  driving_state = DrivingState.unknown;
  updated_at_epoch_millis = 1000;
  last_progress_tick_epoch_millis = 1000;
  metadata_revision = 1;
  session = some (new_session "session-1" "ana" 1);
  discovery_results = [];
  for_you_results = [];
  recommendations_results = [];
  playback_speed = 0x3f800000;
  position_millis = 40000;
  is_busy = false;
  controls = no_controls;
  queue_size = 3;
  queue_current_index = some 0;
  queue_generation = 1;
}

-- The engine that plays "dawn" as instance 7.
abbrev pub playing_engine : Engine
playing_engine = record {
  snapshot = playing_snapshot;
  config = default_config;
  queue = queue_at RepeatMode.none 0;
  prefetched_playback = none;
  next_playback_instance_id = 7;
  current_playback_instance_id = some 7;
  pending_seek_target_millis = none;
  recovery = record default_recovery { desired_play_when_ready = true };
  feed_projection_identity = none;
  profile_projection_identity = none;
  playlist_projection_identity = none;
}

abbrev pub last_engine : Engine
last_engine = record playing_engine { queue = queue_at RepeatMode.none 2 }

abbrev pub seeking_engine : Engine
seeking_engine = record playing_engine { pending_seek_target_millis = some 90000 }

abbrev pub noon_source : EnginePlaybackSource
noon_source = record {
  track_id = "noon";
  url = "https://media/noon";
  content_type = "audio/flac";
  codec = "flac";
  duration_millis = 180000;
  expires_at_epoch_millis = 9000;
}

-- An observation of an instance, of a kind, at a position.
abbrev pub observation : ℕ → Option String → Option ℕ → PlaybackObservationPayload
observation instance_id kind position = record {
  version = 1;
  playback_instance_id = instance_id;
  kind = kind;
  position_ms = position;
  decoder = none;
  error_code = none;
  phase = none;
  play_when_ready = none;
  duration_ms = none;
}

-- Ports that know "noon", resolve every item to its source, and read the payloads "first" and
-- "second" as decoder failures of the instances 7 and 8.
abbrev pub ports : Ports
ports = record {
  playback_port = some (λ id. ok noon_source);
  audio_source_client = none;
  get_by_id = λ id. if str_eq id "noon" then some noon else none;
  search = λ query. Answer.err "offline";
  current_auth = media_app.Model.Auth.AuthState.anonymous;
  system_port = none;
  parse_observation = λ text.
      if str_eq text "first"
      then some (observation 7 (some "decoder_failed") none)
      else (if str_eq text "second"
          then some (observation 8 (some "decoder_failed") none)
          else none);
  parse_error = λ text. none;
  parse_duration_ms = λ text. none;
}
