-- ===== src/Tests/Histories.antt =====
-- Tests of the history, around the snapshot that plays "dawn".
use media_app.Prelude.{
  ◌≡◌, refl, true, false, none, some, [], ◌∷◌, arith, length, ratio_f32, is_blank,
}
use media_app.Model.Auth.{AuthState}
use media_app.Model.Error.{engine_error, network_error, ok}
use media_app.Model.History.{EnginePlaybackRecord}
use media_app.Model.Playback.{PlaybackState}
use media_app.Library.{from_state}
use media_app.History.{
  HistoryState, anonymous, default_buffer, max_history_page_size, truncated, unknown, without_entry,
}
use media_app.History.Service.{HistoryPort}
use media_app.History.Record.{anonymous_entry, maybe_auto_record_history, record_answer}
use media_app.History.Service.Bounds.{IsBounded}
use media_app.History.Record.Bounds.{maybe_auto_record_history-IsBounded}
use media_app.History.Record.Repeats.{SameHistory, checks, marked-checks, record_answer-marks}
use media_app.Tests.Fixtures.{playing_snapshot}

half_of_one : ratio_f32 1 2 ≡ 1056964608
unfolding ratio_f32
half_of_one = refl

third_of_one : ratio_f32 1 3 ≡ 1051372203
unfolding ratio_f32
third_of_one = refl

whole_of_one : ratio_f32 7 7 ≡ 1065353216
unfolding ratio_f32
whole_of_one = refl

-- The instance 7 has played since 1000.
abbrev pub listening : HistoryState
listening = record {
  snapshot = playing_snapshot;
  history_settings = none;
  history_generation = 0;
  history_availability = unknown;
  history_entries = [];
  anonymous_history = default_buffer;
  history_listen = record {
    playback_instance_id = some 7;
    accumulated_playing_millis = 0;
    playing_since_epoch_millis = some 1000;
    recorded_instance_id = none;
  };
  history_projection_owner = some anonymous;
  reconciliation_in_flight = false;
  next_history_record_sequence = 0;
  requests = 0;
  current_playback_instance_id = some 7;
}

abbrev recorded : HistoryState
recorded = record listening {
  history_listen = record listening.history_listen { recorded_instance_id = some 7 };
}

-- After eight seconds the listen is recorded.
abbrev checked : HistoryState
unfolding maybe_auto_record_history
checked = maybe_auto_record_history none 9000 listening

checked_once : (length checked.history_entries ≡ 1) × (checked.history_generation ≡ 1)
unfolding maybe_auto_record_history checked is_blank ratio_f32
checked_once = (refl, refl)

maybe_auto_record_history-IsBounded_example : IsBounded checked
unfolding maybe_auto_record_history checked is_blank ratio_f32
maybe_auto_record_history-IsBounded_example =
    maybe_auto_record_history-IsBounded none 9000 listening (omega arith, omega arith)

marked-checks_example :
    SameHistory recorded
      (checks none ((9000, PlaybackState.playing) ∷ (9500, PlaybackState.paused) ∷ []) recorded)
marked-checks_example =
    marked-checks none 7 ((9000, PlaybackState.playing) ∷ (9500, PlaybackState.paused) ∷ [])
      recorded (refl, refl, refl)

abbrev dawn_listen : EnginePlaybackRecord
dawn_listen = record { track_id = "dawn"; duration_millis = 6000; completion_ratio = 1056964608 }

-- An error of something else is shown.
abbrev troubled : HistoryState
troubled = record listening {
  snapshot = record playing_snapshot {
    last_error = some (engine_error network_error "offline" false);
  };
}

record_answer-marks_example :
    ((record_answer none (ok dawn_listen) troubled).anonymous_history.buffered
      ≡ truncated 50 (anonymous_entry dawn_listen troubled ∷ []))
    × ((record_answer none (ok dawn_listen) troubled).history_entries
        ≡ truncated max_history_page_size (
            anonymous_entry dawn_listen troubled
            ∷ without_entry (anonymous_entry dawn_listen troubled).id []))
    × ((record_answer none (ok dawn_listen) troubled).history_listen.recorded_instance_id ≡ none)
unfolding from_state
record_answer-marks_example = record_answer-marks none dawn_listen troubled refl refl

abbrev ada_auth : AuthState
ada_auth =
    AuthState.authenticated
      (record {
        id = "ada";
        primary_email = "ada@x";
        status = "active";
        created_at_epoch_millis = 1;
      })
      (record {
        id = "s1";
        device_label = "car";
        created_at_epoch_millis = 1;
        last_used_at_epoch_millis = 2;
        expires_at_epoch_millis = 9;
        current = true;
      })

-- The service of "ada", who stays logged in, takes every listen.
abbrev service : HistoryPort
service = record {
  get_settings = λ n identity. record { answer = ok (record { enabled = true }); auth = ada_auth };
  record_listen = λ n identity listen. record { answer = ok true; auth = ada_auth };
}

abbrev logged_in : HistoryState
logged_in = record listening { snapshot = record playing_snapshot { auth_state = ada_auth } }

-- The service is asked for the settings and for the listen.
logged_in_once :
    ((maybe_auto_record_history (some service) 9000 logged_in).requests ≡ 2)
    × (length (maybe_auto_record_history (some service) 9000 logged_in).history_entries ≡ 1)
unfolding maybe_auto_record_history is_blank ratio_f32 from_state
logged_in_once = (refl, refl)
