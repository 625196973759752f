-- ===== src/Engine/Controls.antt =====
-- rust/engine/crates/app_core/src/engine/core/controls.rs and core.rs: the player controls and the
-- projection of the queue.
use media_app.Prelude.{Bool, true, false, not, ◌&&◌, length}
use media_app.Model.Playback.{PlaybackState, playing, recovering, buffering, PlayerControls}
use media_app.Model.Snapshot.{EngineSnapshot, can_dispatch}
use media_app.Queue.{QueueManager, has_current, has_next}
use media_app.Engine.State.{Engine}

-- `matches!(state, Playing | Recovering | Buffering)`.
abbrev pub is_playing : PlaybackState → Bool
is_playing playing = true
is_playing recovering = true
is_playing buffering = true
is_playing _ = false

unfoldable pub derive_controls : QueueManager → EngineSnapshot → PlayerControls
derive_controls q s = record {
  play_pause = record {
    is_visible = true;
    is_enabled = can_dispatch s;
    is_active = is_playing s.playback_state;
  };
  skip_next = record {
    is_visible = true;
    is_enabled = can_dispatch s && has_next q;
    is_active = false;
  };
  skip_prev = record {
    is_visible = true;
    is_enabled = can_dispatch s && has_current q;
    is_active = false;
  };
  show_play_icon = not (is_playing s.playback_state);
}

unfoldable pub apply_queue_projection : QueueManager → EngineSnapshot → EngineSnapshot
apply_queue_projection q s = record s {
  queue_size = length q.items;
  queue_current_index = q.current_index;
  queue_generation = q.generation;
}

unfoldable pub refresh_controls : Engine → Engine
unfolding apply_queue_projection
refresh_controls e = record e {
  snapshot =
      apply_queue_projection e.queue
        (record e.snapshot { controls = derive_controls e.queue e.snapshot });
}
