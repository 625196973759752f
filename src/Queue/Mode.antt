-- ===== src/Queue/Mode.antt =====
-- rust/engine/crates/app_core/src/data/queue/repeat_mode.rs: the playback mode of the queue.
use mathlib.Core.Bool.{Bool, true, false}

pub data RepeatMode : Type 0 where
  none one all : RepeatMode

-- `mode == RepeatMode::All`.
abbrev pub is_all : RepeatMode → Bool
is_all all = true
is_all _ = false

-- `mode != RepeatMode::None`.
abbrev pub repeats : RepeatMode → Bool
repeats none = false
repeats _ = true

-- `mode == RepeatMode::One`.
abbrev pub is_one : RepeatMode → Bool
is_one one = true
is_one _ = false
