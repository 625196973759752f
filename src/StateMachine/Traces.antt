-- ===== src/StateMachine/Traces.antt =====
-- engine/state_machine.rs: the transition diagram of `StateMachine`, and what holds along any
-- sequence of commands and platform events.
use media_app.Prelude.{◌≡◌, ◌≢◌, refl, ◌⊎◌, Bool, true, false, List, [], ◌∷◌, arith}
use media_app.Model.Playback.{
  PlaybackState, idle, playing, paused, buffering, recovering, ended, error,
}
use media_app.Model.Command.{EngineCommandType}
use media_app.Model.PlatformEvent.{
  EnginePlatformEventType, media_loaded, media_error, suspend_to_ram,
}
use media_app.StateMachine.{next_state_from_command, next_state_from_platform_event}

-- What moves the machine.
pub data Input : Type 0 where
  command : EngineCommandType → Input
  event : EnginePlatformEventType → Input

unfoldable pub next_state : PlaybackState → Input → PlaybackState
unfolding next_state_from_command next_state_from_platform_event
next_state s (command c) = next_state_from_command s c
next_state s (event e) = next_state_from_platform_event s e

unfoldable pub run : PlaybackState → List Input → PlaybackState
unfolding next_state
run s [] = s
run s (i ∷ is) = run (next_state s i) is

-- The arrows of the diagram.
infix 40 ◌⟶◌
pub data ◌⟶◌ : PlaybackState → PlaybackState → Type 0 where
  start : idle ⟶ buffering
  retry : error ⟶ buffering
  restart : ended ⟶ buffering
  resume : paused ⟶ playing
  load : buffering ⟶ playing
  recover : recovering ⟶ playing
  reload : error ⟶ playing
  fail_buffering : buffering ⟶ error
  fail_recovering : recovering ⟶ error
  fail_playing : playing ⟶ error
  hold : {s : PlaybackState} → s ≢ paused → s ⟶ paused

ruleset arrows = (
  start, retry, restart, resume, load, recover, reload, fail_buffering, fail_recovering,
  fail_playing, hold,
)

-- Every input leaves the state as it is or follows an arrow of the diagram; none enters
-- `recovering`, `idle` or `ended` from another state.
pub next_state-⟶ : (s : PlaybackState) (i : Input) → (next_state s i ≡ s) ⊎ (s ⟶ next_state s i)
unfolding next_state
next_state-⟶ s (command c) = grind (arith, arrows)
next_state-⟶ s (event e) = grind (arith, arrows)

-- Every arrow of the diagram is taken by some input.
pub ⟶-next_state : {s t : PlaybackState} → s ⟶ t → (i : Input) × (next_state s i ≡ t)
unfolding next_state
⟶-next_state start = (command EngineCommandType.play, refl)
⟶-next_state retry = (command EngineCommandType.play, refl)
⟶-next_state restart = (command EngineCommandType.play, refl)
⟶-next_state resume = (command EngineCommandType.play, refl)
⟶-next_state load = (event media_loaded, refl)
⟶-next_state recover = (event media_loaded, refl)
⟶-next_state reload = (event media_loaded, refl)
⟶-next_state fail_buffering = (event media_error, refl)
⟶-next_state fail_recovering = (event media_error, refl)
⟶-next_state fail_playing = (event media_error, refl)
⟶-next_state (hold {s} h) = (event suspend_to_ram, ground arith)

-- The host is asked to make sound, now or as soon as it can.
abbrev pub wants_sound : PlaybackState → Bool
wants_sound playing = true
wants_sound buffering = true
wants_sound recovering = true
wants_sound _ = false

-- After a pause command or a suspend to RAM no state is left in which sound is wanted.
pub pause_silences :
    (s : PlaybackState)
    → (wants_sound (next_state s (command EngineCommandType.pause)) ≡ false)
      × (wants_sound (next_state s (event suspend_to_ram)) ≡ false)
unfolding next_state
pause_silences s = ground arith

-- Inputs on which sound may start: a play command, a skip back, a loaded source.
abbrev pub starts_sound : Input → Bool
starts_sound (command EngineCommandType.play) = true
starts_sound (command EngineCommandType.skip_previous) = true
starts_sound (event media_loaded) = true
starts_sound _ = false

step_silent :
    (s : PlaybackState) (i : Input)
    → starts_sound i ≡ false
    → wants_sound s ≡ false
    → wants_sound (next_state s i) ≡ false
unfolding next_state
step_silent s (command c) h w = ground arith
step_silent s (event e) h w = ground arith

abbrev pub NoStart : List Input → Type 0
NoStart [] = Unit {0}
NoStart (i ∷ is) = (starts_sound i ≡ false) × NoStart is

-- Without a play command, a skip back or a loaded source, a silent engine stays silent.
pub run_silent :
    (s : PlaybackState) (is : List Input)
    → wants_sound s ≡ false
    → NoStart is
    → wants_sound (run s is) ≡ false
unfolding run
run_silent s [] w h = w
run_silent s (i ∷ is) w h = run_silent (next_state s i) is (step_silent s i h.0 w) h.1
