-- ===== src/Middleware/Throttle.antt =====
-- rust/engine/crates/app_core/src/middleware/standard.rs: the throttling middleware over a sequence of
-- commands. The time it reads is that of the engine's last change.
use media_app.Prelude.{
  ℕ, ◌+◌, ◌%◌, ◌^◌, ◌<◌, ◌≤◌, ◌≡◌, String, false, none, some, List, arith, eq_iff,
}
use media_app.Model.Command.{EngineCommandType}
use media_app.Model.Error.{EngineError}
use media_app.Model.Wire.Commands.{as_wire}
use media_app.Model.Auth.{AuthState}
use media_app.Model.Snapshot.{with_busy, with_error}
use media_app.Engine.State.{Engine}
use media_app.Engine.Projections.{sync_auth_state_projection-same}
use media_app.Middleware.{Printer, check, last_time, rejected, should_throttle, throttling}

-- A command that the throttle lets through is let through at the next check only once the time has
-- advanced by the interval, where the sum of its time and the interval fits `u64`.
pub throttle_spaces :
    (print : Printer) (interval : ℕ) (times : List (String × ℕ)) (e f : Engine)
    → (c : EngineCommandType) → e.snapshot.updated_at_epoch_millis + interval < 2 ^ 64
    → (check print (throttling interval times) e c).0 ≡ none
    → (check print (check print (throttling interval times) e c).1 f c).0 ≡ none
    → e.snapshot.updated_at_epoch_millis + interval ≤ f.snapshot.updated_at_epoch_millis
unfolding check should_throttle last_time
throttle_spaces print interval times e f c fits p q =
    let sum : (e.snapshot.updated_at_epoch_millis + interval) % 2 ^ 64
        ≡ e.snapshot.updated_at_epoch_millis + interval =
      omega arith in
    ground (arith, sum, eq_iff (as_wire c) (as_wire c))

-- A command that the throttle rejects leaves the time as it was, so that it is rejected again,
-- however late it comes.
pub throttled_again :
    (print : Printer) (interval : ℕ) (times : List (String × ℕ)) (e : Engine)
    → (auth : AuthState) (c : EngineCommandType) (error : EngineError)
    → (check print (throttling interval times) e c).0 ≡ some error
    → (check print (check print (throttling interval times) e c).1 (rejected auth error c e).0 c).0
      ≡ some error
unfolding check should_throttle rejected
throttled_again print interval times e auth c error h =
    let s = with_busy false (with_error (some error) e.snapshot) in
    let same = sync_auth_state_projection-same auth (record e { snapshot = s }) in
    ground (arith, same, h)
