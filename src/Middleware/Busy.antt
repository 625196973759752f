-- ===== src/Middleware/Busy.antt =====
-- rust/engine/crates/app_core/src/middleware/standard.rs and engine/core/dispatch_command.rs: what the
-- validation and the recovery middleware do around a dispatch.
use media_app.Prelude.{
  ◌≡◌, refl, true, false, none, some, List, [], ◌∷◌, ◌++◌, ◌⊎◌, inl, inr, Bool-cases, if◌then◌else◌,
  arith, is_some, false,
}
use media_app.Model.Command.{EngineCommandType}
use media_app.Model.Error.{skipped_media}
use media_app.Queue.{next_item}
use media_app.Engine.State.{Engine}
use media_app.Actor.Core.{EngineOutcome}
use media_app.Middleware.{
  Middleware, Printer, after_dispatch, before_dispatch, is_recoverable, recover, validation,
  recovery, logger, telemetry, focus, analytics, throttling,
}

-- The pipeline runs in order: a command passes both halves, or stops in the first one that has an
-- error for it, and the second half is then as it was.
pub before_dispatch-append :
    (print : Printer) (ms ns : List Middleware) (e : Engine) (c : EngineCommandType)
    → (((before_dispatch print ms e c).0 ≡ none)
        × (before_dispatch print (ms ++ ns) e c ≡ (
          (before_dispatch print ns e c).0,
          (before_dispatch print ms e c).1 ++ (before_dispatch print ns e c).1,
        )))
      ⊎ ((is_some (before_dispatch print ms e c).0 ≡ true)
          × (before_dispatch print (ms ++ ns) e c
              ≡ ((before_dispatch print ms e c).0, (before_dispatch print ms e c).1 ++ ns)))
unfolding before_dispatch
before_dispatch-append print [] ns e c = inl (refl, refl)
before_dispatch-append print (m ∷ ms) ns e c = grind (arith, before_dispatch-append print ms ns e c)

-- A network error that the recovery skipped is no network error any more.
after_dispatch-settled :
    (ms : List Middleware) (e : Engine) (outcome : EngineOutcome)
    → is_recoverable outcome.snapshot.last_error ≡ false
    → after_dispatch ms e outcome ≡ (e, outcome)
unfolding after_dispatch recover
after_dispatch-settled [] e outcome h = refl
after_dispatch-settled (recovery ∷ ms) e outcome h =
    rw (h, if◌then◌else◌) (after_dispatch-settled ms e outcome h)
after_dispatch-settled (logger ∷ ms) e outcome h = after_dispatch-settled ms e outcome h
after_dispatch-settled (telemetry ∷ ms) e outcome h = after_dispatch-settled ms e outcome h
after_dispatch-settled (focus ∷ ms) e outcome h = after_dispatch-settled ms e outcome h
after_dispatch-settled (analytics ∷ ms) e outcome h = after_dispatch-settled ms e outcome h
after_dispatch-settled (validation ∷ ms) e outcome h = after_dispatch-settled ms e outcome h
after_dispatch-settled (throttling n times ∷ ms) e outcome h = after_dispatch-settled ms e outcome h

recover-settled :
    (e : Engine) (outcome : EngineOutcome)
    → is_recoverable outcome.snapshot.last_error ≡ true
    → is_recoverable (recover e outcome).1.snapshot.last_error ≡ false
unfolding recover is_recoverable
recover-settled e outcome h = rw (h, if◌then◌else◌) refl

recover-skips :
    (e : Engine) (outcome : EngineOutcome)
    → is_recoverable outcome.snapshot.last_error ≡ true
    → ((recover e outcome).0 ≡ record e { queue = (next_item e.queue).0 })
      × ((recover e outcome).1.effects ≡ outcome.effects)
      × ((recover e outcome).1.snapshot.last_error
          ≡ some (skipped_media "Skipped track due to network error"))
unfolding recover
recover-skips e outcome h = rw (h, if◌then◌else◌) (refl, refl, refl)

-- However many recovery middlewares a pipeline has, they leave an outcome and its engine as they are,
-- or skip once: then the outcome had a network error that is not fatal, the queue of the engine is
-- the one that next gives, and neither the snapshot of the engine nor the effects show anything of it.
pub after_dispatch-skips_once :
    (ms : List Middleware) (e : Engine) (outcome : EngineOutcome)
    → (after_dispatch ms e outcome ≡ (e, outcome))
      ⊎ ((is_recoverable outcome.snapshot.last_error ≡ true)
          × ((after_dispatch ms e outcome).0 ≡ record e { queue = (next_item e.queue).0 })
          × ((after_dispatch ms e outcome).1.effects ≡ outcome.effects)
          × ((after_dispatch ms e outcome).1.snapshot.last_error
              ≡ some (skipped_media "Skipped track due to network error")))
unfolding after_dispatch
after_dispatch-skips_once [] e outcome = inl refl
after_dispatch-skips_once (recovery ∷ ms) e outcome =
    elim (Bool-cases (is_recoverable outcome.snapshot.last_error)) [
      | inr h ↦ inl (after_dispatch-settled (recovery ∷ ms) e outcome h)
      | inl h ↦
          let r = recover e outcome in
          let once = after_dispatch-settled ms r.0 r.1 (recover-settled e outcome h) in
          let skips = recover-skips e outcome h in
          inr (h, rw once skips.0, rw once skips.1, rw once skips.2)
    ]
after_dispatch-skips_once (logger ∷ ms) e outcome = after_dispatch-skips_once ms e outcome
after_dispatch-skips_once (telemetry ∷ ms) e outcome = after_dispatch-skips_once ms e outcome
after_dispatch-skips_once (focus ∷ ms) e outcome = after_dispatch-skips_once ms e outcome
after_dispatch-skips_once (analytics ∷ ms) e outcome = after_dispatch-skips_once ms e outcome
after_dispatch-skips_once (validation ∷ ms) e outcome = after_dispatch-skips_once ms e outcome
after_dispatch-skips_once (throttling n times ∷ ms) e outcome =
    after_dispatch-skips_once ms e outcome
