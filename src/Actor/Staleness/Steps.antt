-- ===== src/Actor/Staleness/Steps.antt =====
-- rust/engine/crates/app_core/src/engine/actor: generations only grow, so that what an authentication
-- change or a later command left behind is never current again.
use mathlib.Core.Path.{subst}
use media_app.Prelude.{
  ℕ, ◌≡◌, refl, sym, Bool, true, false, Option, none, some, List, [], ◌∷◌, arith, if◌then◌else◌,
}
use media_app.Model.Auth.{AuthState}
use media_app.Model.Command.{EngineCommandType}
use media_app.Actor.Core.{EngineCore, EngineOutcome}
use media_app.Actor.Operation.{DomainGenerations, EngineOperation, EngineOperationCompletion}
use media_app.Actor.Protocol.{CommandMessage, EngineInput}
use media_app.Actor.State.{
  ActorState, accept_command, emit_outcome, next_sequence, observe_clock, publish_snapshot,
}
use media_app.Actor.Generations.{bump_identity_generations}
use media_app.Actor.Prepare.{prepare_operation}
use media_app.Actor.Completion.{
  complete, process_operation_completion, redispatch, spawn_operation_worker,
}
use media_app.Actor.Process.{
  StepResult, running, finish, go_on, inline_command, launch, process_command, process_control,
  process_mutation, process_next, process_tick, run_command, run_input, run_prepared,
}
use media_app.Actor.Staleness.{AreWords, Grows, prepare-Grows}

-- The generations after a step with which the actor goes on.
unfoldable pub Advances : {E : Type 0} → DomainGenerations → StepResult E → Type 0
Advances g (running a) = Grows g a.generations
Advances g _ = Unit {0}

module _ {E : Type 0} where
  pub if-Advances :
      (b : Bool) (g : DomainGenerations) (s t : StepResult E)
      → Advances g s
      → Advances g t
      → Advances g (if b then s else t)
  if-Advances true g s t x y = x
  if-Advances false g s t x y = y

  accept-generations :
      (m : CommandMessage) (a : ActorState E) → (accept_command m a).generations ≡ a.generations
  unfolding accept_command
  accept-generations m a = ground arith

  pub stays :
      (a b : ActorState E)
      → AreWords a.generations
      → b.generations ≡ a.generations
      → Grows a.generations b.generations
  stays a b r h = ground arith

module _ {E : Type 0} (core : EngineCore E) where
  complete-generations :
      (id : ℕ) (d : E × EngineOutcome) (a : ActorState E)
      → ((complete core id d a).generations ≡ a.generations)
  unfolding complete publish_snapshot emit_outcome
  complete-generations id d a = ground arith

  finish-Advances :
      (id : ℕ) (d : Option (E × EngineOutcome)) (g : DomainGenerations) (a : ActorState E)
      → Grows g a.generations
      → Advances g (finish core id d a)
  unfolding Advances finish
  finish-Advances id none g a h = tt
  finish-Advances id (some d) g a h =
      subst (λ k. Grows g k) (sym (complete-generations id d (next_sequence a))) h

  run_prepared-Advances :
      (id : ℕ) (c : EngineCommandType) (now : ℕ) (a : ActorState E)
      → (prepared : Option (EngineOperation × ActorState E)) → AreWords a.generations
      → ((x : EngineOperation × ActorState E)
          → prepared ≡ some x
          → Grows a.generations x.1.generations)
      → Advances a.generations (run_prepared core id c now a prepared)
  unfolding run_prepared Advances launch
  run_prepared-Advances id c now a none r facts =
      finish-Advances id (core.dispatch a.auth_state c now a.engine) a.generations a
        (stays a a r refl)
  run_prepared-Advances id c now a (some x) r facts =
      if-Advances (spawn_operation_worker core x.0.request x.1) a.generations
        (running (launch core x.0 c now x.1)) (inline_command core id c now x.1) (facts x refl)
        (finish-Advances id (core.dispatch x.1.auth_state c now x.1.engine) a.generations x.1
          (facts x refl))

  run_input-Advances :
      (id : ℕ) (i : EngineInput) (now : ℕ) (a : ActorState E)
      → AreWords a.generations
      → Advances a.generations (run_input core id i now a)
  unfolding run_input run_command
  run_input-Advances id (EngineInput.platform_event e) now a r =
      finish-Advances id (core.dispatch_platform_event a.auth_state e now a.engine) a.generations a
        (stays a a r refl)
  run_input-Advances id (EngineInput.command c) now a r =
      let prepared = prepare_operation core id c a in
      if-Advances a.config.split_remote_operations a.generations
        (run_prepared core id c now a prepared) (inline_command core id c now a)
        (run_prepared-Advances id c now a prepared r (λ x e. prepare-Grows core id c a r e))
        (finish-Advances id (core.dispatch a.auth_state c now a.engine) a.generations a
          (stays a a r refl))

  pub next-Advances :
      (ms : List CommandMessage) (a : ActorState E)
      → AreWords a.generations
      → Advances a.generations (process_next core ms a)
  unfolding process_next process_command Advances
  next-Advances [] a r = stays a a r refl
  next-Advances (m ∷ ms) a r =
      let now = m.now_epoch_millis in
      let observed = observe_clock now (record a { command_queue = ms }) in
      let same = accept-generations m observed in
      if-Advances a.shutting_down a.generations (running a)
        (process_command core m (record a { command_queue = ms })) (stays a a r refl)
        (subst (λ g. Advances g (process_command core m (record a { command_queue = ms }))) same
          (run_input-Advances m.command_id m.input now (accept_command m observed)
            (subst (λ g. AreWords g) (sym same) r)))

  pub option-Advances :
      (o : Option (ActorState E)) (a : ActorState E)
      → AreWords a.generations
      → ((b : ActorState E) → o ≡ some b → b.generations ≡ a.generations)
      → Advances a.generations (go_on o)
  unfolding Advances
  option-Advances none a r h = tt
  option-Advances (some b) a r h = stays a b r (h b refl)

  pub tick-generations :
      (now : ℕ) (a b : ActorState E)
      → process_tick core now a ≡ some b
      → b.generations ≡ a.generations
  unfolding process_tick publish_snapshot
  tick-generations now a b h = ground arith

  pub completion-generations :
      (c : EngineOperationCompletion) (a b : ActorState E)
      → process_operation_completion core c a ≡ some b
      → b.generations ≡ a.generations
  unfolding process_operation_completion redispatch complete publish_snapshot emit_outcome
  completion-generations c a b h = ground arith

  pub control-Grows :
      (s : AuthState) (a : ActorState E)
      → AreWords a.generations
      → Grows a.generations (process_control core s a).generations
  unfolding process_control publish_snapshot bump_identity_generations
  control-Grows s a r = ground arith

  pub mutation-generations :
      (f : E → Option E) (a b : ActorState E)
      → process_mutation core f a ≡ some b
      → b.generations ≡ a.generations
  unfolding process_mutation publish_snapshot
  mutation-generations f a b h = ground arith
