-- ===== src/Actor/Refinement/Reached.antt =====
-- rust/engine/crates/app_core/src/engine/actor: the runs of the actor, with the callers that submit
-- commands, and the promise that it keeps to each of them.
use media_app.Prelude.{Option, none, some, ℕ, ◌≡◌, refl, ap, List, [], ◌∷◌}
use media_app.Actor.Core.{EngineCore}
use media_app.Actor.Protocol.{
  ActorControl, ActorFailure, CommandMessage, EngineInput, LifecycleMessage, Message,
}
use media_app.Actor.State.{ActorState, accept_command, observe_clock}
use media_app.Actor.Process.{
  running, stopped, fail_all, process_mutation, process_tick, process_lifecycle, run_input,
  process_command, process_next, step, go_on,
}
use media_app.Actor.Ledger.{Ledger, accept, idle}
use media_app.Actor.Refinement.{
  ledger, outcome_ids, queued_ids, ledger-tick, ledger-control, ledger-mutation, ledger-accept,
}
use media_app.Actor.Refinement.Steps.{
  Refines, IsGenuine, if-Refines, completion-⇒, finish-⇒, run_command-⇒, fail_all-close,
  shut_down-close,
}

module _ {E : Type 0} (core : EngineCore E) where
  go_on-⇒ :
      (o : Option (ActorState E)) (l : Ledger)
      → ((b : ActorState E) → o ≡ some b → ledger b ≡ l)
      → Refines l (go_on o)
  unfolding Refines
  go_on-⇒ none l h = tt
  go_on-⇒ (some b) l h = rw (h b refl) idle

  tick-⇒ : (now : ℕ) (a : ActorState E) → Refines (ledger a) (go_on (process_tick core now a))
  tick-⇒ now a = go_on-⇒ (process_tick core now a) (ledger a) (λ b h. ledger-tick core now a h)

  input-⇒ :
      (id : ℕ) (ids : List ℕ) (i : EngineInput) (now : ℕ) (l : Ledger) (a : ActorState E)
      → l.queued ≡ id ∷ ids
      → ledger a ≡ accept id (record l { queued = ids })
      → Refines l (run_input core id i now a)
  unfolding run_input
  input-⇒ id ids (EngineInput.command c) now l a q h = run_command-⇒ core id ids c now l a q h
  input-⇒ id ids (EngineInput.platform_event e) now l a q h =
      finish-⇒ core id ids (core.dispatch_platform_event a.auth_state e now a.engine) l a q h

  command-⇒ :
      (m : CommandMessage) (ms : List CommandMessage) (a : ActorState E)
      → a.command_queue ≡ m ∷ ms
      → Refines (ledger a) (process_command core m (record a { command_queue = ms }))
  unfolding process_command ledger queued_ids
  command-⇒ m ms a q =
      let now = m.now_epoch_millis in
      let observed = observe_clock now (record a { command_queue = ms }) in
      input-⇒ m.command_id (queued_ids ms) m.input now (ledger a) (accept_command m observed)
        (ap queued_ids q) (ledger-accept m observed)

  next-⇒ :
      (ms : List CommandMessage) (a : ActorState E)
      → a.command_queue ≡ ms
      → Refines (ledger a) (process_next core ms a)
  unfolding process_next Refines
  next-⇒ [] a q = idle
  next-⇒ (m ∷ ms) a q =
      if-Refines core a.shutting_down (ledger a) (running a)
        (process_command core m (record a { command_queue = ms })) idle (command-⇒ m ms a q)

  -- Every step of the actor follows a rule of the ledger or ends it, where completions name the
  -- command of their operation.
  pub step-⇒ :
      (m : Message E) (a : ActorState E) → IsGenuine a m → Refines (ledger a) (step core m a)
  unfolding step process_lifecycle Refines ledger outcome_ids
  step-⇒ (Message.lifecycle (LifecycleMessage.control (ActorControl.auth_state_changed s))) a g =
      rw (ledger-control core s a) idle
  step-⇒ (Message.lifecycle (LifecycleMessage.manual_tick now)) a g = tick-⇒ now a
  step-⇒ (Message.lifecycle (LifecycleMessage.mutate_engine f)) a g =
      go_on-⇒ (process_mutation core f a) (ledger a) (λ b h. ledger-mutation core f a h)
  step-⇒ (Message.lifecycle LifecycleMessage.shutdown) a g = shut_down-close a
  step-⇒ (Message.player_edge event) a g = idle
  step-⇒ (Message.completion c) a g = completion-⇒ core c a g
  step-⇒ (Message.player_facts facts) a g = idle
  step-⇒ (Message.tick now) a g = tick-⇒ now a
  step-⇒ Message.next_command a g = next-⇒ a.command_queue a refl
  step-⇒ Message.command_channel_closed a g =
      if-Refines core a.shutting_down (ledger a) (running a)
        (stopped ActorFailure.command_channel_closed
          (fail_all ActorFailure.command_channel_closed a))
        idle (fail_all-close ActorFailure.command_channel_closed a)
