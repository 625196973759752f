-- ===== src/Actor/Staleness/Superseded.antt =====
-- rust/engine/crates/app_core/src/engine/actor: an operation that was launched for one identity has
-- no effect after the identity changed.
use mathlib.Core.Path.{subst}
use media_app.Prelude.{ℕ, ◌<◌, ◌≡◌, refl, sym, Bool, true, false, some, ◌∷◌, arith, u64_max}
use media_app.Model.Auth.{AuthState, same_auth_state}
use media_app.Actor.Core.{EngineCore}
use media_app.Actor.Operation.{EngineOperationCompletion, OperationGeneration, is_current}
use media_app.Actor.Protocol.{
  ActorControl, ActorEvent, ActorFailure, EngineInput, LifecycleMessage, Message, cancelled,
  superseded,
}
use media_app.Actor.State.{
  ActorState, PendingOperation, emit_outcome, next_sequence, publish_snapshot,
}
use media_app.Actor.Generations.{bump_identity_generations}
use media_app.Actor.Completion.{
  find_pending, is_superseded, remove_pending, process_operation_completion, without_dispatch,
}
use media_app.Actor.Process.{
  running, stopped, fail_all, process_control, process_mutation, process_tick, process_lifecycle,
  shut_down, step,
}
use media_app.Actor.Handle.{submit, request_shutdown, offer, try_send, initial_state}
use media_app.Actor.Promise.{◌⊢◌⟶◌, submits, asks_shutdown, takes, Reached, starts, goes}
use media_app.Actor.Staleness.{
  AreWords, IsPast, Grows, IsPast-IsBefore, IsPast-is_current, bump-IsPast, number,
}
use media_app.Actor.Staleness.Steps.{
  Advances, stays, next-Advances, option-Advances, tick-generations, completion-generations,
  control-Grows, mutation-generations, if-Advances,
}

-- A completion that changes nothing but the ledger of commands: its command is answered with
-- `Cancelled(Superseded)`, and engine and published snapshot stay.
pub record IsSuperseded {E : Type 0} (c : EngineOperationCompletion) (a b : ActorState E)
    : Type 0 where
  pub engine : b.engine ≡ a.engine
  pub latest : b.latest ≡ a.latest
  pub generations : b.generations ≡ a.generations
  pub answer :
      b.events
      ≡ ActorEvent.command_outcome
          (without_dispatch c.command_id (cancelled superseded) (next_sequence a))
        ∷ a.events

-- Any number of steps.
infix 40 ◌⊢◌⟶*◌
pub data ◌⊢◌⟶*◌ {E : Type 0} (core : EngineCore E) : ActorState E → ActorState E → Type 0 where
  done : {a : ActorState E} → core ⊢ a ⟶* a
  more : {a b c : ActorState E} → core ⊢ a ⟶ b → core ⊢ b ⟶* c → core ⊢ a ⟶* c

module _ {E : Type 0} (core : EngineCore E) where
  step-Advances :
      (m : Message E) (a : ActorState E)
      → AreWords a.generations
      → Advances a.generations (step core m a)
  unfolding step process_lifecycle Advances shut_down
  step-Advances (Message.lifecycle (LifecycleMessage.control (ActorControl.auth_state_changed s))) a
        r =
      control-Grows core s a r
  step-Advances (Message.lifecycle (LifecycleMessage.manual_tick now)) a r =
      option-Advances core (process_tick core now a) a r (tick-generations core now a)
  step-Advances (Message.lifecycle (LifecycleMessage.mutate_engine f)) a r =
      option-Advances core (process_mutation core f a) a r (mutation-generations core f a)
  step-Advances (Message.lifecycle LifecycleMessage.shutdown) a r = tt
  step-Advances (Message.player_edge event) a r = stays a a r refl
  step-Advances (Message.completion c) a r =
      option-Advances core (process_operation_completion core c a) a r
        (completion-generations core c a)
  step-Advances (Message.player_facts facts) a r = stays a a r refl
  step-Advances (Message.tick now) a r =
      option-Advances core (process_tick core now a) a r (tick-generations core now a)
  step-Advances Message.next_command a r = next-Advances core a.command_queue a r
  step-Advances Message.command_channel_closed a r =
      if-Advances a.shutting_down a.generations (running a)
        (stopped ActorFailure.command_channel_closed
          (fail_all ActorFailure.command_channel_closed a))
        (stays a a r refl) tt

  handle-generations :
      (is_open : Bool) (input : EngineInput) (has_response : Bool) (now : ℕ) (a : ActorState E)
      → ((submit is_open input has_response now a).1.generations ≡ a.generations)
  unfolding submit try_send
  handle-generations is_open input has_response now a = ground arith

  shutdown-generations :
      (waiting : ℕ) (is_open : Bool) (a : ActorState E)
      → ((request_shutdown waiting is_open a).1.generations ≡ a.generations)
  unfolding request_shutdown offer try_send
  shutdown-generations waiting is_open a = ground arith

  ⟶-Grows :
      {a b : ActorState E}
      → core ⊢ a ⟶ b
      → AreWords a.generations
      → Grows a.generations b.generations
  unfolding Advances
  ⟶-Grows {a} (submits is_open input has_response now h) r =
      stays a (submit is_open input has_response now a).1 r
        (handle-generations is_open input has_response now a)
  ⟶-Grows {a} (asks_shutdown waiting is_open) r =
      stays a (request_shutdown waiting is_open a).1 r (shutdown-generations waiting is_open a)
  ⟶-Grows {a} (takes m g h) r = subst (λ s. Advances a.generations s) h (step-Advances m a r)

  ⟶*-IsPast :
      {a b : ActorState E} (o : OperationGeneration)
      → core ⊢ a ⟶* b
      → AreWords a.generations
      → IsPast a.generations o
      → IsPast b.generations o
  ⟶*-IsPast o done r p = p
  ⟶*-IsPast {a} o (more {b = b} t ts) r p =
      let g = ⟶-Grows t r in
      ⟶*-IsPast o ts g.0 (IsPast-IsBefore a.generations b.generations o g.1 p)

  -- The generations of a started actor are `u64`s.
  pub Reached-AreWords : {a : ActorState E} → Reached core a → AreWords a.generations
  unfolding initial_state
  Reached-AreWords (starts engine config) = ground arith
  Reached-AreWords (goes r t) = (⟶-Grows t (Reached-AreWords r)).0

  past-process :
      (c : EngineOperationCompletion) (a : ActorState E) (p : PendingOperation)
      → IsPast a.generations c.generation
      → find_pending c.operation_id a.pending_operations ≡ some p
      → (process_operation_completion core c a
          ≡ some (
              emit_outcome
                (without_dispatch c.command_id (cancelled superseded) (
                  next_sequence (record a {
                    pending_operations = remove_pending c.operation_id a.pending_operations;
                  })))
                (next_sequence (record a {
                  pending_operations = remove_pending c.operation_id a.pending_operations;
                }))))
  unfolding process_operation_completion is_superseded
  past-process c a p h f = ground (arith, IsPast-is_current a.generations c.generation h)

  control-bump :
      (s : AuthState) (a : ActorState E)
      → same_auth_state s a.auth_state ≡ false
      → ((process_control core s a).generations ≡ bump_identity_generations a.generations)
  unfolding process_control publish_snapshot
  control-bump s a h = ground arith

  -- A completion under a generation that is past is answered without the engine.
  pub past-IsSuperseded :
      (c : EngineOperationCompletion) (a : ActorState E) (p : PendingOperation)
      → IsPast a.generations c.generation
      → find_pending c.operation_id a.pending_operations ≡ some p
      → (b : ActorState E) × (process_operation_completion core c a ≡ some b) × IsSuperseded c a b
  unfolding emit_outcome
  past-IsSuperseded c a p h f =
      let a' =
        next_sequence
          (record a { pending_operations = remove_pending c.operation_id a.pending_operations }) in
      (
        emit_outcome (without_dispatch c.command_id (cancelled superseded) a') a',
        past-process c a p h f,
        record { engine = refl; latest = refl; generations = refl; answer = refl },
      )

  -- A completion for an operation that was current before the authentication state changed is
  -- answered without the engine, after any number of further steps; the generations being below the
  -- largest `u64` at the change.
  pub auth_change_supersedes :
      (state : AuthState) (a b : ActorState E) (c : EngineOperationCompletion)
      → (p : PendingOperation) → Reached core a
      → same_auth_state state a.auth_state ≡ false
      → is_current a.generations c.generation ≡ true
      → number c.generation < u64_max
      → core ⊢ process_control core state a ⟶* b
      → find_pending c.operation_id b.pending_operations ≡ some p
      → (d : ActorState E) × (process_operation_completion core c b ≡ some d) × IsSuperseded c b d
  auth_change_supersedes state a b c p r s h n ts f =
      let changed = process_control core state a in
      let same : changed.generations ≡ bump_identity_generations a.generations =
        control-bump state a s in
      let past =
        subst (λ g. IsPast g c.generation) (sym same)
          (bump-IsPast a.generations c.generation h n) in
      let range = (control-Grows core state a (Reached-AreWords r)).0 in
      past-IsSuperseded c b p (⟶*-IsPast c.generation ts range past) f
