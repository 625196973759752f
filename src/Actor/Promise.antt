-- ===== src/Actor/Promise.antt =====
-- rust/engine/crates/app_core/src/engine/actor: the runs of the actor and of the callers that submit
-- commands, and what the actor promises to each of them.
use mathlib.Core.Path.{subst}
use media_app.Prelude.{
  ℕ, ◌+◌, ◌%◌, ◌^◌, ◌<◌, ◌≡◌, refl, ap, ◌∙◌, sym, Bool, true, List, [], ◌∷◌, ◌++◌, ◌⊎◌, inl, inr,
  arith,
}
use media_app.Actor.Core.{EngineCore}
use media_app.Actor.Protocol.{
  ActorConfig, ActorFailure, CommandMessage, EngineInput, LifecycleMessage, Message,
}
use media_app.Actor.State.{ActorState, contains}
use media_app.Actor.Handle.{submit, try_send, request_shutdown, offer, initial_state}
use media_app.Actor.Process.{running, exited, stopped, step, shut_down, process_lifecycle}
use media_app.Actor.Ledger.{issue, ◌⇒◌, idle, submitted, refused, id_limit}
use media_app.Actor.Ledger.Invariant.{unique, below, commands, IsSound}
use media_app.Actor.Ledger.Once.{⇒-IsSound}
use media_app.Actor.Ledger.Closing.{IsClosed, close-IsClosed}
use media_app.Actor.Refinement.{ledger, outcome_ids, queued_ids, pending_ids}
use media_app.Actor.Refinement.Steps.{Refines, IsGenuine, shut_down-close}
use media_app.Actor.Refinement.Reached.{step-⇒}

-- What happens to a running actor: a caller submits an input or asks for the end, or the actor
-- takes a message and goes on. No more inputs are submitted than there are identifiers, and a
-- completion names the command of its operation.
infix 40 ◌⊢◌⟶◌
pub data ◌⊢◌⟶◌ {E : Type 0} (core : EngineCore E) : ActorState E → ActorState E → Type 0 where
  submits :
      {a : ActorState E} (is_open : Bool) (input : EngineInput) (has_response : Bool) (now : ℕ)
      → a.next_command_id < id_limit
      → core ⊢ a ⟶ (submit is_open input has_response now a).1
  asks_shutdown :
      {a : ActorState E} (waiting : ℕ) (is_open : Bool)
      → core ⊢ a ⟶ (request_shutdown waiting is_open a).1
  takes :
      {a b : ActorState E} (m : Message E)
      → IsGenuine a m
      → step core m a ≡ running b
      → core ⊢ a ⟶ b

-- The states that a started actor reaches.
pub data Reached {E : Type 0} (core : EngineCore E) : ActorState E → Type 0 where
  starts : (engine : E) (config : ActorConfig) → Reached core (initial_state core engine config)
  goes : {a b : ActorState E} → Reached core a → core ⊢ a ⟶ b → Reached core b

queued_ids-snoc :
    (ms : List CommandMessage) (m : CommandMessage)
    → (queued_ids (ms ++ m ∷ []) ≡ queued_ids ms ++ m.command_id ∷ [])
unfolding queued_ids
queued_ids-snoc [] m = refl
queued_ids-snoc (n ∷ ms) m = ap (λ ids. n.command_id ∷ ids) (queued_ids-snoc ms m)

module _ {E : Type 0} where
  -- An input is not numbered, numbered only, or numbered and in the mailbox.
  submit-ledger :
      (is_open : Bool) (input : EngineInput) (has_response : Bool) (now : ℕ) (a : ActorState E)
      → a.next_command_id < id_limit
      → (ledger (submit is_open input has_response now a).1 ≡ ledger a)
        ⊎ ((ledger (submit is_open input has_response now a).1
              ≡ record (ledger a) { next = a.next_command_id + 1 })
            ⊎ (ledger (submit is_open input has_response now a).1 ≡ issue (ledger a)))
  unfolding submit try_send ledger
  submit-ledger is_open input has_response now a h =
      let n : (a.next_command_id + 1) % 2 ^ 64 ≡ a.next_command_id + 1 = omega arith in
      grind (
        arith,
        n,
        queued_ids-snoc a.command_queue (record {
          command_id = a.next_command_id;
          input = input;
          now_epoch_millis = now;
          has_response = has_response;
        }),
      )

  request_shutdown-ledger :
      (waiting : ℕ) (is_open : Bool) (a : ActorState E)
      → (ledger (request_shutdown waiting is_open a).1 ≡ ledger a)
  unfolding request_shutdown offer try_send ledger
  request_shutdown-ledger waiting is_open a = ground arith

module _ {E : Type 0} (core : EngineCore E) where
  pub ⟶-⇒ : {a b : ActorState E} → core ⊢ a ⟶ b → ledger a ⇒ ledger b
  unfolding Refines ledger
  ⟶-⇒ {a} (submits is_open input has_response now h) =
      elim (submit-ledger is_open input has_response now a h) [
        | inl e ↦ subst (λ l. ledger a ⇒ l) (sym e) idle
        | inr (inl e) ↦ subst (λ l. ledger a ⇒ l) (sym e) (refused h)
        | inr (inr e) ↦ subst (λ l. ledger a ⇒ l) (sym e) (submitted h)
      ]
  ⟶-⇒ {a} (asks_shutdown waiting is_open) =
      subst (λ l. ledger a ⇒ l) (sym (request_shutdown-ledger waiting is_open a)) idle
  ⟶-⇒ {a} (takes m g h) = subst (λ s. Refines (ledger a) s) h (step-⇒ core m a g)

  initial-IsSound :
      (engine : E) (config : ActorConfig) → IsSound (ledger (initial_state core engine config))
  unfolding ledger initial_state queued_ids pending_ids outcome_ids unique below commands contains
  initial-IsSound engine config = record {
    fresh = refl;
    issued = refl;
    reported = refl;
    once = refl;
    known = λ x h. h;
    single = refl;
    waiting = λ x h. h;
    unanswered = λ x h. refl;
  }

  pub Reached-IsSound : {a : ActorState E} → Reached core a → IsSound (ledger a)
  Reached-IsSound (starts engine config) = initial-IsSound engine config
  Reached-IsSound (goes r t) = ⇒-IsSound (⟶-⇒ t) (Reached-IsSound r)

  -- In every state that a started actor reaches, by any order of submissions, completions, ticks,
  -- authentication changes and other messages, no command has two outcomes; where completions name
  -- the command of their operation, and fewer inputs than identifiers were submitted.
  pub outcomes_once : (a : ActorState E) → Reached core a → unique (outcome_ids a.events) ≡ true
  unfolding ledger
  outcomes_once a r =
      let s = Reached-IsSound r in subst (λ ids. unique ids ≡ true) (sym s.reported) s.once

  shut_down-exited :
      (a : ActorState E) → (ids : List ℕ) × (b : ActorState E) × (shut_down a ≡ exited ids b)
  unfolding shut_down
  shut_down-exited a = (_, _, refl)

  -- A started actor that is told to shut down ends there: its mailbox is empty, it has accepted every
  -- command that waited in it, what it returns are the accepted commands, and each of those has
  -- exactly one outcome.
  pub shutdown_answers :
      (a : ActorState E)
      → Reached core a
      → (ids : List ℕ) × (b : ActorState E) × (step core
            (Message.lifecycle LifecycleMessage.shutdown)
            a
          ≡ exited ids b)
        × IsClosed (ledger a) (ledger b)
        × (ids ≡ b.accepted_commands)
  unfolding step process_lifecycle Refines ledger
  shutdown_answers a r =
      let (ids, b, h) = shut_down-exited a in
      let e = subst (λ s. Refines (ledger a) s) h (shut_down-close a) in
      let closed =
        subst (λ l. IsClosed (ledger a) l) (sym e.0)
          (close-IsClosed (ledger a) (Reached-IsSound r)) in
      (ids, b, h, closed, e.1 ∙ ap (λ l. l.accepted) (sym e.0))

  -- An actor that returns an error, since a dispatch that it guards panicked or nobody can submit any
  -- more, has given each accepted command exactly one outcome as well. A panic that it does not guard,
  -- in a tick, a mutation or the second dispatch of a completed operation, is not meant: it ends the
  -- task without an error that is returned.
  pub failure_answers :
      (m : Message E) (a : ActorState E) (failure : ActorFailure) (b : ActorState E)
      → Reached core a
      → IsGenuine a m
      → step core m a ≡ stopped failure b
      → IsClosed (ledger a) (ledger b)
  unfolding Refines
  failure_answers m a failure b r g h =
      let e = subst (λ s. Refines (ledger a) s) h (step-⇒ core m a g) in
      subst (λ l. IsClosed (ledger a) l) (sym e) (close-IsClosed (ledger a) (Reached-IsSound r))
