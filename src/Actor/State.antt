-- ===== src/Actor/State.antt =====
-- rust/engine/crates/app_core/src/engine/actor/state.rs: `EngineActorState` and the helpers of its
-- steps. A hash set or map is a list; `accepted_set` has the elements of `accepted_commands`. The
-- mailbox of commands is `command_queue`, oldest first; `events` are the events sent so far, newest
-- first, and `responses` the outcomes that were sent to those who waited for them.
use media_app.Prelude.{ℕ, Bool, ◌||◌, List, [], ◌∷◌, ◌++◌, ◌==◌, max, saturating_add, if◌then◌else◌}
use media_app.Model.Auth.{AuthState}
use media_app.Model.Command.{EngineCommandType}
use media_app.Model.Snapshot.{EngineSnapshot}
use media_app.Actor.Core.{EngineCore}
use media_app.Actor.Operation.{DomainGenerations, EngineOperation}
use media_app.Actor.Protocol.{
  ActorConfig, ActorEvent, ActorOutcome, CommandMessage, PublishedSnapshot,
}

pub record PendingOperation : Type 0 where
  pub operation : EngineOperation
  pub command : EngineCommandType
  pub now_epoch_millis : ℕ

pub record ActorState (E : Type 0) : Type 0 where
  pub engine : E
  pub auth_state : AuthState
  pub latest : PublishedSnapshot
  pub command_queue : List CommandMessage
  pub next_command_id : ℕ
  pub shutting_down : Bool
  pub config : ActorConfig
  pub generations : DomainGenerations
  pub next_message_sequence : ℕ
  pub next_operation_id : ℕ
  pub accepted_commands : List ℕ
  pub terminal_commands : List ℕ
  pub command_responses : List ℕ
  pub pending_operations : List (ℕ × PendingOperation)
  pub latest_epoch_millis : ℕ
  pub events : List ActorEvent
  pub responses : List ActorOutcome

-- `contains` on a set of identifiers.
unfoldable pub contains : ℕ → List ℕ → Bool
contains id [] = Bool.false
contains id (x ∷ xs) = (x == id) || contains id xs

unfoldable pub remove_id : ℕ → List ℕ → List ℕ
remove_id id [] = []
remove_id id (x ∷ xs) = let rest = remove_id id xs in if x == id then rest else x ∷ rest

module _ {E : Type 0} where
  -- `next_sequence`; the sequence is the counter afterwards.
  abbrev pub next_sequence : ActorState E → ActorState E
  next_sequence a = record a { next_message_sequence = saturating_add a.next_message_sequence 1 }

  abbrev pub send_event : ActorEvent → ActorState E → ActorState E
  send_event event a = record a { events = event ∷ a.events }

  -- `publish_snapshot`, with `==` on snapshots; the revision is the latest one afterwards.
  unfoldable pub snapshots_equal_for_revision :
      EngineCore E → EngineSnapshot → EngineSnapshot → Bool
  snapshots_equal_for_revision core left right =
      core.same_snapshot left right
      || core.same_snapshot (record left { updated_at_epoch_millis = 0 })
          (record right { updated_at_epoch_millis = 0 })

  unfoldable pub publish_snapshot : EngineCore E → EngineSnapshot → ActorState E → ActorState E
  unfolding snapshots_equal_for_revision
  publish_snapshot core snapshot a =
      if snapshots_equal_for_revision core a.latest.snapshot snapshot then a else record a {
        latest = record {
          revision = saturating_add a.latest.revision 1;
          message_sequence = a.next_message_sequence;
          snapshot = snapshot;
        };
      }

  unfoldable pub emit_outcome : ActorOutcome → ActorState E → ActorState E
  unfolding contains remove_id
  emit_outcome outcome a = send_event (ActorEvent.command_outcome outcome) (record a {
    terminal_commands = outcome.command_id ∷ a.terminal_commands;
    command_responses = remove_id outcome.command_id a.command_responses;
    responses =
        if contains outcome.command_id a.command_responses
        then outcome ∷ a.responses
        else a.responses;
  })

  unfoldable pub accept_command : CommandMessage → ActorState E → ActorState E
  unfolding contains
  accept_command message a =
      if contains message.command_id a.accepted_commands then a else record a {
        accepted_commands = a.accepted_commands ++ message.command_id ∷ [];
        command_responses =
            if message.has_response
            then message.command_id ∷ a.command_responses
            else a.command_responses;
      }

  unfoldable pub accept_all : List CommandMessage → ActorState E → ActorState E
  unfolding accept_command
  accept_all [] a = a
  accept_all (message ∷ messages) a = accept_all messages (accept_command message a)

  unfoldable pub drain_queued_commands : ActorState E → ActorState E
  unfolding accept_all
  drain_queued_commands a = record (accept_all a.command_queue a) { command_queue = [] }

  abbrev pub observe_clock : ℕ → ActorState E → ActorState E
  observe_clock now a = record a { latest_epoch_millis = max a.latest_epoch_millis now }
