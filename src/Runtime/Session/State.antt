-- ===== src/Runtime/Session/State.antt =====
-- The data of src/eeveetuber/runtime/session.py: messages, submissions, the session's state.
use eeveetuber.Common.{ℕ, Bool, true, false, Option, none, some, List, []}
use eeveetuber.Common.Int.{ℤ, pos}
use eeveetuber.Common.Result.{Result, ok, ◌>>=◌}
use eeveetuber.Common.Action.{map_error}
use eeveetuber.Domain.Interaction as Interaction
use eeveetuber.Domain.Interaction.{StateMachine, InteractionError}
use eeveetuber.Domain.Events.{EventEnvelope, EventError}
use eeveetuber.Runtime.Cancellation as Cancellation
use eeveetuber.Runtime.Cancellation.{CancellationSource, CancellationToken, CancellationError}
use eeveetuber.Runtime.Mailbox as Mailbox
use eeveetuber.Runtime.Mailbox.{Mailbox, MailboxError, OverflowPolicy, drop_lowest, PutOutcome}

pub data SessionLifecycle : Type 0 where
  new starting running stopping stopped failed : SessionLifecycle

pub record SessionMessage (P : Type 0) : Type 0 where
  pub event : EventEnvelope P
  pub token : CancellationToken

pub record SessionSubmission (P : Type 0) : Type 0 where
  pub generation : ℕ
  pub event : EventEnvelope P
  pub outcome : PutOutcome
  pub displaced_event_id : Option ℕ

pub data SessionError : Type 0 where
  lifecycle_error : SessionLifecycle → SessionError
  cancellation_error : CancellationError → SessionError
  mailbox_error : MailboxError → SessionError
  event_error : EventError → SessionError
  interaction_error : InteractionError → SessionError
  bad_timeout unresolved_put : SessionError

-- What `SessionActor.__init__` fixes. An observer is called with an event and returns (`true`) or
-- raises (`false`).
pub record Config (P K : Type 0) : Type 0 where
  pub session_id : ℕ
  pub inbox : Mailbox.Config (SessionMessage P) K
  pub outbox : Mailbox.Config (EventEnvelope P) (Unit {0})
  pub observer : Option (EventEnvelope P → Bool)

pub record Session (P : Type 0) : Type 0 where
  pub lifecycle : SessionLifecycle
  pub interaction : StateMachine
  pub cancellation : CancellationSource
  pub inbox : Mailbox (SessionMessage P)
  pub outbox : Mailbox (EventEnvelope P)
  pub sequence : ℕ
  pub stale_results : ℕ
  pub observer_failures : ℕ
  -- The events that the observer was called with.
  pub observed : List (EventEnvelope P)
  -- `_failure is not None`
  pub has_failure : Bool
  -- `_actor_task.cancel()` was called.
  pub actor_cancelled : Bool
  -- The child tasks, by number.
  pub children : List ℕ
  -- `_stopped.is_set()`
  pub stopped_set : Bool

abbrev pub message_config :
    {P K : Type 0}
    → OverflowPolicy
    → Option (SessionMessage P → Option K)
    → (K → K → Bool)
    → (SessionMessage P → SessionMessage P → SessionMessage P)
    → Mailbox.Config (SessionMessage P) K
message_config overflow key key_eq coalescer = record {
  capacity = 0;
  overflow = overflow;
  priority_of = λ m. some m.event.priority;
  coalesce_key = key;
  key_eq = key_eq;
  coalescer = coalescer;
}

abbrev pub event_config : {P : Type 0} → Mailbox.Config (EventEnvelope P) (Unit {0})
event_config = record {
  capacity = 0;
  overflow = drop_lowest;
  priority_of = λ e. some e.priority;
  coalesce_key = none;
  key_eq = λ _ _. true;
  coalescer = λ _ new_item. new_item;
}

-- The state that `SessionActor.__init__` sets up.
unfoldable pub fresh_session :
    {P : Type 0}
    → CancellationSource
    → Mailbox (SessionMessage P)
    → Mailbox (EventEnvelope P)
    → Session P
fresh_session source inbox outbox = record {
  lifecycle = new;
  interaction = Interaction.initial;
  cancellation = source;
  inbox = inbox;
  outbox = outbox;
  sequence = 0;
  stale_results = 0;
  observer_failures = 0;
  observed = [];
  has_failure = false;
  actor_cancelled = false;
  children = [];
  stopped_set = false;
}

-- `SessionActor.__init__`, with the capacities as given.
unfoldable pub create :
    {P K : Type 0}
    → ℕ
    → ℤ
    → ℤ
    → OverflowPolicy
    → Option (SessionMessage P → Option K)
    → (K → K → Bool)
    → (SessionMessage P → SessionMessage P → SessionMessage P)
    → Option (EventEnvelope P → Bool)
    → Result SessionError (Config P K × Session P)
create session_id inbox_capacity outbox_capacity overflow key key_eq coalescer observer = do
  source ← map_error cancellation_error (Cancellation.new (pos 0))
  (inbox_config, inbox) ←
      map_error mailbox_error
        (Mailbox.new inbox_capacity (message_config overflow key key_eq coalescer))
  (outbox_config, outbox) ← map_error mailbox_error (Mailbox.new outbox_capacity event_config)
  ok (
    record {
      session_id = session_id;
      inbox = inbox_config;
      outbox = outbox_config;
      observer = observer;
    },
    fresh_session source inbox outbox,
  )
