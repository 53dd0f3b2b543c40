-- ===== src/Runtime/Session.antt =====
-- src/eeveetuber/runtime/session.py: the session actor.
-- A method returns the new state and its result (`Action`). A method that awaits a mailbox's room is
-- cut at the await: the part before it, and `…_turn`, one turn of the wait. The observer, the
-- handler and the event loop are the environment: which step comes next is up to the caller.
pub mod State
pub mod Stop
pub mod Steps
pub mod Frame
pub mod FrameSteps
pub mod Source
pub mod Orderly
pub mod LateResults
pub mod Shutdown
pub mod Ended
use eeveetuber.Common.{
  ℕ, ◌+◌, Bool, true, false, not, Option, none, some, List, [], ◌∷◌, ◌++◌, if◌then◌else◌, is_some,
}
use eeveetuber.Common.Int.{pos}
use eeveetuber.Common.Text.{Str}
use eeveetuber.Common.Result.{Result, ok, err}
use eeveetuber.Common.Action.{
  Action, ◌>>=◌, ◌>>◌, pure, gets, modify, lift, raise_if, map_error, continue,
}
use eeveetuber.Domain.Interaction.{InteractionState, StateMachine, Transition, transition}
use eeveetuber.Domain.Events.{EventEnvelope, for_session, with_sequence}
use eeveetuber.Runtime.Cancellation.{
  CancellationToken, CancellationError, advance, accepts, ensure_current,
}
use eeveetuber.Runtime.Mailbox.{
  Mailbox, MailboxError, mailbox_closed, PutResult, PutOutcome, cancelled, is_accepted, put, get,
  GetOutcome,
}
use eeveetuber.Runtime.Mailbox.Waiting.{turn}
use eeveetuber.Runtime.Session.State.{
  SessionLifecycle, starting, running, stopping, SessionMessage, SessionSubmission, SessionError,
  lifecycle_error, cancellation_error, mailbox_error, event_error, interaction_error,
  unresolved_put, Config, Session,
}

abbrev pub is_running : SessionLifecycle → Bool
is_running running = true
is_running _ = false

abbrev pub is_live : SessionLifecycle → Bool
is_live running = true
is_live stopping = true
is_live _ = false

-- `self._lifecycle is not SessionLifecycle.NEW`
abbrev is_started : SessionLifecycle → Bool
is_started SessionLifecycle.new = false
is_started _ = true

module _ {P : Type 0} where
  -- `start`: the task is created between the two assignments, which no await parts.
  unfoldable pub start : Action (Session P) SessionError (Unit {0})
  start s =
      if is_started s.lifecycle
      then (s, err (lifecycle_error s.lifecycle))
      else (record s { lifecycle = running }, ok tt)

  -- `_ensure_running`
  unfoldable pub ensure_running : Action (Session P) SessionError (Unit {0})
  ensure_running s =
      if is_running s.lifecycle then (s, ok tt) else (s, err (lifecycle_error s.lifecycle))

  -- The session's source of generations: the check, and the advance to a new one.
  current_token : ℕ → Action (Session P) SessionError CancellationToken
  current_token g s = (s, map_error cancellation_error (ensure_current s.cancellation g))

  advance_token : Str → ℕ → Action (Session P) SessionError CancellationToken
  advance_token reason now s =
      let (source, result) = advance reason now s.cancellation in
      (record s { cancellation = source }, map_error cancellation_error result)

  -- `transition_interaction`
  unfoldable pub transition_interaction :
      InteractionState → Str → Action (Session P) SessionError Transition
  transition_interaction requested reason s =
      let (machine, result) = transition requested reason s.interaction in
      if is_live s.lifecycle
      then (record s { interaction = machine }, map_error interaction_error result)
      else (s, err (lifecycle_error s.lifecycle))

  count_stale : Session P → Session P
  count_stale s = record s { stale_results = s.stale_results + 1 }

  transition_checked :
      Result CancellationError CancellationToken
      → InteractionState
      → Str
      → Action (Session P) SessionError Bool
  unfolding transition_interaction count_stale
  transition_checked (err _) requested reason = modify count_stale >> pure false
  transition_checked (ok _) requested reason = transition_interaction requested reason >> pure true

  -- `transition_interaction_if_current`
  unfoldable pub transition_interaction_if_current :
      InteractionState → ℕ → Str → Action (Session P) SessionError Bool
  unfolding transition_checked
  transition_interaction_if_current requested generation reason s =
      transition_checked (ensure_current s.cancellation generation) requested reason s

  -- `spawn`, of a task numbered by the event loop.
  unfoldable pub spawn : ℕ → Action (Session P) SessionError ℕ
  spawn task s =
      if is_running s.lifecycle
      then (record s { children = task ∷ s.children }, ok task)
      else (s, err (lifecycle_error s.lifecycle))

  -- `receive_output`
  unfoldable pub receive_output : Session P → Session P × GetOutcome (EventEnvelope P)
  receive_output s = let (m, outcome) = get s.outbox in (record s { outbox = m }, outcome)

  -- `publish_result` counts a refusal that was a cancellation.
  after_refusal : PutOutcome → Session P → Session P
  unfolding count_stale
  after_refusal cancelled s = count_stale s
  after_refusal _ s = s

  -- The numbering under the sequence lock.
  take_number : Action (Session P) SessionError ℕ
  take_number s = (record s { sequence = s.sequence + 1 }, ok s.sequence)

module _ {P K : Type 0} (c : Config P K) where
  -- `_stamp`
  unfoldable pub stamp : EventEnvelope P → Action (Session P) SessionError (EventEnvelope P)
  unfolding take_number
  stamp event = do
    scoped ← lift (map_error event_error (for_session c.session_id event))
    sequence ← take_number
    lift (map_error event_error (with_sequence (pos sequence) scoped))

  notify : Option (EventEnvelope P → Bool) → EventEnvelope P → Session P → Session P
  notify none event s = s
  notify (some observer) event s = record s {
    observed = s.observed ++ event ∷ [];
    observer_failures = if observer event then s.observer_failures else s.observer_failures + 1;
  }

  -- `_observe_event`
  unfoldable pub observe_event : EventEnvelope P → Session P → Session P
  unfolding notify
  observe_event event s = notify c.observer event s

  observe_if : Bool → EventEnvelope P → Action (Session P) SessionError (Unit {0})
  unfolding observe_event
  observe_if test event s = (if test then observe_event event s else s, ok tt)

  -- What a mailbox call returned, as a call of the session.
  abbrev settled :
      {A : Type 0} → Result MailboxError (Option (PutResult A)) → Result SessionError (PutResult A)
  settled (err e) = err (mailbox_error e)
  settled (ok (some r)) = ok r
  settled (ok none) = err unresolved_put

  inbox_put : SessionMessage P → Action (Session P) SessionError (PutResult (SessionMessage P))
  inbox_put message s =
      let (m, result) = put c.inbox message s.inbox in (record s { inbox = m }, settled result)

  abbrev submission :
      CancellationToken → EventEnvelope P → PutResult (SessionMessage P) → SessionSubmission P
  submission token stamped result = record {
    generation = token.generation;
    event = stamped;
    outcome = result.outcome;
    displaced_event_id = elim result.displaced [ none ↦ none | some m ↦ some m.event.event_id ];
  }

  -- `_submit_with_token`
  unfoldable pub submit_with_token :
      EventEnvelope P → CancellationToken → Action (Session P) SessionError (SessionSubmission P)
  unfolding stamp inbox_put observe_if
  submit_with_token event token = do
    stamped ← stamp event
    result ← inbox_put (record { event = stamped; token = token })
    observe_if (is_accepted result.outcome) stamped
    pure (submission token stamped result)

  -- `submit`
  unfoldable pub submit : EventEnvelope P → Action (Session P) SessionError (SessionSubmission P)
  unfolding ensure_running current_token submit_with_token
  submit event = do
    ensure_running
    generation ← gets (λ s. s.cancellation.generation)
    token ← current_token generation
    submit_with_token event token

  -- `submit_foreground_turn`
  unfoldable pub submit_foreground_turn :
      EventEnvelope P → Str → ℕ → Action (Session P) SessionError (SessionSubmission P)
  unfolding ensure_running advance_token submit_with_token
  submit_foreground_turn event reason now = do
    ensure_running
    token ← advance_token reason now
    submit_with_token event token

  -- `submit_wait` up to its wait for room.
  unfoldable pub submit_wait : EventEnvelope P → Action (Session P) SessionError (SessionMessage P)
  unfolding ensure_running current_token stamp
  submit_wait event = do
    ensure_running
    generation ← gets (λ s. s.cancellation.generation)
    token ← current_token generation
    stamped ← stamp event
    pure (record { event = stamped; token = token })

  -- `submit_foreground_turn_wait` up to its wait for room.
  unfoldable pub submit_foreground_turn_wait :
      EventEnvelope P → Str → ℕ → Action (Session P) SessionError (SessionMessage P)
  unfolding ensure_running advance_token stamp
  submit_foreground_turn_wait event reason now = do
    ensure_running
    token ← advance_token reason now
    stamped ← stamp event
    pure (record { event = stamped; token = token })

  finish_submission :
      SessionMessage P
      → Result MailboxError (Option (PutResult (SessionMessage P)))
      → Action (Session P) SessionError (Option (SessionSubmission P))
  unfolding observe_event
  finish_submission message (err e) s = (s, err (mailbox_error e))
  finish_submission message (ok none) s = (s, ok none)
  finish_submission message (ok (some result)) s = (
    if is_accepted result.outcome then observe_event message.event s else s,
    ok (some (submission message.token message.event result)),
  )

  -- One turn of `_submit_stamped_wait`. `woken`: the token's cancellation woke the wait.
  unfoldable pub submit_wait_turn :
      SessionMessage P → Bool → Action (Session P) SessionError (Option (SessionSubmission P))
  unfolding finish_submission
  submit_wait_turn message woken s =
      let current = accepts s.cancellation message.token.generation in
      let (m, result) = turn c.inbox message woken (some current) false s.inbox in
      finish_submission message result (record s { inbox = m })

  publish_checked :
      Result CancellationError CancellationToken
      → EventEnvelope P
      → Action (Session P) SessionError (Option (EventEnvelope P × CancellationToken))
  unfolding count_stale stamp
  publish_checked (err _) event = modify count_stale >> pure none
  publish_checked (ok token) event = do stamped ← stamp event; pure (some (stamped, token))

  -- `publish_result` up to its wait for room: `none` returns `False`.
  unfoldable pub publish_result :
      EventEnvelope P
      → ℕ
      → Action (Session P) SessionError (Option (EventEnvelope P × CancellationToken))
  unfolding publish_checked
  publish_result event generation s =
      publish_checked (ensure_current s.cancellation generation) event s

  finish_publish :
      EventEnvelope P
      → Result MailboxError (Option (PutResult (EventEnvelope P)))
      → Action (Session P) SessionError (Option Bool)
  unfolding observe_event after_refusal
  finish_publish stamped (err mailbox_closed) s = (s, ok (some false))
  finish_publish stamped (err e) s = (s, err (mailbox_error e))
  finish_publish stamped (ok none) s = (s, ok none)
  finish_publish stamped (ok (some result)) s =
      if is_accepted result.outcome
      then (observe_event stamped s, ok (some true))
      else (after_refusal result.outcome s, ok (some false))

  -- One turn of the wait in `publish_result`, and what follows it: `some b` returns `b`.
  unfoldable pub publish_turn :
      EventEnvelope P → ℕ → Bool → Action (Session P) SessionError (Option Bool)
  unfolding finish_publish
  publish_turn stamped generation woken s =
      let current = accepts s.cancellation generation in
      let (m, result) = turn c.outbox stamped woken (some current) true s.outbox in
      finish_publish stamped result (record s { outbox = m })
