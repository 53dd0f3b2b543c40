-- ===== src/Runtime/Session/Stop.antt =====
-- Stopping a session (src/eeveetuber/runtime/session.py): `stop`, the actor loop `_run` with its
-- `finally` block, the end of a child task, and the clean-up of an actor that never ran. The
-- last two are cut at their awaits, where other tasks run.
use eeveetuber.Common.{ℕ, Bool, true, false, not, ◌&&◌, List, [], ◌∷◌, if◌then◌else◌, ◌==◌}
use eeveetuber.Common.Text.{Str, codes}
use eeveetuber.Common.Result.{ok, err}
use eeveetuber.Common.Action.{Action}
use eeveetuber.Domain.Interaction.{
  InteractionState, idle, degraded, same_state, StateMachine, can_transition, transition,
}
use eeveetuber.Runtime.Cancellation as Cancellation
use eeveetuber.Runtime.Mailbox as Mailbox
use eeveetuber.Runtime.Mailbox.{GetOutcome}
use eeveetuber.Runtime.Session.State.{
  SessionLifecycle, stopping, stopped, failed, SessionMessage, SessionError, bad_timeout, Session,
}

abbrev pub session_closed : Str
session_closed = codes "session closed"

abbrev pub session_stopping : Str
session_stopping = codes "session stopping"

abbrev pub session_actor_stopped : Str
session_actor_stopped = codes "session actor stopped"

-- What `stop` does next: nothing, or wait for the actor task, which it cancels first unless it
-- stops gracefully.
pub data StopPlan : Type 0 where
  finished : StopPlan
  await_actor : StopPlan

-- `self._interaction.transition` where the table allows it.
unfoldable pub settle_interaction : InteractionState → Str → StateMachine → StateMachine
settle_interaction requested reason m =
    if can_transition m requested then (transition requested reason m).0 else m

unfoldable pub finish_interaction : SessionLifecycle → StateMachine → StateMachine
unfolding settle_interaction
finish_interaction failed m = settle_interaction degraded (codes "session actor failure") m
finish_interaction stopped m =
    if same_state m.state idle then m else settle_interaction idle (codes "session stopped") m
finish_interaction _ m = m

-- How the `try` of `_run` ends: the inbox is closed and drained, the task is cancelled, or the
-- handler (or the loop) raises.
pub data RunEnd : Type 0 where
  drained_inbox task_cancelled handler_raised : RunEnd

-- The terminal lifecycle and whether `_failure` is set after the `except` clauses.
unfoldable pub run_verdict : RunEnd → Bool → SessionLifecycle × Bool
run_verdict drained_inbox has_failure = (stopped, has_failure)
run_verdict task_cancelled true = (failed, true)
run_verdict task_cancelled false = (stopped, false)
run_verdict handler_raised has_failure = (failed, true)

unfoldable pub remove_child : ℕ → List ℕ → List ℕ
remove_child task [] = []
remove_child task (t ∷ ts) = if t == task then remove_child task ts else t ∷ remove_child task ts

abbrev is_running : SessionLifecycle → Bool
is_running SessionLifecycle.running = true
is_running _ = false

module _ {P : Type 0} where
  unfoldable pub close_source : Str → ℕ → Session P → Session P
  close_source reason now s = record s {
    cancellation = (Cancellation.close reason now s.cancellation).0;
  }

  unfoldable pub close_inbox : Bool → Session P → Session P
  close_inbox discard s = record s { inbox = (Mailbox.close discard s.inbox).0 }

  unfoldable pub close_outbox : Session P → Session P
  close_outbox s = record s { outbox = (Mailbox.close false s.outbox).0 }

  -- The branch of `stop` for a session that was never started.
  unfoldable pub stop_new : ℕ → Session P → Session P
  unfolding close_source close_inbox close_outbox
  stop_new now s =
      let s₁ : Session P = record s { lifecycle = stopped } in
      let s₂ = close_outbox (close_inbox true (close_source session_closed now s₁)) in
      record s₂ { stopped_set = true }

  unfoldable pub stop_live : Bool → ℕ → Session P → Session P
  unfolding close_source close_inbox
  stop_live graceful now s =
      let s₁ : Session P = record s { lifecycle = stopping } in
      let s₂ = close_inbox (not graceful) (close_source session_stopping now s₁) in
      record s₂ { actor_cancelled = if graceful then s₂.actor_cancelled else true }

  unfoldable pub stop_by : SessionLifecycle → Bool → ℕ → Session P → Session P × StopPlan
  unfolding stop_new stop_live
  stop_by stopped graceful now s = (s, finished)
  stop_by failed graceful now s = (s, finished)
  stop_by SessionLifecycle.new graceful now s = (stop_new now s, finished)
  stop_by _ graceful now s = (stop_live graceful now s, await_actor)

  -- `stop` up to its wait for the actor task; the first argument is `timeout > 0`.
  unfoldable pub stop : Bool → Bool → ℕ → Action (Session P) SessionError StopPlan
  unfolding stop_by
  stop timeout_positive graceful now s =
      let (s', plan) = stop_by s.lifecycle graceful now s in
      if timeout_positive then (s', ok plan) else (s, err bad_timeout)

  -- The actor loop asks its inbox for the next message.
  unfoldable pub run_next : Session P → Session P × GetOutcome (SessionMessage P)
  run_next s = let (m, outcome) = Mailbox.get s.inbox in (record s { inbox = m }, outcome)

  -- The `except` clauses of `_run` and its `finally` block up to the first await: the terminal
  -- lifecycle stays a local of the task.
  unfoldable pub run_begin : RunEnd → ℕ → Session P → Session P × SessionLifecycle
  unfolding run_verdict close_source
  run_begin how now s =
      let (terminal, has_failure) = run_verdict how s.has_failure in
      (close_source session_actor_stopped now (record s { has_failure = has_failure }), terminal)

  -- The end of `_cancel_children`. Before it, the children that `_children` holds at the call are
  -- cancelled and awaited, while other tasks run.
  unfoldable pub clear_children : Session P → Session P
  clear_children s = record s { children = [] }

  -- The end of the `finally` block, past its last await.
  unfoldable pub run_end : SessionLifecycle → Session P → Session P
  unfolding finish_interaction
  run_end terminal s = record s {
    interaction = finish_interaction terminal s.interaction;
    lifecycle = terminal;
    stopped_set = true;
  }

  -- `_child_done`: the task was cancelled, or it raised or not.
  unfoldable pub child_done : ℕ → Bool → Bool → Session P → Session P
  unfolding remove_child
  child_done task was_cancelled raised s =
      let s₁ : Session P = record s { children = remove_child task s.children } in
      if not was_cancelled && (raised && is_running s.lifecycle)
      then record s₁ { has_failure = true; actor_cancelled = true }
      else s₁

  -- `_finalize_cancelled_before_run` up to the end of its first await: `false` if it returns.
  unfoldable pub finalize_begin : Session P → Session P × Bool
  unfolding close_inbox
  finalize_begin s = if s.stopped_set then (s, false) else (close_inbox true s, true)

  -- Its end, past its last await.
  unfoldable pub finalize_end : Session P → Session P
  finalize_end s = record s { lifecycle = stopped; stopped_set = true }
