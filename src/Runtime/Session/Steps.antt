-- ===== src/Runtime/Session/Steps.antt =====
-- The steps of a session (src/eeveetuber/runtime/session.py): every method, in any order that the
-- event loop may choose. A list of steps is one interleaving of the tasks that share the session.
-- The `finally` block of the actor task and the clean-up of `stop` are several steps, one for each
-- part between two awaits. No step is guarded by where its task stands, so the lists of steps hold
-- every interleaving that can happen, and more.
use eeveetuber.Common.{ℕ, Bool, true, false, if◌then◌else◌, List, [], ◌∷◌}
use eeveetuber.Common.Text.{Str}
use eeveetuber.Domain.Interaction.{InteractionState}
use eeveetuber.Domain.Events.{EventEnvelope}
use eeveetuber.Runtime.Session.State.{
  SessionLifecycle, stopped, failed, stopping, SessionMessage, Config, Session,
}
use eeveetuber.Runtime.Session.Stop.{
  close_inbox, close_outbox, stop, run_next, RunEnd, run_begin, clear_children, run_end, child_done,
  finalize_begin, finalize_end,
}
use eeveetuber.Runtime.Session.{
  start, submit, submit_wait, submit_foreground_turn, submit_foreground_turn_wait, submit_wait_turn,
  publish_result, publish_turn, transition_interaction, transition_interaction_if_current, spawn,
  receive_output,
}

pub data Step (P : Type 0) : Type 0 where
  start_step : Step P
  submit_step submit_wait_step : EventEnvelope P → Step P
  foreground_step foreground_wait_step : EventEnvelope P → Str → ℕ → Step P
  submit_turn_step : SessionMessage P → Bool → Step P
  publish_step : EventEnvelope P → ℕ → Step P
  publish_turn_step : EventEnvelope P → ℕ → Bool → Step P
  receive_step : Step P
  transition_step : InteractionState → Str → Step P
  gated_transition_step : InteractionState → ℕ → Str → Step P
  spawn_step : ℕ → Step P
  stop_step : Bool → Bool → ℕ → Step P
  run_next_step : Step P
  run_begin_step : RunEnd → ℕ → Step P
  close_inbox_step clear_children_step close_outbox_step : Step P
  -- Whether the terminal lifecycle is failed.
  run_end_step : Bool → Step P
  child_done_step : ℕ → Bool → Bool → Step P
  finalize_begin_step finalize_end_step : Step P

abbrev pub is_stopping : SessionLifecycle → Bool
is_stopping stopping = true
is_stopping _ = false

module _ {P K : Type 0} (c : Config P K) where
  unfoldable pub perform : Step P → Session P → Session P
  perform start_step s = (start s).0
  perform (submit_step e) s = (submit c e s).0
  perform (submit_wait_step e) s = (submit_wait c e s).0
  perform (foreground_step e reason now) s = (submit_foreground_turn c e reason now s).0
  perform (foreground_wait_step e reason now) s = (submit_foreground_turn_wait c e reason now s).0
  perform (submit_turn_step m woken) s = (submit_wait_turn c m woken s).0
  perform (publish_step e g) s = (publish_result c e g s).0
  perform (publish_turn_step e g woken) s = (publish_turn c e g woken s).0
  perform receive_step s = (receive_output s).0
  perform (transition_step requested reason) s = (transition_interaction requested reason s).0
  perform (gated_transition_step requested g reason) s =
      (transition_interaction_if_current requested g reason s).0
  perform (spawn_step task) s = (spawn task s).0
  perform (stop_step timeout_positive graceful now) s = (stop timeout_positive graceful now s).0
  perform run_next_step s = (run_next s).0
  perform (run_begin_step how now) s = (run_begin how now s).0
  perform close_inbox_step s = close_inbox true s
  perform clear_children_step s = clear_children s
  perform close_outbox_step s = close_outbox s
  perform (run_end_step is_failure) s = run_end (if is_failure then failed else stopped) s
  perform (child_done_step task was_cancelled raised) s = child_done task was_cancelled raised s
  perform finalize_begin_step s = (finalize_begin s).0
  perform finalize_end_step s = finalize_end s

  unfoldable pub perform_all : List (Step P) → Session P → Session P
  unfolding perform
  perform_all [] s = s
  perform_all (k ∷ ks) s = perform_all ks (perform k s)

  -- The whole `finally` block of `_run`, with what other tasks do at its awaits: before the inbox is
  -- closed, while the children are cancelled, before the outbox is closed and before the end.
  unfoldable pub run_finally :
      RunEnd
      → ℕ
      → List (Step P)
      → List (Step P)
      → List (Step P)
      → List (Step P)
      → Session P
      → Session P
  unfolding perform_all run_begin close_inbox clear_children close_outbox run_end
  run_finally how now before_inbox meanwhile before_outbox before_end s =
      let (s₁, terminal) = run_begin how now s in
      let s₂ = close_inbox true (perform_all before_inbox s₁) in
      let s₃ = clear_children (perform_all meanwhile s₂) in
      let s₄ = close_outbox (perform_all before_outbox s₃) in
      run_end terminal (perform_all before_end s₄)
