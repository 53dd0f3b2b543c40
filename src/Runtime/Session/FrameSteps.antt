-- ===== src/Runtime/Session/FrameSteps.antt =====
-- The rule of `Frame` for every step of a session (src/eeveetuber/runtime/session.py).
use eeveetuber.Common.{ℕ, Bool, true, false, inl, inr, refl, List, [], ◌∷◌, if_cases}
use eeveetuber.Common.Text.{Str}
use eeveetuber.Common.Result.{Result, ok, err}
use eeveetuber.Common.Action.{pure, bind_stable}
use eeveetuber.Domain.Interaction.{InteractionState, Transition}
use eeveetuber.Runtime.Cancellation.{CancellationToken, CancellationError}
use eeveetuber.Runtime.Session.State.{stopped, failed, SessionError, Config, Session}
use eeveetuber.Runtime.Session.Stop.{StopPlan, stop, run_next}
use eeveetuber.Runtime.Session.Steps.{
  Step, perform, perform_all, start_step, submit_step, submit_wait_step, foreground_step,
  foreground_wait_step, submit_turn_step, publish_step, publish_turn_step, receive_step,
  transition_step, gated_transition_step, spawn_step, stop_step, run_next_step, run_begin_step,
  close_inbox_step, clear_children_step, close_outbox_step, run_end_step, child_done_step,
  finalize_begin_step, finalize_end_step,
}
use eeveetuber.Runtime.Session.{
  transition_interaction, transition_interaction_if_current, transition_checked, receive_output,
  count_stale,
}
use eeveetuber.Runtime.Session.Frame.{
  Relation, Holds, IsKept, submit_keeps, submit_wait_keeps, submit_foreground_turn_keeps,
  submit_foreground_turn_wait_keeps, submit_wait_turn_keeps, publish_result_keeps,
  publish_turn_keeps,
}

module _ {P K : Type 0} (c : Config P K) (R : Relation P) (keep : IsKept c R) where
  abbrev I : Session P → Type 0
  I = Holds R

  transition_keeps :
      (requested : InteractionState) (reason : Str) (s : Session P)
      → I s
      → I (transition_interaction requested reason s).0
  unfolding transition_interaction
  transition_keeps requested reason s i =
      if_cases {A = Session P × Result SessionError Transition} (λ r. I r.0) _ (λ _. i) (λ _. i)

  transition_checked_keeps :
      (r : Result CancellationError CancellationToken) (requested : InteractionState) (reason : Str)
      (s : Session P)
      → I s
      → I (transition_checked r requested reason s).0
  unfolding transition_checked count_stale
  transition_checked_keeps (err _) requested reason s i = i
  transition_checked_keeps (ok _) requested reason s i =
      bind_stable I (transition_interaction requested reason) (λ _. pure true)
        (transition_keeps requested reason) (λ _ s i. i) s i

  stop_keeps :
      (timeout_positive graceful : Bool) (now : ℕ) (s : Session P)
      → I s
      → I (stop timeout_positive graceful now s).0
  unfolding stop
  stop_keeps timeout_positive graceful now s i =
      if_cases {A = Session P × Result SessionError StopPlan} (λ r. I r.0) timeout_positive
        (λ _. keep.by_stop graceful now s i) (λ _. i)

  -- One step of the session keeps what the source's calls keep.
  perform_keeps : (k : Step P) (s : Session P) → I s → I (perform c k s)
  unfolding perform receive_output run_next transition_interaction_if_current
  perform_keeps start_step = keep.by_start
  perform_keeps (submit_step e) = submit_keeps c R keep e
  perform_keeps (submit_wait_step e) = submit_wait_keeps c R keep e
  perform_keeps (foreground_step e r now) = submit_foreground_turn_keeps c R keep e r now
  perform_keeps (foreground_wait_step e r now) = submit_foreground_turn_wait_keeps c R keep e r now
  perform_keeps (submit_turn_step m w) = submit_wait_turn_keeps c R keep m w
  perform_keeps (publish_step e g) = publish_result_keeps c R keep e g
  perform_keeps (publish_turn_step e g w) = publish_turn_keeps c R keep e g w
  perform_keeps receive_step =
      λ s i. keep.by_receive s.lifecycle s.children s.stopped_set s.cancellation s.inbox s.outbox i
  perform_keeps (transition_step q r) = transition_keeps q r
  perform_keeps (gated_transition_step q g r) = λ s. transition_checked_keeps _ q r s
  perform_keeps (spawn_step t) = keep.by_spawn t
  perform_keeps (stop_step t g now) = stop_keeps t g now
  perform_keeps run_next_step =
      λ s i. keep.by_run_next s.lifecycle s.children s.stopped_set s.cancellation s.inbox s.outbox i
  perform_keeps (run_begin_step how now) = keep.by_run_begin how now
  perform_keeps close_inbox_step = keep.by_close_inbox
  perform_keeps clear_children_step = keep.by_clear_children
  perform_keeps close_outbox_step = keep.by_close_outbox
  perform_keeps (run_end_step true) = λ s. keep.by_run_end failed s (inr refl)
  perform_keeps (run_end_step false) = λ s. keep.by_run_end stopped s (inl refl)
  perform_keeps (child_done_step t w r) = keep.by_child_done t w r
  perform_keeps finalize_begin_step = keep.by_finalize_begin
  perform_keeps finalize_end_step = keep.by_finalize_end

  pub perform_all_keeps : (ks : List (Step P)) (s : Session P) → I s → I (perform_all c ks s)
  unfolding perform_all
  perform_all_keeps [] s i = i
  perform_all_keeps (k ∷ ks) s i = perform_all_keeps ks (perform c k s) (perform_keeps k s i)
