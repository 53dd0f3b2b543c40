-- ===== src/Runtime/Session/Source.antt =====
-- Every step of a session (src/eeveetuber/runtime/session.py) changes its cancellation source by the
-- source's own calls only, so what those calls keep, the session keeps.
use eeveetuber.Common.{ℕ, Bool, true, List, if_cases}
use eeveetuber.Common.Result.{Result}
use eeveetuber.Domain.Events.{EventEnvelope}
use eeveetuber.Runtime.Cancellation.{CancellationSource, CancellationToken}
use eeveetuber.Runtime.Cancellation.History.{Call, advance_call, close_call}
use eeveetuber.Runtime.Cancellation.History as History
use eeveetuber.Runtime.Session.State.{
  SessionLifecycle, stopped, failed, SessionError, Config, Session,
}
use eeveetuber.Runtime.Session.Stop.{
  session_closed, session_stopping, session_actor_stopped, stop_by, stop_new, stop_live,
  close_source, close_inbox, close_outbox, RunEnd, run_begin, clear_children, run_end, child_done,
  finalize_begin, finalize_end,
}
use eeveetuber.Runtime.Session.Steps.{Step, perform_all}
use eeveetuber.Runtime.Session.{start, spawn, submit_with_token}
use eeveetuber.Runtime.Session.Frame.{Relation, IsKept, submit_with_token_keeps}
use eeveetuber.Runtime.Session.FrameSteps.{perform_all_keeps}

abbrev on_source : {P : Type 0} → (CancellationSource → Type 0) → Relation P
on_source J l children is_set source inbox outbox = J source

module _ {P K : Type 0} (c : Config P K) (J : CancellationSource → Type 0)
    (keep : (k : Call) (source : CancellationSource)
      → J source
      → J (History.perform k source)) where
  abbrev I : Session P → Type 0
  I s = J s.cancellation

  spawn_keeps : (task : ℕ) (s : Session P) → I s → I (spawn task s).0
  unfolding spawn
  spawn_keeps task s i =
      if_cases {A = Session P × Result SessionError ℕ} (λ r. I r.0) _ (λ _. i) (λ _. i)

  start_keeps : (s : Session P) → I s → I (start s).0
  unfolding start
  start_keeps s i =
      if_cases {A = Session P × Result SessionError (Unit {0})} (λ r. I r.0) _ (λ _. i) (λ _. i)

  stop_by_keeps :
      (l : SessionLifecycle) (graceful : Bool) (now : ℕ) (s : Session P)
      → I s
      → I (stop_by l graceful now s).0
  unfolding stop_by stop_new stop_live close_inbox close_outbox close_source History.perform
  stop_by_keeps stopped graceful now s i = i
  stop_by_keeps failed graceful now s i = i
  stop_by_keeps SessionLifecycle.new graceful now s i =
      keep (close_call session_closed now) s.cancellation i
  stop_by_keeps _ graceful now s i = keep (close_call session_stopping now) s.cancellation i

  run_begin_keeps : (how : RunEnd) (now : ℕ) (s : Session P) → I s → I (run_begin how now s).0
  unfolding run_begin close_source History.perform
  run_begin_keeps how now s i = keep (close_call session_actor_stopped now) s.cancellation i

  close_inbox_keeps : (s : Session P) → I s → I (close_inbox true s)
  unfolding close_inbox
  close_inbox_keeps s i = i

  clear_children_keeps : (s : Session P) → I s → I (clear_children s)
  unfolding clear_children
  clear_children_keeps s i = i

  close_outbox_keeps : (s : Session P) → I s → I (close_outbox s)
  unfolding close_outbox
  close_outbox_keeps s i = i

  run_end_keeps : (terminal : SessionLifecycle) (s : Session P) → I s → I (run_end terminal s)
  unfolding run_end
  run_end_keeps terminal s i = i

  child_done_keeps :
      (task : ℕ) (was_cancelled raised : Bool) (s : Session P)
      → I s
      → I (child_done task was_cancelled raised s)
  unfolding child_done
  child_done_keeps task was_cancelled raised s i = if_cases I _ (λ _. i) (λ _. i)

  finalize_begin_keeps : (s : Session P) → I s → I (finalize_begin s).0
  unfolding finalize_begin close_inbox
  finalize_begin_keeps s i =
      if_cases {A = Session P × Bool} (λ r. I r.0) s.stopped_set (λ _. i) (λ _. i)

  finalize_end_keeps : (s : Session P) → I s → I (finalize_end s)
  unfolding finalize_end
  finalize_end_keeps s i = i

  source-IsKept : IsKept c (on_source J)
  source-IsKept = record {
    by_source = λ k l ch st source inbox outbox i. keep k source i;
    by_put = λ m l ch st source inbox outbox i. i;
    by_inbox_turn = λ m w l ch st source inbox outbox i. i;
    by_outbox_turn = λ e g w l ch st source inbox outbox i. i;
    by_run_next = λ l ch st source inbox outbox i. i;
    by_receive = λ l ch st source inbox outbox i. i;
    by_start = start_keeps;
    by_spawn = spawn_keeps;
    by_stop = λ graceful now s. stop_by_keeps s.lifecycle graceful now s;
    by_run_begin = run_begin_keeps;
    by_close_inbox = close_inbox_keeps;
    by_clear_children = clear_children_keeps;
    by_close_outbox = close_outbox_keeps;
    by_run_end = λ terminal s ended. run_end_keeps terminal s;
    by_child_done = child_done_keeps;
    by_finalize_begin = finalize_begin_keeps;
    by_finalize_end = finalize_end_keeps;
  }

  pub steps_keep : (ks : List (Step P)) (s : Session P) → I s → I (perform_all c ks s)
  steps_keep = perform_all_keeps c (on_source J) source-IsKept

  pub submission_keeps :
      (e : EventEnvelope P) (t : CancellationToken) (s : Session P)
      → I s
      → I (submit_with_token c e t s).0
  submission_keeps = submit_with_token_keeps c (on_source J) source-IsKept
