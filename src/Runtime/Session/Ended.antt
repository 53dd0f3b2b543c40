-- ===== src/Runtime/Session/Ended.antt =====
-- The end of a session (src/eeveetuber/runtime/session.py): after `stop`, and after the `finally`
-- block of its actor task, nothing gets in any more, whatever other tasks do meanwhile.
use eeveetuber.Common.{◌≡◌, refl, inl, inr, ℕ, Bool, true, false, List, arith}
use eeveetuber.Common.Text.{Str, is_blank}
use eeveetuber.Common.Result.{err}
use eeveetuber.Domain.Events.{EventEnvelope}
use eeveetuber.Runtime.Cancellation.{accepts}
use eeveetuber.Runtime.Mailbox as Mailbox
use eeveetuber.Runtime.Session.State.{
  SessionLifecycle, stopped, failed, lifecycle_error, Config, Session,
}
use eeveetuber.Runtime.Session.Stop.{
  drained_inbox, task_cancelled, handler_raised, session_closed, session_stopping,
  session_actor_stopped, RunEnd, run_verdict, run_begin, close_source, close_inbox, close_outbox,
  clear_children, run_end, stop, stop_by, stop_new, stop_live,
}
use eeveetuber.Runtime.Session.Steps.{Step, perform_all, run_finally}
use eeveetuber.Runtime.Session.{
  submit, submit_wait, submit_foreground_turn, submit_foreground_turn_wait, ensure_running,
}
use eeveetuber.Runtime.Session.Frame.{HasEnded}
use eeveetuber.Runtime.Session.Orderly.{IsQuiet}
use eeveetuber.Runtime.Session.LateResults.{Refuses, accepted_not-Refuses}
use eeveetuber.Runtime.Session.Shutdown.{
  IsLeaving, IsLater, IsLater-trans, closed_by, perform_all-IsLater, close_inbox-IsLater,
  clear_children-IsLater, close_outbox-IsLater, run_end-IsLater,
}

verdict_ends : (how : RunEnd) (b : Bool) → HasEnded (run_verdict how b).0
unfolding run_verdict
verdict_ends drained_inbox b = inl refl
verdict_ends task_cancelled true = inr refl
verdict_ends task_cancelled false = inl refl
verdict_ends handler_raised b = inr refl

module _ {P K : Type 0} (c : Config P K) where
  -- Nothing gets into the session: it refuses every generation, and each of the four methods that
  -- submit an event raises the lifecycle error and changes nothing.
  pub record IsShut (s : Session P) : Type 0 where
    pub refuses : (g : ℕ) → Refuses c g s
    pub submitting : (e : EventEnvelope P) → submit c e s ≡ (s, err (lifecycle_error s.lifecycle))
    pub submitting_wait :
        (e : EventEnvelope P) → submit_wait c e s ≡ (s, err (lifecycle_error s.lifecycle))
    pub foreground :
        (e : EventEnvelope P) (reason : Str) (now : ℕ)
        → submit_foreground_turn c e reason now s ≡ (s, err (lifecycle_error s.lifecycle))
    pub foreground_wait :
        (e : EventEnvelope P) (reason : Str) (now : ℕ)
        → submit_foreground_turn_wait c e reason now s ≡ (s, err (lifecycle_error s.lifecycle))

  ensure_running_raises :
      (s : Session P)
      → IsLeaving s.lifecycle
      → ensure_running s ≡ (s, err (lifecycle_error s.lifecycle))
  unfolding ensure_running
  ensure_running_raises s h = ground arith

  leaving-IsShut : (s : Session P) → IsLeaving s.lifecycle → s.cancellation.closed ≡ true → IsShut s
  unfolding accepts submit submit_wait submit_foreground_turn submit_foreground_turn_wait
  leaving-IsShut s leaving shut =
      let raised = ensure_running_raises s leaving in
      record {
        refuses = λ g. accepted_not-Refuses c g s (ground arith);
        submitting = λ e. rw (raised, submit) refl;
        submitting_wait = λ e. rw (raised, submit_wait) refl;
        foreground = λ e reason now. rw (raised, submit_foreground_turn) refl;
        foreground_wait = λ e reason now. rw (raised, submit_foreground_turn_wait) refl;
      }

  stopped_by :
      (l : SessionLifecycle) (graceful : Bool) (now : ℕ) (s : Session P)
      → ¬ HasEnded l
      → IsLeaving (stop_by l graceful now s).0.lifecycle
        × ((stop_by l graceful now s).0.cancellation.closed ≡ true)
  unfolding stop_by stop_new stop_live close_source close_inbox close_outbox is_blank
  stopped_by stopped graceful now s h = absurd (h (inl refl))
  stopped_by failed graceful now s h = absurd (h (inr refl))
  stopped_by SessionLifecycle.new graceful now s h =
      (inr (inl refl), closed_by c session_closed now s.cancellation refl)
  stopped_by _ graceful now s h = (inl refl, closed_by c session_stopping now s.cancellation refl)

  -- After a call of `stop` with a positive timeout on a session that has not ended, gracefully or
  -- not, and after every sequence of further steps, nothing gets in: every generation is refused,
  -- by waiting calls too, and `submit`, `submit_wait`, `submit_foreground_turn` and
  -- `submit_foreground_turn_wait` raise the lifecycle error and change nothing.
  pub stop-IsShut :
      (graceful : Bool) (now : ℕ) (s : Session P) (ks : List (Step P))
      → ¬ HasEnded s.lifecycle
      → IsShut (perform_all c ks (stop true graceful now s).0)
  unfolding stop
  stop-IsShut graceful now s ks still_open =
      let (leaving, shut) = stopped_by s.lifecycle graceful now s still_open in
      let s' = (stop_by s.lifecycle graceful now s).0 in
      let (a, b, d, e, f, g) = perform_all-IsLater c ks s' in
      leaving-IsShut (perform_all c ks s') (a leaving) (e shut)

  -- A session that is over: its lifecycle says so, those who wait for its end are released, both
  -- mailboxes are closed, the inbox is empty, and nothing gets in.
  pub record IsOver (s : Session P) : Type 0 where
    pub ended : HasEnded s.lifecycle
    pub released : s.stopped_set ≡ true
    pub inbox : IsQuiet s.inbox
    pub outbox : s.outbox.closed ≡ true
    pub shut : IsShut s

  -- A task's steps, and then others.
  after :
      (ks : List (Step P)) (s s' t : Session P)
      → IsLater (perform_all c ks s) s'
      → IsLater s' t
      → IsLater s t
  after ks s s' t next rest =
      let u = perform_all c ks s in
      IsLater-trans s u t (perform_all-IsLater c ks s) (IsLater-trans u s' t next rest)

  begin_ends : (how : RunEnd) (now : ℕ) (s : Session P) → HasEnded (run_begin how now s).1
  unfolding run_begin
  begin_ends how now s = verdict_ends how s.has_failure

  begin_closes :
      (how : RunEnd) (now : ℕ) (s : Session P) → (run_begin how now s).0.cancellation.closed ≡ true
  unfolding run_begin close_source is_blank
  begin_closes how now s = closed_by c session_actor_stopped now s.cancellation refl

  close_inbox-IsQuiet : (s : Session P) → IsQuiet (close_inbox true s).inbox
  unfolding close_inbox Mailbox.close
  close_inbox-IsQuiet s = (refl, refl)

  outbox_shut : (s : Session P) → (close_outbox s).outbox.closed ≡ true
  unfolding close_outbox Mailbox.close
  outbox_shut s = refl

  end_ended :
      (terminal : SessionLifecycle) (s : Session P)
      → HasEnded terminal
      → HasEnded (run_end terminal s).lifecycle × ((run_end terminal s).stopped_set ≡ true)
  unfolding run_end
  end_ended terminal s h = (h, refl)

  -- What has come about at four times, together at the last one.
  over :
      (source inbox outbox end t : Session P)
      → source.cancellation.closed ≡ true
      → IsQuiet inbox.inbox
      → outbox.outbox.closed ≡ true
      → HasEnded end.lifecycle × (end.stopped_set ≡ true)
      → IsLater source t
      → IsLater inbox t
      → IsLater outbox t
      → IsLater end t
      → IsOver t
  over source inbox outbox end t closed quiet shut (ended, set) h₁ h₂ h₃ h₄ =
      let (_, _, _, shuts, _, _) = h₁ in
      let (_, _, _, _, quiets, _) = h₂ in
      let (_, _, _, _, _, closes) = h₃ in
      let (_, ends, releases, _, _, _) = h₄ in
      record {
        ended = ends ended;
        released = releases set;
        inbox = quiets quiet;
        outbox = closes shut;
        shut = leaving-IsShut t (inr (ends ended)) (shuts closed);
      }

  -- Once the `finally` block of the actor task has run to its end, the session is over for good,
  -- however the task ended, whatever steps other tasks took at the awaits of the block (a clean-up
  -- by `stop`, new child tasks, calls on the mailboxes), and whatever steps follow: its lifecycle is
  -- stopped or failed, those who wait for its end are released, the inbox is closed and empty, the
  -- outbox is closed, every generation is refused, and the four methods that submit an event raise
  -- the lifecycle error and change nothing. Nothing is said of child tasks.
  pub run_finally-IsOver :
      (how : RunEnd) (now : ℕ) (before_inbox meanwhile before_outbox before_end : List (Step P))
      (s : Session P) (ks : List (Step P))
      → IsOver (
          perform_all c ks
            (run_finally c how now before_inbox meanwhile before_outbox before_end s))
  unfolding run_finally
  run_finally-IsOver how now k₁ k₂ k₃ k₄ s ks =
      let terminal = (run_begin how now s).1 in
      let s₁ = (run_begin how now s).0 in
      let t₁ = perform_all c k₁ s₁ in
      let s₂ = close_inbox true t₁ in
      let t₂ = perform_all c k₂ s₂ in
      let s₃ = clear_children t₂ in
      let t₃ = perform_all c k₃ s₃ in
      let s₄ = close_outbox t₃ in
      let t₄ = perform_all c k₄ s₄ in
      let s₅ = run_end terminal t₄ in
      let t = perform_all c ks s₅ in
      let ends : HasEnded terminal = begin_ends how now s in
      let from₅ : IsLater s₅ t = perform_all-IsLater c ks s₅ in
      let from₄ : IsLater s₄ t = after k₄ s₄ s₅ t (run_end-IsLater c terminal t₄ ends) from₅ in
      let from₃ : IsLater s₃ t = after k₃ s₃ s₄ t (close_outbox-IsLater c t₃) from₄ in
      let from₂ : IsLater s₂ t = after k₂ s₂ s₃ t (clear_children-IsLater c t₂) from₃ in
      let from₁ : IsLater s₁ t = after k₁ s₁ s₂ t (close_inbox-IsLater c t₁) from₂ in
      over s₁ s₂ s₄ s₅ t (begin_closes how now s) (close_inbox-IsQuiet t₁) (outbox_shut t₃)
        (end_ended terminal t₄ ends) from₁ from₂ from₄ from₅
