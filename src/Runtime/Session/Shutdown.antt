-- ===== src/Runtime/Session/Shutdown.antt =====
-- Shutdown (src/eeveetuber/runtime/session.py): what no step undoes. A lifecycle that has left
-- `RUNNING` never comes back to it, one that has ended stays ended, and what is closed stays closed.
use eeveetuber.Runtime.Mailbox.{Mailbox, put, get}
use eeveetuber.Runtime.Mailbox.Waiting.{turn}
use eeveetuber.Common.{
  not, ◌⊎◌, ◌∙◌, ℕ, ◌≡◌, refl, inl, inr, Bool, true, false, some, List, arith, if_cases,
}
use eeveetuber.Common.Text.{Str, is_blank}
use eeveetuber.Common.Result.{Result}
use eeveetuber.Runtime.Cancellation as Cancellation
use eeveetuber.Runtime.Cancellation.{
  CancellationSource, CancellationToken, CancellationError, accepts, advance, ensure_current,
}
use eeveetuber.Runtime.Mailbox as Mailbox
use eeveetuber.Runtime.Mailbox.{PutResult, PutOutcome, cancelled, mailbox_closed, MailboxError}
use eeveetuber.Runtime.Session.State.{
  SessionMessage, SessionLifecycle, stopped, failed, SessionError, Config, Session,
}
use eeveetuber.Runtime.Session.Stop.{
  session_closed, session_stopping, session_actor_stopped, stop_by, stop_new, stop_live,
  close_source, close_inbox, close_outbox, RunEnd, run_begin, clear_children, run_end, child_done,
  finalize_begin, finalize_end,
}
use eeveetuber.Runtime.Session.Steps.{is_stopping, Step, perform_all}
use eeveetuber.Runtime.Session.{is_running, is_started, start, spawn}
use eeveetuber.Runtime.Session.Frame.{Relation, Holds, HasEnded, IsKept}
use eeveetuber.Runtime.Session.FrameSteps.{perform_all_keeps}
use eeveetuber.Runtime.Session.Orderly.{
  IsQuiet, close-IsQuiet, put_closed, turn_closed, get_quiet, perform_closed,
}

-- Past running: stopping or ended.
abbrev pub IsLeaving : SessionLifecycle → Type 0
IsLeaving l = (is_stopping l ≡ true) ⊎ HasEnded l

-- What has come about in a session has come about in the parts of another one.
abbrev pub Later : {P : Type 0} → Session P → Relation P
Later s l children is_set source inbox outbox =
    (IsLeaving s.lifecycle → IsLeaving l)
    × (HasEnded s.lifecycle → HasEnded l)
    × (s.stopped_set ≡ true → is_set ≡ true)
    × (s.cancellation.closed ≡ true → source.closed ≡ true)
    × (IsQuiet s.inbox → IsQuiet inbox)
    × (s.outbox.closed ≡ true → outbox.closed ≡ true)

abbrev pub IsLater : {P : Type 0} → Session P → Session P → Type 0
IsLater s t = Holds (Later s) t

IsLater-refl : {P : Type 0} (s : Session P) → IsLater s s
IsLater-refl s = (λ h. h, λ h. h, λ h. h, λ h. h, λ h. h, λ h. h)

pub IsLater-trans : {P : Type 0} (s t u : Session P) → IsLater s t → IsLater t u → IsLater s u
IsLater-trans s t u (a, b, d, e, f, g) (a', b', d', e', f', g') =
    (λ h. a' (a h), λ h. b' (b h), λ h. d' (d h), λ h. e' (e h), λ h. f' (f h), λ h. g' (g h))

module _ {P K : Type 0} (c : Config P K) where
  put-IsQuiet :
      (m : SessionMessage P) (inbox : Mailbox (SessionMessage P))
      → IsQuiet inbox
      → IsQuiet (put c.inbox m inbox).0
  put-IsQuiet m inbox q = rw (put_closed c.inbox m inbox q.0) q

  -- The source of a session, closed by a reason of the program.
  pub closed_by :
      (reason : Str) (now : ℕ) (source : CancellationSource)
      → is_blank reason ≡ false
      → (Cancellation.close reason now source).0.closed ≡ true
  unfolding Cancellation.close
  closed_by reason now source h = ground arith

  start-IsLater : (s : Session P) → IsLater s (start s).0
  unfolding start
  start-IsLater s =
      if_cases {A = Session P × Result SessionError (Unit {0})} (λ r. IsLater s r.0)
        (is_started s.lifecycle) (λ _. IsLater-refl s)
        (λ new.
          (λ h. absurd (ground arith), λ h. absurd (ground arith), λ h. h, λ h. h, λ h. h, λ h. h))

  spawn-IsLater : (task : ℕ) (s : Session P) → IsLater s (spawn task s).0
  unfolding spawn
  spawn-IsLater task s =
      if_cases {A = Session P × Result SessionError ℕ} (λ r. IsLater s r.0) (is_running s.lifecycle)
        (λ _. IsLater-refl s) (λ _. IsLater-refl s)

  -- `stop` in its branches: it closes the source, and leaves what has ended.
  stop-IsLater :
      (l : SessionLifecycle) (graceful : Bool) (now : ℕ) (s : Session P)
      → s.lifecycle ≡ l
      → IsLater s (stop_by l graceful now s).0
  unfolding stop_by stop_new stop_live close_source close_inbox close_outbox Mailbox.close is_blank
  stop-IsLater stopped graceful now s e = IsLater-refl s
  stop-IsLater failed graceful now s e = IsLater-refl s
  stop-IsLater SessionLifecycle.new graceful now s e = (
    λ h. inr (inl refl),
    λ h. inl refl,
    λ h. refl,
    λ h. closed_by session_closed now s.cancellation refl,
    λ q. (refl, refl),
    λ h. refl,
  )
  stop-IsLater _ graceful now s e = (
    λ h. inl refl,
    λ h. absurd (ground arith),
    λ h. h,
    λ h. closed_by session_stopping now s.cancellation refl,
    λ q. close-IsQuiet (not graceful) s.inbox q.1,
    λ h. h,
  )

  pub run_begin-IsLater :
      (how : RunEnd) (now : ℕ) (s : Session P) → IsLater s (run_begin how now s).0
  unfolding run_begin close_source is_blank
  run_begin-IsLater how now s = (
    λ h. h,
    λ h. h,
    λ h. h,
    λ h. closed_by session_actor_stopped now s.cancellation refl,
    λ h. h,
    λ h. h,
  )

  pub close_inbox-IsLater : (s : Session P) → IsLater s (close_inbox true s)
  unfolding close_inbox Mailbox.close
  close_inbox-IsLater s = (λ h. h, λ h. h, λ h. h, λ h. h, λ q. (refl, refl), λ h. h)

  pub clear_children-IsLater : (s : Session P) → IsLater s (clear_children s)
  unfolding clear_children
  clear_children-IsLater s = IsLater-refl s

  pub close_outbox-IsLater : (s : Session P) → IsLater s (close_outbox s)
  unfolding close_outbox Mailbox.close
  close_outbox-IsLater s = (λ h. h, λ h. h, λ h. h, λ h. h, λ h. h, λ h. refl)

  pub run_end-IsLater :
      (terminal : SessionLifecycle) (s : Session P)
      → HasEnded terminal
      → IsLater s (run_end terminal s)
  unfolding run_end
  run_end-IsLater terminal s h = (λ _. inr h, λ _. h, λ _. refl, λ h. h, λ h. h, λ h. h)

  child_done-IsLater :
      (task : ℕ) (was_cancelled raised : Bool) (s : Session P)
      → IsLater s (child_done task was_cancelled raised s)
  unfolding child_done
  child_done-IsLater task was_cancelled raised s =
      if_cases (IsLater s) _ (λ _. IsLater-refl s) (λ _. IsLater-refl s)

  finalize_begin-IsLater : (s : Session P) → IsLater s (finalize_begin s).0
  unfolding finalize_begin
  finalize_begin-IsLater s =
      if_cases {A = Session P × Bool} (λ r. IsLater s r.0) s.stopped_set (λ _. IsLater-refl s)
        (λ _. close_inbox-IsLater s)

  finalize_end-IsLater : (s : Session P) → IsLater s (finalize_end s)
  unfolding finalize_end
  finalize_end-IsLater s = (λ _. inr (inl refl), λ _. inl refl, λ _. refl, λ h. h, λ h. h, λ h. h)

  Later-IsKept : (s : Session P) → IsKept c (Later s)
  Later-IsKept s = record {
    by_source = λ k l ch st source inbox outbox i.
        let (a, b, d, e, f, g) = i in (a, b, d, λ h. perform_closed k source (e h), f, g);
    by_put = λ m l ch st source inbox outbox i.
        let (a, b, d, e, f, g) = i in (a, b, d, e, λ q. put-IsQuiet m inbox (f q), g);
    by_inbox_turn = λ m w l ch st source inbox outbox i.
        let (a, b, d, e, f, g) = i in
        let still : IsQuiet inbox
            → IsQuiet (turn c.inbox m w (some (accepts source m.token.generation)) false inbox).0 =
          λ q.
            let (shut, same) =
              turn_closed c.inbox m w (some (accepts source m.token.generation)) false inbox q.0 in
            (shut, same ∙ q.1) in
        (a, b, d, e, (λ q. still (f q)), g);
    by_outbox_turn = λ x k w l ch st source inbox outbox i.
        let (a, b, d, e, f, g) = i in
        (
          a,
          b,
          d,
          e,
          f,
          λ o. (turn_closed c.outbox x w (some (accepts source k)) true outbox (g o)).0,
        );
    by_run_next = λ l ch st source inbox outbox i.
        let (a, b, d, e, f, g) = i in
        let quiet = get_quiet inbox in (a, b, d, e, λ q. (quiet.0 ∙ (f q).0, quiet.1 (f q).1), g);
    by_receive = λ l ch st source inbox outbox i.
        let (a, b, d, e, f, g) = i in (a, b, d, e, f, λ o. (get_quiet outbox).0 ∙ g o);
    by_start = λ t i. IsLater-trans s t (start t).0 i (start-IsLater t);
    by_spawn = λ task t i. IsLater-trans s t (spawn task t).0 i (spawn-IsLater task t);
    by_stop = λ graceful now t i.
        IsLater-trans s t (stop_by t.lifecycle graceful now t).0 i
          (stop-IsLater t.lifecycle graceful now t refl);
    by_run_begin =
        λ how now t i. IsLater-trans s t (run_begin how now t).0 i (run_begin-IsLater how now t);
    by_close_inbox = λ t i. IsLater-trans s t (close_inbox true t) i (close_inbox-IsLater t);
    by_clear_children = λ t i. IsLater-trans s t (clear_children t) i (clear_children-IsLater t);
    by_close_outbox = λ t i. IsLater-trans s t (close_outbox t) i (close_outbox-IsLater t);
    by_run_end = λ l t ended i. IsLater-trans s t (run_end l t) i (run_end-IsLater l t ended);
    by_child_done =
        λ task w r t i. IsLater-trans s t (child_done task w r t) i (child_done-IsLater task w r t);
    by_finalize_begin = λ t i. IsLater-trans s t (finalize_begin t).0 i (finalize_begin-IsLater t);
    by_finalize_end = λ t i. IsLater-trans s t (finalize_end t) i (finalize_end-IsLater t);
  }

  -- No sequence of steps undoes what has come about.
  pub perform_all-IsLater : (ks : List (Step P)) (s : Session P) → IsLater s (perform_all c ks s)
  perform_all-IsLater ks s = perform_all_keeps c (Later s) (Later-IsKept s) ks s (IsLater-refl s)
