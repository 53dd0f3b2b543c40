-- ===== src/Runtime/Session/Frame.antt =====
-- A rule for invariants of a session (src/eeveetuber/runtime/session.py): a statement about its
-- lifecycle, children, source and mailboxes that the parts' own calls keep is kept by every
-- submission and publication.
use eeveetuber.Common.{ℕ, ◌≡◌, ◌⊎◌, Bool, true, false, Option, none, some, List, if_cases}
use eeveetuber.Common.Int.{pos}
use eeveetuber.Common.Text.{Str}
use eeveetuber.Common.Result.{Result, ok, err}
use eeveetuber.Common.Action.{lift, map_error, pure, ◌>>=◌, bind_stable}
use eeveetuber.Domain.Events.{EventEnvelope, for_session, with_sequence}
use eeveetuber.Runtime.Cancellation.{
  CancellationSource, CancellationToken, CancellationError, accepts,
}
use eeveetuber.Runtime.Cancellation.History.{Call, advance_call, close_call}
use eeveetuber.Runtime.Cancellation.History as History
use eeveetuber.Runtime.Mailbox.{
  PutResult, PutOutcome, cancelled, mailbox_closed, MailboxError, Mailbox, put, get,
}
use eeveetuber.Runtime.Mailbox.Waiting.{turn}
use eeveetuber.Runtime.Session.State.{
  SessionMessage, SessionLifecycle, stopped, failed, SessionError, event_error, Config, Session,
}
use eeveetuber.Runtime.Session.Stop.{
  close_inbox, close_outbox, stop_by, RunEnd, run_begin, clear_children, run_end, child_done,
  finalize_begin, finalize_end,
}
use eeveetuber.Runtime.Session.{
  start, submit, submit_wait, submit_foreground_turn, submit_foreground_turn_wait, submit_wait_turn,
  publish_result, publish_turn, publish_checked, finish_publish, finish_submission, spawn, stamp,
  take_number, inbox_put, observe_event, observe_if, notify, submit_with_token, ensure_running,
  current_token, advance_token, count_stale, after_refusal,
}

-- A statement about the parts of a session that its steps have in common.
abbrev pub Relation : Type 0 → Type 1
Relation P =
    SessionLifecycle
    → List ℕ
    → Bool
    → CancellationSource
    → Mailbox (SessionMessage P)
    → Mailbox (EventEnvelope P)
    → Type 0

abbrev pub Holds : {P : Type 0} → Relation P → Session P → Type 0
Holds R s = R s.lifecycle s.children s.stopped_set s.cancellation s.inbox s.outbox

abbrev pub HasEnded : SessionLifecycle → Type 0
HasEnded l = (l ≡ stopped) ⊎ (l ≡ failed)

-- What a statement needs to survive every step: that the calls of the source and of the mailboxes
-- keep it, and the steps that change the lifecycle or the children.
pub record IsKept {P K : Type 0} (c : Config P K) (R : Relation P) : Type 0 where
  pub by_source :
      (k : Call) (l : SessionLifecycle) (ch : List ℕ) (st : Bool) (source : CancellationSource)
      (inbox : Mailbox (SessionMessage P)) (outbox : Mailbox (EventEnvelope P))
      → R l ch st source inbox outbox
      → R l ch st (History.perform k source) inbox outbox
  pub by_put :
      (m : SessionMessage P) (l : SessionLifecycle) (ch : List ℕ) (st : Bool)
      (source : CancellationSource) (inbox : Mailbox (SessionMessage P))
      (outbox : Mailbox (EventEnvelope P))
      → R l ch st source inbox outbox
      → R l ch st source (put c.inbox m inbox).0 outbox
  pub by_inbox_turn :
      (m : SessionMessage P) (woken : Bool) (l : SessionLifecycle) (ch : List ℕ) (st : Bool)
      (source : CancellationSource) (inbox : Mailbox (SessionMessage P))
      (outbox : Mailbox (EventEnvelope P))
      → R l ch st source inbox outbox
      → R l ch st source
          (turn c.inbox m woken (some (accepts source m.token.generation)) false inbox).0
          outbox
  pub by_outbox_turn :
      (e : EventEnvelope P) (g : ℕ) (woken : Bool) (l : SessionLifecycle) (ch : List ℕ) (st : Bool)
      (source : CancellationSource) (inbox : Mailbox (SessionMessage P))
      (outbox : Mailbox (EventEnvelope P))
      → R l ch st source inbox outbox
      → R l ch st source inbox (turn c.outbox e woken (some (accepts source g)) true outbox).0
  pub by_run_next :
      (l : SessionLifecycle) (ch : List ℕ) (st : Bool) (source : CancellationSource)
      (inbox : Mailbox (SessionMessage P)) (outbox : Mailbox (EventEnvelope P))
      → R l ch st source inbox outbox
      → R l ch st source (get inbox).0 outbox
  pub by_receive :
      (l : SessionLifecycle) (ch : List ℕ) (st : Bool) (source : CancellationSource)
      (inbox : Mailbox (SessionMessage P)) (outbox : Mailbox (EventEnvelope P))
      → R l ch st source inbox outbox
      → R l ch st source inbox (get outbox).0
  pub by_start : (s : Session P) → Holds R s → Holds R (start s).0
  pub by_spawn : (task : ℕ) (s : Session P) → Holds R s → Holds R (spawn task s).0
  pub by_stop :
      (graceful : Bool) (now : ℕ) (s : Session P)
      → Holds R s
      → Holds R (stop_by s.lifecycle graceful now s).0
  pub by_run_begin :
      (how : RunEnd) (now : ℕ) (s : Session P) → Holds R s → Holds R (run_begin how now s).0
  pub by_close_inbox : (s : Session P) → Holds R s → Holds R (close_inbox true s)
  pub by_clear_children : (s : Session P) → Holds R s → Holds R (clear_children s)
  pub by_close_outbox : (s : Session P) → Holds R s → Holds R (close_outbox s)
  pub by_run_end :
      (terminal : SessionLifecycle) (s : Session P)
      → HasEnded terminal
      → Holds R s
      → Holds R (run_end terminal s)
  pub by_child_done :
      (task : ℕ) (was_cancelled raised : Bool) (s : Session P)
      → Holds R s
      → Holds R (child_done task was_cancelled raised s)
  pub by_finalize_begin : (s : Session P) → Holds R s → Holds R (finalize_begin s).0
  pub by_finalize_end : (s : Session P) → Holds R s → Holds R (finalize_end s)

module _ {P K : Type 0} (c : Config P K) (R : Relation P) (keep : IsKept c R) where
  abbrev I : Session P → Type 0
  I = Holds R

  ensure_running_keeps : (s : Session P) → I s → I (ensure_running s).0
  unfolding ensure_running
  ensure_running_keeps s i =
      if_cases {A = Session P × Result SessionError (Unit {0})} (λ r. I r.0) _ (λ _. i) (λ _. i)

  current_token_keeps : (g : ℕ) (s : Session P) → I s → I (current_token g s).0
  unfolding current_token
  current_token_keeps g s i = i

  advance_token_keeps :
      (reason : Str) (now : ℕ) (s : Session P) → I s → I (advance_token reason now s).0
  unfolding advance_token History.perform
  advance_token_keeps reason now s i =
      keep.by_source (advance_call reason now) s.lifecycle s.children s.stopped_set s.cancellation
        s.inbox s.outbox i

  stamp_keeps : (e : EventEnvelope P) (s : Session P) → I s → I (stamp c e s).0
  unfolding stamp take_number
  stamp_keeps e =
      bind_stable I (lift (map_error event_error (for_session c.session_id e)))
        (λ scoped. take_number >>= λ n. lift (map_error event_error (with_sequence (pos n) scoped)))
        (λ s i. i) (λ scoped s i. i)

  notify_keeps :
      (o : Option (EventEnvelope P → Bool)) (e : EventEnvelope P) (s : Session P)
      → I s
      → I (notify c o e s)
  unfolding notify
  notify_keeps none e s i = i
  notify_keeps (some f) e s i = i

  observe_if_keeps :
      (b : Bool) (e : EventEnvelope P) (s : Session P) → I s → I (observe_if c b e s).0
  unfolding observe_if observe_event
  observe_if_keeps b e s i = if_cases I b (λ _. notify_keeps c.observer e s i) (λ _. i)

  inbox_put_keeps : (m : SessionMessage P) (s : Session P) → I s → I (inbox_put c m s).0
  unfolding inbox_put
  inbox_put_keeps m s i =
      keep.by_put m s.lifecycle s.children s.stopped_set s.cancellation s.inbox s.outbox i

  pub submit_with_token_keeps :
      (e : EventEnvelope P) (t : CancellationToken) (s : Session P)
      → I s
      → I (submit_with_token c e t s).0
  unfolding submit_with_token
  submit_with_token_keeps e t = bind_stable I (stamp c e) _ (stamp_keeps e) (λ stamped.
      bind_stable I (inbox_put c (record { event = stamped; token = t })) _
        (inbox_put_keeps (record { event = stamped; token = t }))
        (λ result. observe_if_keeps _ stamped))

  pub submit_keeps : (e : EventEnvelope P) (s : Session P) → I s → I (submit c e s).0
  unfolding submit
  submit_keeps e = bind_stable I ensure_running _ ensure_running_keeps (λ _ s.
      bind_stable I (current_token s.cancellation.generation) _
        (current_token_keeps s.cancellation.generation) (λ t. submit_with_token_keeps e t) s)

  pub submit_foreground_turn_keeps :
      (e : EventEnvelope P) (reason : Str) (now : ℕ) (s : Session P)
      → I s
      → I (submit_foreground_turn c e reason now s).0
  unfolding submit_foreground_turn
  submit_foreground_turn_keeps e reason now =
      bind_stable I ensure_running _ ensure_running_keeps (λ _.
        bind_stable I (advance_token reason now) _ (advance_token_keeps reason now)
          (λ t. submit_with_token_keeps e t))

  pub submit_wait_keeps : (e : EventEnvelope P) (s : Session P) → I s → I (submit_wait c e s).0
  unfolding submit_wait
  submit_wait_keeps e = bind_stable I ensure_running _ ensure_running_keeps (λ _ s.
      bind_stable I (current_token s.cancellation.generation) _
        (current_token_keeps s.cancellation.generation)
        (λ t.
          bind_stable I (stamp c e) (λ stamped. pure (record { event = stamped; token = t }))
            (stamp_keeps e) (λ _ s i. i))
        s)

  pub submit_foreground_turn_wait_keeps :
      (e : EventEnvelope P) (reason : Str) (now : ℕ) (s : Session P)
      → I s
      → I (submit_foreground_turn_wait c e reason now s).0
  unfolding submit_foreground_turn_wait
  submit_foreground_turn_wait_keeps e reason now =
      bind_stable I ensure_running _ ensure_running_keeps (λ _.
        bind_stable I (advance_token reason now) _ (advance_token_keeps reason now) (λ t.
          bind_stable I (stamp c e) (λ stamped. pure (record { event = stamped; token = t }))
            (stamp_keeps e) (λ _ s i. i)))

  finish_submission_keeps :
      (m : SessionMessage P) (r : Result MailboxError (Option (PutResult (SessionMessage P))))
      (s : Session P)
      → I s
      → I (finish_submission c m r s).0
  unfolding finish_submission observe_event
  finish_submission_keeps m (err e) s i = i
  finish_submission_keeps m (ok none) s i = i
  finish_submission_keeps m (ok (some r)) s i =
      if_cases I _ (λ _. notify_keeps c.observer m.event s i) (λ _. i)

  pub submit_wait_turn_keeps :
      (m : SessionMessage P) (woken : Bool) (s : Session P)
      → I s
      → I (submit_wait_turn c m woken s).0
  unfolding submit_wait_turn
  submit_wait_turn_keeps m woken s i = finish_submission_keeps m _ _ (
      keep.by_inbox_turn m woken s.lifecycle s.children s.stopped_set s.cancellation s.inbox
        s.outbox i)

  publish_checked_keeps :
      (r : Result CancellationError CancellationToken) (e : EventEnvelope P) (s : Session P)
      → I s
      → I (publish_checked c r e s).0
  unfolding publish_checked count_stale
  publish_checked_keeps (err _) e s i = i
  publish_checked_keeps (ok t) e s i =
      bind_stable I (stamp c e) (λ stamped. pure (some (stamped, t))) (stamp_keeps e) (λ _ s i. i) s
        i

  pub publish_result_keeps :
      (e : EventEnvelope P) (g : ℕ) (s : Session P) → I s → I (publish_result c e g s).0
  unfolding publish_result
  publish_result_keeps e g s i = publish_checked_keeps _ e s i

  outcome_keeps : (o : PutOutcome) (s : Session P) → I s → I (after_refusal o s)
  unfolding after_refusal count_stale
  outcome_keeps cancelled s i = i
  outcome_keeps _ s i = i

  finish_publish_keeps :
      (e : EventEnvelope P) (r : Result MailboxError (Option (PutResult (EventEnvelope P))))
      (s : Session P)
      → I s
      → I (finish_publish c e r s).0
  unfolding finish_publish observe_event
  finish_publish_keeps e (err mailbox_closed) s i = i
  finish_publish_keeps e (err _) s i = i
  finish_publish_keeps e (ok none) s i = i
  finish_publish_keeps e (ok (some r)) s i =
      if_cases {A = Session P × Result SessionError (Option Bool)} (λ t. I t.0) _
        (λ _. notify_keeps c.observer e s i) (λ _. outcome_keeps r.outcome s i)

  pub publish_turn_keeps :
      (e : EventEnvelope P) (g : ℕ) (woken : Bool) (s : Session P)
      → I s
      → I (publish_turn c e g woken s).0
  unfolding publish_turn
  publish_turn_keeps e g woken s i = finish_publish_keeps e _ _ (
      keep.by_outbox_turn e g woken s.lifecycle s.children s.stopped_set s.cancellation s.inbox
        s.outbox i)
