-- ===== src/Runtime/Session/LateResults.antt =====
-- Late results (src/eeveetuber/runtime/session.py): once a generation is superseded or cancelled,
-- nothing that belongs to it is published or queued any more.
use eeveetuber.Common.{
  ℕ, ◌≤◌, ◌≡◌, refl, inl, inr, Bool, true, false, Option, none, some, List, arith, if_cases,
  Option-cases, ap, ◌∙◌,
}
use eeveetuber.Common.Text.{Str, is_blank}
use eeveetuber.Common.Result.{Result, ok, err}
use eeveetuber.Common.Action.{continue_stable}
use eeveetuber.Domain.Events.{EventEnvelope}
use eeveetuber.Runtime.Cancellation.{CancellationSource, CancellationToken, accepts, advance}
use eeveetuber.Runtime.Cancellation.History.{Call, advance_call, close_call}
use eeveetuber.Runtime.Cancellation.History as History
use eeveetuber.Runtime.Session.Source.{steps_keep, submission_keeps}
use eeveetuber.Runtime.Mailbox as Mailbox
use eeveetuber.Runtime.Mailbox.{
  Mailbox, PutResult, PutOutcome, accepted, cancelled, is_accepted, MailboxError, mailbox_closed,
  try_put, try_put_open,
}
use eeveetuber.Runtime.Mailbox.Waiting.{turn}
use eeveetuber.Runtime.Session.State.{running, SessionMessage, SessionError, Config, Session}
use eeveetuber.Runtime.Session.Steps.{Step, perform_all}
use eeveetuber.Runtime.Session.{
  submit_foreground_turn, submit_wait_turn, publish_result, publish_turn, publish_checked,
  finish_publish, finish_submission, submit_with_token, ensure_running, advance_token, count_stale,
  after_refusal,
}

-- The generation has begun and is not accepted: superseded, cancelled, or the source is closed.
abbrev pub IsStale : ℕ → CancellationSource → Type 0
IsStale g source = (g ≤ source.generation) × (accepts source g ≡ false)

advance-IsStale :
    (g : ℕ) (reason : Str) (now : ℕ) (source : CancellationSource)
    → g ≤ source.generation
    → is_blank reason ≡ false
    → source.closed ≡ false
    → IsStale g (advance reason now source).0
unfolding advance accepts
advance-IsStale g reason now source h b o = (ground arith, ground arith)

-- A mailbox result that let nothing in.
abbrev LetsNothingIn : {A : Type 0} → Result MailboxError (Option (PutResult A)) → Type 0
LetsNothingIn (ok (some r)) = is_accepted r.outcome ≡ false
LetsNothingIn _ = Unit

turn_refused :
    {A K : Type 0} (c : Mailbox.Config A K) (item : A) (woken allow : Bool) (m : Mailbox A)
    → ((turn c item woken (some false) allow m).0.items ≡ m.items)
      × LetsNothingIn (turn c item woken (some false) allow m).1
unfolding turn try_put try_put_open
turn_refused {A} c item woken allow m = elim (Option-cases (c.priority_of item)) [
  | inl e ↦ rw (e, turn) (refl, tt)
  | inr (p, e) ↦
      rw (e, turn)
        (if_cases {A = Mailbox A × Result MailboxError (Option (PutResult A))}
          (λ r. (r.0.items ≡ m.items) × LetsNothingIn r.1) woken (λ _. (refl, refl))
          (λ _.
            if_cases {A = Mailbox A × Result MailboxError (Option (PutResult A))}
              (λ r. (r.0.items ≡ m.items) × LetsNothingIn r.1) m.closed (λ _. (refl, tt))
              (λ _. (refl, refl))))
]

module _ {P K : Type 0} (c : Config P K) where
  -- The outcomes of a call of `publish_result` other than `True`.
  abbrev IsUnpublished : Result SessionError (Option Bool) → Type 0
  IsUnpublished (ok (some b)) = b ≡ false
  IsUnpublished _ = Unit

  outcome-outbox : (o : PutOutcome) (s : Session P) → (after_refusal o s).outbox ≡ s.outbox
  unfolding after_refusal count_stale
  outcome-outbox cancelled s = refl
  outcome-outbox _ s = refl

  finish_publish_refused :
      (e : EventEnvelope P) (r : Result MailboxError (Option (PutResult (EventEnvelope P))))
      (s : Session P)
      → LetsNothingIn r
      → ((finish_publish c e r s).0.outbox ≡ s.outbox) × IsUnpublished (finish_publish c e r s).1
  unfolding finish_publish
  finish_publish_refused e (err mailbox_closed) s h = (refl, refl)
  finish_publish_refused e (err _) s h = (refl, tt)
  finish_publish_refused e (ok none) s h = (refl, tt)
  finish_publish_refused e (ok (some r)) s h = rw h (outcome-outbox r.outcome s, refl)

  -- A stale generation gets nothing past the session: a waiting publication leaves the outbox as it
  -- is and does not return `True`; a new one is refused before it takes a sequence number; and a
  -- waiting submission leaves the inbox as it is.
  pub record Refuses (g : ℕ) (s : Session P) : Type 0 where
    pub waiting_publication :
        (e : EventEnvelope P) (woken : Bool)
        → ((publish_turn c e g woken s).0.outbox.items ≡ s.outbox.items)
          × IsUnpublished (publish_turn c e g woken s).1
    pub new_publication :
        (e : EventEnvelope P)
        → ((publish_result c e g s).1 ≡ ok none)
          × ((publish_result c e g s).0.sequence ≡ s.sequence)
          × ((publish_result c e g s).0.outbox ≡ s.outbox)
    pub waiting_submission :
        (m : SessionMessage P) (woken : Bool)
        → m.token.generation ≡ g
        → (submit_wait_turn c m woken s).0.inbox.items ≡ s.inbox.items

  finish_submission-inbox :
      (m : SessionMessage P) (r : Result MailboxError (Option (PutResult (SessionMessage P))))
      (s : Session P)
      → LetsNothingIn r
      → (finish_submission c m r s).0.inbox ≡ s.inbox
  unfolding finish_submission
  finish_submission-inbox m (err e) s h = refl
  finish_submission-inbox m (ok none) s h = refl
  finish_submission-inbox m (ok (some r)) s h = rw h

  pub accepted_not-Refuses :
      (g : ℕ) (s : Session P) → accepts s.cancellation g ≡ false → Refuses g s
  unfolding publish_turn publish_result publish_checked submit_wait_turn count_stale
  accepted_not-Refuses g s refused = record {
    waiting_publication = λ e woken.
        let (same, out) = turn_refused c.outbox e woken true s.outbox in
        let (kept, unpublished) = finish_publish_refused e _ _ out in
        rw refused (ap (λ (m : Mailbox (EventEnvelope P)). m.items) kept ∙ same, unpublished);
    new_publication = λ e. elim (History.ensure_current-accepts s.cancellation g) [
      | inl (live, _, _) ↦ absurd (ground arith)
      | inr (_, b, raised) ↦ rw raised (refl, refl, refl)
    ];
    waiting_submission = λ m woken own.
        let current : accepts s.cancellation m.token.generation ≡ false = rw own refused in
        let (same, out) = turn_refused c.inbox m woken false s.inbox in
        rw current (
          ap (λ (b : Mailbox (SessionMessage P)). b.items) (finish_submission-inbox m _ _ out)
          ∙ same);
  }

  -- Once a generation is stale, the session refuses it after every sequence of further steps: no
  -- interleaving of submissions, publications, transitions, child tasks and stops revives it.
  pub stale_stays_refused :
      (g : ℕ) (s : Session P) (ks : List (Step P))
      → IsStale g s.cancellation
      → Refuses g (perform_all c ks s)
  stale_stays_refused g s ks stale = accepted_not-Refuses g (perform_all c ks s) (
      (steps_keep c (IsStale g) (λ k source h. History.perform_stale k source g h.0 h.1) ks s
        stale).1)

  submit_with_token_keeps_IsStale :
      (g : ℕ) (e : EventEnvelope P) (t : CancellationToken) (s : Session P)
      → IsStale g s.cancellation
      → IsStale g (submit_with_token c e t s).0.cancellation
  submit_with_token_keeps_IsStale g e t s h =
      submission_keeps c (IsStale g) (λ k source h. History.perform_stale k source g h.0 h.1) e t s
        h

  ensure_running_lem : (s : Session P) → s.lifecycle ≡ running → ensure_running s ≡ (s, ok tt)
  unfolding ensure_running
  ensure_running_lem s live = ground arith

  advance_token-IsStale :
      (g : ℕ) (reason : Str) (now : ℕ) (s : Session P)
      → is_blank reason ≡ false
      → s.cancellation.closed ≡ false
      → g ≤ s.cancellation.generation
      → IsStale g (advance_token reason now s).0.cancellation
  unfolding advance_token
  advance_token-IsStale g reason now s b o h = advance-IsStale g reason now s.cancellation h b o

  foreground_turn_supersedes :
      (g : ℕ) (e : EventEnvelope P) (reason : Str) (now : ℕ) (s : Session P)
      → s.lifecycle ≡ running
      → is_blank reason ≡ false
      → s.cancellation.closed ≡ false
      → g ≤ s.cancellation.generation
      → IsStale g (submit_foreground_turn c e reason now s).0.cancellation
  unfolding submit_foreground_turn
  foreground_turn_supersedes g e reason now s live b o h =
      rw (ensure_running_lem s live, submit_foreground_turn)
        (continue_stable (λ (t : Session P). IsStale g t.cancellation)
          (advance_token reason now s).1 (λ t. submit_with_token c e t)
          (advance_token reason now s).0 (advance_token-IsStale g reason now s b o h)
          (λ t u i. submit_with_token_keeps_IsStale g e t u i))

  -- A foreground turn fails closed: whether the inbox takes the new turn or refuses it, in a running
  -- session with an open source every generation up to the replaced one is refused from then on,
  -- through every sequence of further steps.
  pub foreground_turn_fails_closed :
      (g : ℕ) (e : EventEnvelope P) (reason : Str) (now : ℕ) (s : Session P) (ks : List (Step P))
      → s.lifecycle ≡ running
      → is_blank reason ≡ false
      → s.cancellation.closed ≡ false
      → g ≤ s.cancellation.generation
      → Refuses g (perform_all c ks (submit_foreground_turn c e reason now s).0)
  foreground_turn_fails_closed g e reason now s ks live b o h =
      stale_stays_refused g (submit_foreground_turn c e reason now s).0 ks
        (foreground_turn_supersedes g e reason now s live b o h)
