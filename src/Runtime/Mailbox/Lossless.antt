-- ===== src/Runtime/Mailbox/Lossless.antt =====
-- A wait of `put_wait` that may not displace (src/eeveetuber/runtime/mailbox.py), round by round: what
-- it does to the queue, and why it ends.
use eeveetuber.Common.{
  ◌<◌, ◌≤◌, ◌≡◌, ◌≢◌, true, false, Option, none, some, List, [], ◌∷◌, ◌++◌, length,
}
use eeveetuber.Common.Int.{ℤ}
use eeveetuber.Common.Result.{Result}
use eeveetuber.Runtime.Mailbox.Queue.{Entry}
use eeveetuber.Runtime.Mailbox.Life.{perform_all}
use eeveetuber.Runtime.Mailbox.Waiting.{Round, WaitOutcome, done, raised, pending, settle}
use eeveetuber.Runtime.Mailbox.{
  coalesce, Config, Mailbox, PutResult, MailboxError, bad_priority, mailbox_closed, cancelled,
  accepted, coalesced,
}

module _ {A K : Type 0} (c : Config A K) where
  -- A list with one entry's item combined with a new one, which may change its priority.
  pub record IsMerged (item : A) (es : List (Entry A)) (old combined : A) (es' : List (Entry A))
      : Type 0 where
    pub front : List (Entry A)
    pub entry : Entry A
    pub back : List (Entry A)
    pub priority : ℤ
    pub before : es ≡ front ++ entry ∷ back
    pub after : es' ≡ front ++ record entry { item = combined; priority = priority } ∷ back
    pub replaced : old ≡ entry.item
    pub combines : combined ≡ c.coalescer entry.item item
    pub priced : c.priority_of combined ≡ some priority

  -- How a wait for room ends: by the rounds, the mailbox at its begin, the mailbox that it leaves and
  -- what it returns. A round that does not end the wait has no wish to cancel and meets a full open
  -- mailbox, which it leaves as it is.
  pub data Ending (item : A) (p : ℤ)
      : List (Round A) → Mailbox A → Mailbox A → WaitOutcome A → Type 0 where
    -- The waiter was done before an attempt.
    given_up :
        {r : Round A} {rs : List (Round A)} {m m' : Mailbox A}
        → r.cancelled_before ≡ true
        → m'.items ≡ m.items
        → Ending item p
            (r ∷ rs)
            m
            m'
            (done (record { outcome = cancelled; item = item; displaced = none }))
    -- `accept_if` declined at the attempt.
    declined :
        {r : Round A} {rs : List (Round A)} {m m' : Mailbox A}
        → r.cancelled_before ≡ false
        → r.accept_if ≡ some false
        → m'.items ≡ m.items
        → Ending item p
            (r ∷ rs)
            m
            m'
            (done (record { outcome = cancelled; item = item; displaced = none }))
    -- There was room, and the item is the last in the queue.
    queued :
        {r : Round A} {rs : List (Round A)} {m m' : Mailbox A}
        → r.cancelled_before ≡ false
        → r.accept_if ≢ some false
        → m.closed ≡ false
        → length m.items < c.capacity
        → m'.items ≡ m.items ++ record { item = item; priority = p; order = m.next_order } ∷ []
        → Ending item p
            (r ∷ rs)
            m
            m'
            (done (record { outcome = accepted; item = item; displaced = none }))
    -- A pending item had the same key.
    merged :
        {r : Round A} {rs : List (Round A)} {m m' : Mailbox A} {old combined : A}
        → r.cancelled_before ≡ false
        → r.accept_if ≢ some false
        → m.closed ≡ false
        → c.overflow ≡ coalesce
        → IsMerged item m.items old combined m'.items
        → Ending item p
            (r ∷ rs)
            m
            m'
            (done (record { outcome = coalesced; item = combined; displaced = some old }))
    closed :
        {r : Round A} {rs : List (Round A)} {m : Mailbox A}
        → r.cancelled_before ≡ false
        → m.closed ≡ true
        → Ending item p (r ∷ rs) m m (raised mailbox_closed)
    -- The combined item has no priority.
    unpriced :
        {r : Round A} {rs : List (Round A)} {m : Mailbox A}
        → r.cancelled_before ≡ false
        → r.accept_if ≢ some false
        → m.closed ≡ false
        → c.overflow ≡ coalesce
        → Ending item p (r ∷ rs) m m (raised bad_priority)
    -- The waiter was done after the other tasks' calls.
    given_up_waiting :
        {r : Round A} {rs : List (Round A)} {m m' : Mailbox A}
        → r.cancelled_before ≡ false
        → r.accept_if ≢ some false
        → m.closed ≡ false
        → c.capacity ≤ length m.items
        → r.cancelled_after ≡ true
        → m'.items ≡ (perform_all c r.others m).items
        → Ending item p
            (r ∷ rs)
            m
            m'
            (done (record { outcome = cancelled; item = item; displaced = none }))
    waits_on :
        {r : Round A} {rs : List (Round A)} {m m' : Mailbox A} {o : WaitOutcome A}
        → r.cancelled_before ≡ false
        → r.accept_if ≢ some false
        → m.closed ≡ false
        → c.capacity ≤ length m.items
        → r.cancelled_after ≡ false
        → Ending item p rs (perform_all c r.others m) m' o
        → Ending item p (r ∷ rs) m m' o
    still_waiting : {m : Mailbox A} → Ending item p [] m m pending

  -- The pair that a wait returns ends it.
  abbrev pub Ends : A → ℤ → List (Round A) → Mailbox A → Mailbox A × WaitOutcome A → Type 0
  Ends item p rs m w = Ending item p rs m w.0 w.1

  abbrev Merges : A → List (Entry A) → Option (Option (A × A × List (Entry A))) → Type 0
  Merges item es (some (some (old, combined, es'))) = IsMerged item es old combined es'
  Merges item es _ = Unit

  -- One round's attempt, and what follows if it goes on.
  module _ (item : A) (p : ℤ) (r : Round A) (rs : List (Round A)) (m : Mailbox A)
      (w : Mailbox A → Mailbox A × WaitOutcome A) (awake : r.cancelled_before ≡ false)
      (goes_on : r.accept_if ≢ some false
        → m.closed ≡ false
        → c.capacity ≤ length m.items
        → Ends item p (r ∷ rs) m (w m)) where
    abbrev Settles : Mailbox A × Result MailboxError (Option (PutResult A)) → Type 0
    Settles t = Ends item p (r ∷ rs) m (settle t.1 t.0 (w t.0))
