-- ===== src/Runtime/Mailbox.antt =====
-- src/eeveetuber/runtime/mailbox.py: the bounded priority mailbox.
-- Every method runs under the mailbox's condition, so it is one step on the record `Mailbox`. The
-- item type, its priority, its coalescing key and the combination of two items are the caller's
-- (`Config`); `priority_of` returns `none` for a value that is no integer.
pub mod Queue
pub mod QueueLaws
pub mod EvictionLaws
pub mod Invariant
pub mod AdmissionKeeps
pub mod Life
pub mod Waiting
pub mod Lossless
pub mod Delivery
pub mod Admission
use Queue.{Entry, select, evictable, delivery_order}
use eeveetuber.Common.{
  ℕ, ◌+◌, ◌≤◌, Bool, true, false, not, ◌&&◌, Option, none, some, List, [], ◌∷◌, ◌++◌, map, max, ltb,
  leb, length, if◌then◌else◌, is_some,
}
use eeveetuber.Common.Int.{ℤ, pos, negsuc, ltb_ℤ}
use eeveetuber.Common.Result.{Result, ok, err}

pub data OverflowPolicy : Type 0 where
  reject drop_lowest coalesce : OverflowPolicy

pub data PutOutcome : Type 0 where
  accepted coalesced evicted_lowest rejected_full cancelled : PutOutcome

pub record PutResult (A : Type 0) : Type 0 where
  pub outcome : PutOutcome
  pub item : A
  pub displaced : Option A

-- `PutResult.accepted`
abbrev pub is_accepted : PutOutcome → Bool
is_accepted accepted = true
is_accepted coalesced = true
is_accepted evicted_lowest = true
is_accepted _ = false

pub data MailboxError : Type 0 where
  mailbox_closed bad_priority bad_capacity missing_coalesce_key : MailboxError

pub record Config (A K : Type 0) : Type 0 where
  pub capacity : ℕ
  pub overflow : OverflowPolicy
  pub priority_of : A → Option ℤ
  pub coalesce_key : Option (A → Option K)
  -- Python's `==` on the keys.
  pub key_eq : K → K → Bool
  pub coalescer : A → A → A

pub record Mailbox (A : Type 0) : Type 0 where
  pub items : List (Entry A)
  pub next_order : ℕ
  pub closed : Bool
  pub space_available : Bool
  pub accepted : ℕ
  pub dequeued : ℕ
  pub coalesced : ℕ
  pub rejected : ℕ
  pub cancelled : ℕ
  pub evicted : ℕ
  pub discarded_on_close : ℕ
  pub high_watermark : ℕ

abbrev needs_key : {A K : Type 0} → OverflowPolicy → Option (A → Option K) → Bool
needs_key coalesce none = true
needs_key _ _ = false

abbrev pub empty : {A : Type 0} → Mailbox A
empty = record {
  items = [];
  next_order = 0;
  closed = false;
  space_available = true;
  accepted = 0;
  dequeued = 0;
  coalesced = 0;
  rejected = 0;
  cancelled = 0;
  evicted = 0;
  discarded_on_close = 0;
  high_watermark = 0;
}

-- What `PriorityMailbox.__init__` checks before it stores its arguments. The capacity is the
-- argument as given, of any sign.
unfoldable pub new : {A K : Type 0} → ℤ → Config A K → Result MailboxError (Config A K × Mailbox A)
new (negsuc _) c = err bad_capacity
new (pos n) c =
    if ltb n 1
    then err bad_capacity
    else if needs_key c.overflow c.coalesce_key
    then err missing_coalesce_key
    else ok (record c { capacity = n }, empty)

module _ {A K : Type 0} (c : Config A K) where
  -- `_append`
  unfoldable pub append : A → ℤ → Mailbox A → Mailbox A
  append item priority m =
      let items' =
        m.items ++ record { item = item; priority = priority; order = m.next_order } ∷ [] in
      record m {
        items = items';
        next_order = m.next_order + 1;
        accepted = m.accepted + 1;
        high_watermark = max m.high_watermark (length items');
        space_available = if leb c.capacity (length items') then false else m.space_available;
      }

  abbrev key_matches : (A → Option K) → K → A → Bool
  key_matches key requested item = elim (key item) [ none ↦ false | some k ↦ c.key_eq k requested ]

  -- The update of a matching entry in place.
  abbrev merge_entry : Entry A → List (Entry A) → A → Option (A × A × List (Entry A))
  merge_entry e es item =
      let combined = c.coalescer e.item item in
      elim (c.priority_of combined) [
        | none ↦ none
        | some p ↦ some (e.item, combined, record e { item = combined; priority = p } ∷ es)
      ]

  -- `_matching_entry` and the update in place of the entry that it finds: the entry's former item,
  -- the combined one and the new list; `none` inside means that the combined priority is no integer.
  unfoldable pub merge_first :
      (A → Option K) → K → A → List (Entry A) → Option (Option (A × A × List (Entry A)))
  merge_first key requested item [] = none
  merge_first key requested item (e ∷ es) =
      if key_matches key requested e.item
      then some (merge_entry e es item)
      else elim (merge_first key requested item es) [
        | none ↦ none
        | some none ↦ some none
        | some (some (old, new_item, es')) ↦ some (some (old, new_item, e ∷ es'))
      ]

  merge_by :
      OverflowPolicy
      → Option (A → Option K)
      → A
      → List (Entry A)
      → Option (Option (A × A × List (Entry A)))
  unfolding merge_first
  merge_by coalesce (some key) item es = elim (key item) [
    | none ↦ none
    | some k ↦ merge_first key k item es
  ]
  merge_by _ _ item es = none

  -- The coalescing branch of `_try_put_locked`: `none` where no pending item has the same key.
  unfoldable pub merge : A → List (Entry A) → Option (Option (A × A × List (Entry A)))
  unfolding merge_by
  merge item es = merge_by c.overflow c.coalesce_key item es

  evict_by : OverflowPolicy → Bool → ℤ → List (Entry A) → Option (Entry A × List (Entry A))
  evict_by drop_lowest true priority es = evictable priority es
  evict_by _ _ priority es = none

  -- The eviction branch: the newest entry of the lowest tier, if the new priority is above it.
  unfoldable pub evict : Bool → ℤ → List (Entry A) → Option (Entry A × List (Entry A))
  unfolding evict_by
  evict allow priority es = evict_by c.overflow allow priority es

  -- The end of `_try_put_locked`, on a full mailbox.
  unfoldable pub admit_full :
      A
      → ℤ
      → Bool
      → Option (Entry A × List (Entry A))
      → Mailbox A
      → Mailbox A × Result MailboxError (Option (PutResult A))
  unfolding append
  admit_full item priority reject_when_full (some (dropped, items')) m = (
    append item priority (record m { items = items'; evicted = m.evicted + 1 }),
    ok (some (record { outcome = evicted_lowest; item = item; displaced = some dropped.item })),
  )
  admit_full item priority true none m = (
    record m { rejected = m.rejected + 1 },
    ok (some (record { outcome = rejected_full; item = item; displaced = none })),
  )
  admit_full item priority false none m = (m, ok none)

  -- `_try_put_locked` from the coalescing branch on, by what that branch found.
  unfoldable pub admit_by :
      Option (Option (A × A × List (Entry A)))
      → A
      → ℤ
      → Bool
      → Bool
      → Mailbox A
      → Mailbox A × Result MailboxError (Option (PutResult A))
  unfolding append evict admit_full
  admit_by (some none) item priority reject_when_full allow m = (m, err bad_priority)
  admit_by (some (some (old, combined, items'))) item priority reject_when_full allow m = (
    record m { items = items'; accepted = m.accepted + 1; coalesced = m.coalesced + 1 },
    ok (some (record { outcome = coalesced; item = combined; displaced = some old })),
  )
  admit_by none item priority reject_when_full allow m =
      if ltb (length m.items) c.capacity
      then (
        append item priority m,
        ok (some (record { outcome = accepted; item = item; displaced = none })),
      )
      else admit_full item priority reject_when_full (evict allow priority m.items) m

  -- `_try_put_locked` past its admission checks.
  unfoldable pub admit :
      A → ℤ → Bool → Bool → Mailbox A → Mailbox A × Result MailboxError (Option (PutResult A))
  unfolding merge admit_by
  admit item priority reject_when_full allow m =
      admit_by (merge item m.items) item priority reject_when_full allow m

  -- `if accept_if is not None and not accept_if()`, and what follows.
  unfoldable pub try_put_open :
      Option Bool
      → A
      → ℤ
      → Bool
      → Bool
      → Mailbox A
      → Mailbox A × Result MailboxError (Option (PutResult A))
  unfolding admit
  try_put_open (some false) item priority reject_when_full allow m = (
    record m { cancelled = m.cancelled + 1 },
    ok (some (record { outcome = cancelled; item = item; displaced = none })),
  )
  try_put_open (some true) item priority reject_when_full allow m =
      admit item priority reject_when_full allow m
  try_put_open none item priority reject_when_full allow m =
      admit item priority reject_when_full allow m

  -- `_try_put_locked`. `accept_if` is the value of the callback at this moment, if one was given.
  unfoldable pub try_put :
      A
      → ℤ
      → Bool
      → Option Bool
      → Bool
      → Mailbox A
      → Mailbox A × Result MailboxError (Option (PutResult A))
  unfolding try_put_open
  try_put item priority reject_when_full accept_if allow m =
      if m.closed
      then (m, err mailbox_closed)
      else try_put_open accept_if item priority reject_when_full allow m

  -- `put`: one attempt, which never waits.
  unfoldable pub put : A → Mailbox A → Mailbox A × Result MailboxError (Option (PutResult A))
  unfolding try_put
  put item m = elim (c.priority_of item) [
    | none ↦ (m, err bad_priority)
    | some p ↦ try_put item p true none true m
  ]

pub data GetOutcome (A : Type 0) : Type 0 where
  received : A → GetOutcome A
  drained : GetOutcome A
  waiting : GetOutcome A

unfoldable pub get_from : {A : Type 0} → List (Entry A) → Mailbox A → Mailbox A × GetOutcome A
get_from [] m = (m, if m.closed then drained else waiting)
get_from (e ∷ es) m =
    let (best, rest) = select e es in
    (
      record m { items = rest; dequeued = m.dequeued + 1; space_available = true },
      received best.item,
    )

-- `get`: `drained` raises `MailboxClosed`, `waiting` blocks on the condition.
unfoldable pub get : {A : Type 0} → Mailbox A → Mailbox A × GetOutcome A
unfolding get_from
get m = get_from m.items m

-- `close(discard=…)`: the discarded items in delivery order.
unfoldable pub close : {A : Type 0} → Bool → Mailbox A → Mailbox A × List A
close discard m =
    let closing = record m { closed = true; space_available = true } in
    if discard
    then (
      record closing {
        items = [];
        discarded_on_close = m.discarded_on_close + length (delivery_order m.items);
      },
      map (λ e. e.item) (delivery_order m.items),
    )
    else (closing, [])
