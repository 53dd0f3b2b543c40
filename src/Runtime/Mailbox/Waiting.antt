-- ===== src/Runtime/Mailbox/Waiting.antt =====
-- `put_wait` (src/eeveetuber/runtime/mailbox.py): attempts until admission or cancellation.
-- What happens while the call waits is its environment: one `Round` for each turn of its loop, with
-- the calls that other tasks make meanwhile.
use eeveetuber.Common.{◌+◌, Bool, false, Option, none, some, List, [], ◌∷◌, if◌then◌else◌}
use eeveetuber.Common.Int.{ℤ}
use eeveetuber.Common.Result.{Result, ok, err}
use eeveetuber.Runtime.Mailbox.Life.{Call, perform_all}
use eeveetuber.Runtime.Mailbox.{
  Config, Mailbox, PutResult, MailboxError, bad_priority, cancelled, try_put,
}

pub record Round (A : Type 0) : Type 0 where
  -- The cancellation waiter exists and is done when the turn begins.
  pub cancelled_before : Bool
  -- What `accept_if` returns at the attempt, if it was given.
  pub accept_if : Option Bool
  -- The calls of other tasks while this one waits, and whether the waiter is done after them.
  pub others : List (Call A)
  pub cancelled_after : Bool

pub data WaitOutcome (A : Type 0) : Type 0 where
  done : PutResult A → WaitOutcome A
  raised : MailboxError → WaitOutcome A
  -- The environment ends and the call still waits.
  pending : WaitOutcome A

abbrev pub give_up : {A : Type 0} → A → Mailbox A → Mailbox A × WaitOutcome A
give_up item m = (
  record m { cancelled = m.cancelled + 1 },
  done (record { outcome = cancelled; item = item; displaced = none }),
)

-- How a turn ends by what its attempt returned: it raises, it is settled, or it goes on to wait.
unfoldable pub settle :
    {A : Type 0}
    → Result MailboxError (Option (PutResult A))
    → Mailbox A
    → Mailbox A × WaitOutcome A
    → Mailbox A × WaitOutcome A
settle (err e) m waited = (m, raised e)
settle (ok (some r)) m waited = (m, done r)
settle (ok none) m waited = waited

module _ {A K : Type 0} (c : Config A K) where
  -- One turn of the loop of `put_wait` up to its next wait (`ok none`): the call gives up if its
  -- cancellation waiter is done, and makes an attempt otherwise.
  unfoldable pub turn :
      A
      → Bool
      → Option Bool
      → Bool
      → Mailbox A
      → Mailbox A × Result MailboxError (Option (PutResult A))
  turn item woken accept_if allow m = elim (c.priority_of item) [
    | none ↦ (m, err bad_priority)
    | some p ↦
        if woken
        then (
          record m { cancelled = m.cancelled + 1 },
          ok (some (record { outcome = cancelled; item = item; displaced = none })),
        )
        else try_put c item p false accept_if allow m
  ]

  -- The loop of `put_wait`, past its check of the priority.
  unfoldable pub wait_loop : A → ℤ → Bool → List (Round A) → Mailbox A → Mailbox A × WaitOutcome A
  unfolding settle
  wait_loop item p allow [] m = (m, pending)
  wait_loop item p allow (r ∷ rs) m =
      let (m₁, result) = try_put c item p false r.accept_if allow m in
      let m₂ = perform_all c r.others m₁ in
      let rest = wait_loop item p allow rs m₂ in
      let waited = if r.cancelled_after then give_up item m₂ else rest in
      if r.cancelled_before then give_up item m else settle result m₁ waited

  unfoldable pub put_wait : A → Bool → List (Round A) → Mailbox A → Mailbox A × WaitOutcome A
  unfolding wait_loop
  put_wait item allow rounds m = elim (c.priority_of item) [
    | none ↦ (m, raised bad_priority)
    | some p ↦ wait_loop item p allow rounds m
  ]
