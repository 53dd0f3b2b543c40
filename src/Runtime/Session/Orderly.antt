-- ===== src/Runtime/Session/Orderly.antt =====
-- The parts of a session (src/eeveetuber/runtime/session.py) once they are closed.
use eeveetuber.Common.Int.{ℤ}
use eeveetuber.Common.{
  ap, ◌∙◌, ◌≡◌, refl, inl, inr, Bool, true, false, Option, none, List, [], ◌∷◌, arith, if_cases,
  Option-cases,
}
use eeveetuber.Common.Result.{Result}
use eeveetuber.Runtime.Cancellation as Cancellation
use eeveetuber.Runtime.Cancellation.{
  CancellationSource, CancellationToken, CancellationError, accepts, advance, ensure_current,
}
use eeveetuber.Runtime.Cancellation.History.{Call, advance_call, close_call}
use eeveetuber.Runtime.Cancellation.History as History
use eeveetuber.Runtime.Mailbox as Mailbox
use eeveetuber.Runtime.Mailbox.{PutResult, PutOutcome, cancelled, mailbox_closed, MailboxError}
use eeveetuber.Runtime.Mailbox.Waiting.{turn}
use eeveetuber.Runtime.Mailbox.{Mailbox, put, try_put, get, get_from}
use eeveetuber.Runtime.Mailbox.Queue.{Entry}

-- A mailbox that takes nothing in and holds nothing.
abbrev pub IsQuiet : {A : Type 0} → Mailbox A → Type 0
IsQuiet m = (m.closed ≡ true) × (m.items ≡ [])

try_put_closed :
    {A K : Type 0} (c : Mailbox.Config A K) (item : A) (p : ℤ) (now : Bool)
    (accept_if : Option Bool) (allow : Bool) (m : Mailbox A)
    → m.closed ≡ true
    → (try_put c item p now accept_if allow m).0 ≡ m
unfolding try_put
try_put_closed c item p now accept_if allow m h = ground arith

pub put_closed :
    {A K : Type 0} (c : Mailbox.Config A K) (item : A) (m : Mailbox A)
    → m.closed ≡ true
    → (put c item m).0 ≡ m
unfolding put
put_closed c item m h = elim (Option-cases (c.priority_of item)) [
  | inl e ↦ rw (e, put)
  | inr (p, e) ↦ rw (e, put) (try_put_closed c item p true none true m h)
]

-- A turn on a closed mailbox changes at most the count of cancelled items.
pub turn_closed :
    {A K : Type 0} (c : Mailbox.Config A K) (item : A) (woken : Bool) (accept_if : Option Bool)
    (allow : Bool) (m : Mailbox A)
    → m.closed ≡ true
    → ((turn c item woken accept_if allow m).0.closed ≡ true)
      × ((turn c item woken accept_if allow m).0.items ≡ m.items)
unfolding turn
turn_closed {A} c item woken accept_if allow m h = elim (Option-cases (c.priority_of item)) [
  | inl e ↦ rw (e, turn) (h, refl)
  | inr (p, e) ↦
      rw (e, turn)
        (if_cases {A = Mailbox A × Result MailboxError (Option (PutResult A))}
          (λ r. (r.0.closed ≡ true) × (r.0.items ≡ m.items)) woken (λ _. (h, refl))
          (λ _.
            let same = try_put_closed c item p false accept_if allow m h in
            (ap (λ (b : Mailbox A). b.closed) same ∙ h, ap (λ (b : Mailbox A). b.items) same)))
]

get_from_quiet :
    {A : Type 0} (es : List (Entry A)) (m : Mailbox A)
    → m.items ≡ es
    → ((get_from es m).0.closed ≡ m.closed) × (m.items ≡ [] → (get_from es m).0.items ≡ [])
unfolding get_from
get_from_quiet [] m e = (refl, λ h. h)
get_from_quiet (x ∷ xs) m e = (refl, λ h. absurd (cc))

pub get_quiet :
    {A : Type 0} (m : Mailbox A)
    → ((get m).0.closed ≡ m.closed) × (m.items ≡ [] → (get m).0.items ≡ [])
unfolding get
get_quiet m = get_from_quiet m.items m refl

pub close-IsQuiet :
    {A : Type 0} (discard : Bool) (m : Mailbox A)
    → m.items ≡ []
    → IsQuiet (Mailbox.close discard m).0
unfolding Mailbox.close
close-IsQuiet true m h = (refl, refl)
close-IsQuiet false m h = (refl, h)

-- A closed source stays closed.
pub perform_closed :
    (k : Call) (source : CancellationSource)
    → source.closed ≡ true
    → (History.perform k source).closed ≡ true
unfolding History.perform advance Cancellation.cancel_current Cancellation.close
perform_closed (advance_call r now) source h = ground arith
perform_closed (History.cancel_call r now) source h = ground arith
perform_closed (close_call r now) source h = ground arith
