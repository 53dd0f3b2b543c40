-- ===== src/Runtime/Mailbox/Delivery.antt =====
-- The order of delivery: `get` and `close` of src/eeveetuber/runtime/mailbox.py.
use eeveetuber.Common.{
  ℕ, zero, suc, ◌<◌, ◌≡◌, refl, true, List, [], ◌∷◌, arith, length, All, All-map, ◌≢◌, ◌⊎◌, map, ap,
  ◌∙◌, sym,
}
use eeveetuber.Common.Int.{◌<ℤ◌}
use eeveetuber.Runtime.Mailbox.Queue.{Entry, select, delivery_order, outranks}
use eeveetuber.Runtime.Mailbox.QueueLaws.{
  Removed, Ascending, select-Removed, length-Removed, select_best, delivery_order-select,
}
use eeveetuber.Runtime.Mailbox.Invariant.{IsValid}
use eeveetuber.Runtime.Mailbox.{Config, Mailbox, get, get_from, close, GetOutcome, received}

-- `a` is delivered before `b`: it is more important, or as important and older.
abbrev pub Before : {A : Type 0} → Entry A → Entry A → Type 0
Before a b = (b.priority <ℤ a.priority) ⊎ ((a.priority ≡ b.priority) × (a.order < b.order))

outranks-Before : {A : Type 0} (a b : Entry A) → outranks a b ≡ true → Before a b
unfolding outranks
outranks-Before a b h = ground arith

get_from_best :
    {A : Type 0} (next : ℕ) (es : List (Entry A)) (m : Mailbox A)
    → Ascending 0 next es
    → es ≢ []
    → (e : Entry A) × Removed e es (get_from es m).0.items
      × ((get_from es m).1 ≡ received e.item)
      × All (Before e) (get_from es m).0.items
unfolding get_from
get_from_best next [] m a h = absurd (h refl)
get_from_best next (x ∷ xs) m a h =
    let best = (select x xs).0 in
    (
      best,
      select-Removed x xs,
      refl,
      All-map (λ y. outranks best y ≡ true) (Before best) (select x xs).1
          (λ y p. outranks-Before best y p) (select_best 0 next x xs a).1,
    )

-- From a well-formed mailbox that holds something, `get` delivers the item of exactly one queued
-- entry, takes that entry out and leaves the others as they stand, and every entry that stays
-- behind is less important or, at equal priority, newer (first in, first out).
pub get-takes_best :
    {A K : Type 0} (c : Config A K) (m : Mailbox A)
    → IsValid c m
    → m.items ≢ []
    → (e : Entry A) × Removed e m.items (get m).0.items
      × ((get m).1 ≡ received e.item)
      × All (Before e) (get m).0.items
unfolding get
get-takes_best c m v h = get_from_best m.next_order m.items m v.queue.ordered h

-- The items that `get` delivers in turn, for at most `n` calls, until it would block or raise.
pub drain : {A : Type 0} → ℕ → Mailbox A → List A
drain zero m = []
drain (suc n) m = elim (get m).1 [ received a ↦ a ∷ drain n (get m).0 | _ ↦ [] ]

drain_step :
    {A : Type 0} (n : ℕ) (m m' : Mailbox A) (a : A)
    → get m ≡ (m', received a)
    → drain (suc n) m ≡ a ∷ drain n m'
unfolding drain
drain_step {A} n m m' a h = rw (h, drain) (ap (λ (r : Mailbox A × GetOutcome A). a ∷ drain n r.0) h)

get_step : {A : Type 0} (m : Mailbox A) (es : List (Entry A)) → m.items ≡ es → get m ≡ get_from es m
unfolding get
get_step m es h = ap (λ l. get_from l m) h

drain-delivery_order :
    {A : Type 0} (n : ℕ) (es : List (Entry A)) (m : Mailbox A)
    → m.items ≡ es
    → length es ≡ n
    → drain n m ≡ map (λ e. e.item) (delivery_order es)
unfolding drain get_from
drain-delivery_order zero [] m e l = unfold delivery_order in refl
drain-delivery_order zero (x ∷ xs) m e l = absurd (omega arith)
drain-delivery_order (suc n) [] m e l = absurd (omega arith)
drain-delivery_order (suc n) (x ∷ xs) m e l =
    let m' = (get_from (x ∷ xs) m).0 in
    let best = (select x xs).0 in
    let rest = (select x xs).1 in
    let shorter = length-Removed (select-Removed x xs) in
    drain_step n m m' best.item (get_step m (x ∷ xs) e)
    ∙ ap (λ t. best.item ∷ t) (drain-delivery_order n rest m' refl (omega arith))
    ∙ sym (ap (map (λ y. y.item)) (delivery_order-select x xs))

-- `close(discard=True)` returns what repeated `get` calls would have delivered, in the same order.
pub close-eq-drain : {A : Type 0} (m : Mailbox A) → (close true m).1 ≡ drain (length m.items) m
unfolding close
close-eq-drain m = sym (drain-delivery_order (length m.items) m.items m refl refl)
