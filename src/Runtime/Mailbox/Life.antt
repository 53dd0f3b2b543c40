-- ===== src/Runtime/Mailbox/Life.antt =====
-- The life of a mailbox (src/eeveetuber/runtime/mailbox.py): every sequence of calls on it.
use eeveetuber.Common.{
  ℕ, ◌<◌, ◌≡◌, refl, inl, inr, Bool, true, false, Option, none, some, List, [], ◌∷◌, arith, length,
  All, Option-cases, subst, ap,
}
use eeveetuber.Common.Int.{ℤ, pos, negsuc}
use eeveetuber.Common.Result.{ok}
use eeveetuber.Runtime.Mailbox.Queue.{Entry}
use eeveetuber.Runtime.Mailbox.QueueLaws.{
  Ascending, select-Removed, length-Removed, Ascending-Removed, All-Removed, length-delivery_order,
}
use eeveetuber.Runtime.Mailbox.Invariant.{IsValid}
use eeveetuber.Runtime.Mailbox.AdmissionKeeps.{try_put-IsValid}
use eeveetuber.Runtime.Mailbox.{Config, Mailbox, new, empty, try_put, put, get, get_from, close}

-- A call on a mailbox: an attempt to put (with what `accept_if` returns, if it was given), a get, a
-- close.
pub data Call (A : Type 0) : Type 0 where
  put_call : A → Call A
  attempt_call : A → Option Bool → Bool → Call A
  get_call : Call A
  close_call : Bool → Call A

module _ {A K : Type 0} (c : Config A K) where
  -- One iteration of `put_wait`'s loop: the priority check and one attempt.
  unfoldable pub attempt : A → Option Bool → Bool → Mailbox A → Mailbox A
  attempt item accept_if allow m = elim (c.priority_of item) [
    | none ↦ m
    | some p ↦ (try_put c item p false accept_if allow m).0
  ]

  unfoldable pub perform : Call A → Mailbox A → Mailbox A
  unfolding attempt
  perform (put_call item) m = (put c item m).0
  perform (attempt_call item accept_if allow) m = attempt item accept_if allow m
  perform get_call m = (get m).0
  perform (close_call discard) m = (close discard m).0

  unfoldable pub perform_all : List (Call A) → Mailbox A → Mailbox A
  unfolding perform
  perform_all [] m = m
  perform_all (k ∷ ks) m = perform_all ks (perform k m)

  put-IsValid : (item : A) (m : Mailbox A) → IsValid c m → IsValid c (put c item m).0
  unfolding put
  put-IsValid item m v = elim (Option-cases (c.priority_of item)) [
    | inl e ↦ rw (e, put) v
    | inr (p, e) ↦ rw (e, put) (try_put-IsValid c item p true none true m e v)
  ]

  attempt-IsValid :
      (item : A) (accept_if : Option Bool) (allow : Bool) (m : Mailbox A)
      → IsValid c m
      → IsValid c (attempt item accept_if allow m)
  unfolding attempt
  attempt-IsValid item accept_if allow m v = elim (Option-cases (c.priority_of item)) [
    | inl e ↦ rw (e, attempt) v
    | inr (p, e) ↦ rw (e, attempt) (try_put-IsValid c item p false accept_if allow m e v)
  ]

  get_from-IsValid :
      (es : List (Entry A)) (m : Mailbox A)
      → m.items ≡ es
      → 0 < c.capacity
      → IsValid c m
      → IsValid c (get_from es m).0
  unfolding get_from
  get_from-IsValid [] m e room v = v
  get_from-IsValid (x ∷ xs) m e room v =
      let removed = select-Removed x xs in
      let shorter = length-Removed removed in
      let ordered = subst (Ascending 0 m.next_order) e v.queue.ordered in
      let priced = subst (All (λ y. c.priority_of y.item ≡ some y.priority)) e v.queue.priced in
      let len = ap length e in
      record {
        queue = record {
          bounded = omega (arith, v.queue.bounded);
          ordered = Ascending-Removed 0 m.next_order removed ordered;
          priced = (All-Removed (λ y. c.priority_of y.item ≡ some y.priority) removed priced).1;
        };
        conserved = omega (arith, v.conserved);
        water = (omega (arith, v.water.0), v.water.1);
        gate = λ h. ground (arith, v.queue.bounded);
      }

  close-IsValid : (discard : Bool) (m : Mailbox A) → IsValid c m → IsValid c (close discard m).0
  unfolding close
  close-IsValid true m v = record {
    queue = record { bounded = omega arith; ordered = omega arith; priced = tt };
    conserved = omega (arith, v.conserved, length-delivery_order m.items);
    water = (omega arith, v.water.1);
    gate = λ h. absurd (cc);
  }
  close-IsValid false m v = record {
    queue = v.queue;
    conserved = v.conserved;
    water = v.water;
    gate = λ h. absurd (cc);
  }

  perform-IsValid :
      (k : Call A) (m : Mailbox A) → 0 < c.capacity → IsValid c m → IsValid c (perform k m)
  unfolding perform get
  perform-IsValid (put_call item) m room v = put-IsValid item m v
  perform-IsValid (attempt_call item accept_if allow) m room v =
      attempt-IsValid item accept_if allow m v
  perform-IsValid get_call m room v = get_from-IsValid m.items m refl room v
  perform-IsValid (close_call discard) m room v = close-IsValid discard m v

  pub perform_all-IsValid :
      (ks : List (Call A)) (m : Mailbox A)
      → 0 < c.capacity
      → IsValid c m
      → IsValid c (perform_all ks m)
  unfolding perform_all
  perform_all-IsValid [] m room v = v
  perform_all-IsValid (k ∷ ks) m room v =
      perform_all-IsValid ks (perform k m) room (perform-IsValid k m room v)

new-empty :
    {A K : Type 0} (n : ℕ) (c₀ c : Config A K) (m : Mailbox A)
    → new (pos n) c₀ ≡ ok (c, m)
    → (0 < c.capacity) × (empty ≡ m)
unfolding new
new-empty n c₀ c m h = (ground arith, ground arith)

empty-IsValid : {A K : Type 0} (c : Config A K) → 0 < c.capacity → IsValid c empty
empty-IsValid c room = record {
  queue = record { bounded = omega arith; ordered = omega arith; priced = tt };
  conserved = refl;
  water = (omega arith, omega arith);
  gate = λ _. ground arith;
}

-- A mailbox that the constructor accepts stays well-formed under every sequence of puts, attempts,
-- gets and closes: it never holds more than its capacity, the entries stand in the order of their
-- admission with the priorities of their items, each accepted item is accounted for once (delivered,
-- merged, evicted, discarded or still queued), the high-water mark lies between the queue's length
-- and the capacity, and until it is closed the wake-up event for producers is set exactly while
-- there is room.
pub calls-IsValid :
    {A K : Type 0} (capacity : ℤ) (c₀ c : Config A K) (m : Mailbox A) (ks : List (Call A))
    → new capacity c₀ ≡ ok (c, m)
    → IsValid c (perform_all c ks m)
unfolding new
calls-IsValid (negsuc _) c₀ c m ks h = absurd (cc)
calls-IsValid (pos n) c₀ c m ks h =
    let (room, start) = new-empty n c₀ c m h in
    perform_all-IsValid c ks m room (subst (IsValid c) start (empty-IsValid c room))
