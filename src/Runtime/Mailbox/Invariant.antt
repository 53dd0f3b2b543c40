-- ===== src/Runtime/Mailbox/Invariant.antt =====
-- What holds of a mailbox between two calls (src/eeveetuber/runtime/mailbox.py).
use eeveetuber.Common.{
  ℕ, ◌+◌, ◌≤◌, ◌<◌, ◌≡◌, refl, true, false, some, List, [], ◌∷◌, ◌++◌, arith, length, All,
  All-append, ltb, length-append, ◌⊎◌,
}
use eeveetuber.Common.Int.{ℤ}
use eeveetuber.Runtime.Mailbox.Queue.{Entry}
use eeveetuber.Runtime.Mailbox.QueueLaws.{Ascending, Ascending-append}
use eeveetuber.Runtime.Mailbox.{Config, Mailbox, append}

module _ {A K : Type 0} (c : Config A K) where
  -- The queue part: bounded, in order of admission, every stored priority that of its item.
  pub record IsQueue (next : ℕ) (es : List (Entry A)) : Type 0 where
    pub bounded : length es ≤ c.capacity
    pub ordered : Ascending 0 next es
    pub priced : All (λ e. c.priority_of e.item ≡ some e.priority) es

  pub record IsValid (m : Mailbox A) : Type 0 where
    pub queue : IsQueue m.next_order m.items
    pub conserved :
        m.accepted ≡ m.dequeued + m.coalesced + m.evicted + m.discarded_on_close + length m.items
    pub water : (length m.items ≤ m.high_watermark) × (m.high_watermark ≤ c.capacity)
    -- A waiting producer is woken exactly while there is room.
    pub gate : m.closed ≡ false → m.space_available ≡ ltb (length m.items) c.capacity

  pub append-IsValid :
      (item : A) (priority : ℤ) (m : Mailbox A)
      → c.priority_of item ≡ some priority
      → length m.items < c.capacity
      → IsQueue m.next_order m.items
      → m.accepted ≡ m.dequeued + m.coalesced + m.evicted + m.discarded_on_close + length m.items
      → (length m.items ≤ m.high_watermark) × (m.high_watermark ≤ c.capacity)
      → (m.space_available ≡ true) ⊎ (c.capacity ≡ length m.items + 1)
      → IsValid (append c item priority m)
  unfolding append
  append-IsValid item priority m hp room q cons water gate =
      let e : Entry A = record { item = item; priority = priority; order = m.next_order } in
      let len : length (m.items ++ e ∷ []) ≡ length m.items + 1 =
        omega (arith, length-append m.items (e ∷ [])) in
      record {
        queue = record {
          bounded = omega (arith, len);
          ordered = Ascending-append 0 m.next_order m.items e q.ordered refl;
          priced =
              All-append (λ x. c.priority_of x.item ≡ some x.priority) m.items (e ∷ []) q.priced
                (hp, tt);
        };
        conserved = omega (arith, len);
        water = (omega (arith, len), omega (arith, len));
        gate = λ _. ground (arith, len);
      }
