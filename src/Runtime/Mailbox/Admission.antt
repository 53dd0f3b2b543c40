-- ===== src/Runtime/Mailbox/Admission.antt =====
-- Who is let in: `put` on a full mailbox and attempts without displacement
-- (src/eeveetuber/runtime/mailbox.py).
use eeveetuber.Common.{
  ◌≤◌, ◌≡◌, refl, inl, inr, true, false, Option, none, some, List, [], ◌∷◌, ◌++◌, arith, length,
  All, ◌≢◌, ◌⊎◌,
}
use eeveetuber.Common.Int.{ℤ, ◌<ℤ◌, ◌≤ℤ◌}
use eeveetuber.Common.Result.{Result, ok}
use eeveetuber.Runtime.Mailbox.Queue.{Entry, evictable}
use eeveetuber.Runtime.Mailbox.QueueLaws.{Removed}
use eeveetuber.Runtime.Mailbox.EvictionLaws.{IsNewest, evictable_lem, evictable-none}
use eeveetuber.Runtime.Mailbox.{
  Config, Mailbox, PutResult, MailboxError, drop_lowest, coalesce, rejected_full, evicted_lowest,
  append, merge, merge_by, evict, evict_by, admit_full, admit_by, admit, try_put_open, try_put, put,
}

module _ {A K : Type 0} (c : Config A K) where
  abbrev entry : A → ℤ → Mailbox A → Entry A
  entry item p m = record { item = item; priority = p; order = m.next_order }

  -- The item is refused and nothing changes in the queue, since no entry is less important.
  abbrev pub Refused :
      A → ℤ → Mailbox A → Mailbox A × Result MailboxError (Option (PutResult A)) → Type 0
  Refused item p m r =
      (r.1 ≡ ok (some (record { outcome = rejected_full; item = item; displaced = none })))
      × (r.0.items ≡ m.items)
      × All (λ z. p ≤ℤ z.priority) m.items

  -- The item takes the place of one entry: a strictly less important one of the lowest tier, and the
  -- newest of that tier.
  abbrev pub Replaces :
      A → ℤ → Mailbox A → Mailbox A × Result MailboxError (Option (PutResult A)) → Type 0
  Replaces item p m r =
      (e : Entry A) × (rest : List (Entry A)) × (r.1
        ≡ ok (some (record { outcome = evicted_lowest; item = item; displaced = some e.item })))
      × Removed e m.items rest
      × (r.0.items ≡ rest ++ entry item p m ∷ [])
      × (e.priority <ℤ p)
      × All (λ z. e.priority ≤ℤ z.priority) m.items
      × IsNewest e.priority e m.items

  full_by_evictable :
      (item : A) (p : ℤ) (m : Mailbox A) (found : Option (Entry A × List (Entry A)))
      → evictable p m.items ≡ found
      → Refused item p m (admit_full c item p true found m)
        ⊎ Replaces item p m (admit_full c item p true found m)
  unfolding admit_full append
  full_by_evictable item p m none e = inl (refl, refl, evictable-none p m.items e)
  full_by_evictable item p m (some (dropped, rest)) e =
      let (removed, below, lowest, newest) = evictable_lem p m.items e in
      inr (dropped, rest, refl, removed, refl, below, lowest, newest)

  merge-none : (item : A) (es : List (Entry A)) → c.overflow ≢ coalesce → merge c item es ≡ none
  unfolding merge merge_by
  merge-none item es h = ground arith

  evict-drop_lowest :
      (p : ℤ) (es : List (Entry A)) → c.overflow ≡ drop_lowest → evict c true p es ≡ evictable p es
  unfolding evict evict_by
  evict-drop_lowest p es h = rw h

  put_full_lem :
      (item : A) (p : ℤ) (m : Mailbox A)
      → c.overflow ≡ drop_lowest
      → c.priority_of item ≡ some p
      → m.closed ≡ false
      → c.capacity ≤ length m.items
      → put c item m ≡ admit_full c item p true (evictable p m.items) m
  unfolding put try_put try_put_open admit admit_by
  put_full_lem item p m policy hp op full =
      ground (arith, merge-none item m.items (λ e. cc), evict-drop_lowest p m.items policy)

  -- Under the policy that drops the lowest, a put into a full open mailbox either is refused,
  -- with every queued entry at least as important and the queue unchanged, or replaces the newest
  -- entry of the lowest tier, which is strictly less important than the new item.
  pub put_full-drop_lowest :
      (item : A) (p : ℤ) (m : Mailbox A)
      → c.overflow ≡ drop_lowest
      → c.priority_of item ≡ some p
      → m.closed ≡ false
      → c.capacity ≤ length m.items
      → Refused item p m (put c item m) ⊎ Replaces item p m (put c item m)
  put_full-drop_lowest item p m policy hp op full =
      rw (put_full_lem item p m policy hp op full) (full_by_evictable item p m _ refl)
