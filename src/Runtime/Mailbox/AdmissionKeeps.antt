-- ===== src/Runtime/Mailbox/AdmissionKeeps.antt =====
-- `_try_put_locked` keeps the mailbox well-formed (src/eeveetuber/runtime/mailbox.py).
use eeveetuber.Common.{
  ℕ, suc, ◌+◌, ◌≡◌, refl, inl, inr, Bool, true, false, Option, none, some, List, [], ◌∷◌, arith,
  length, All, Bool-cases, Option-cases, subst, ltb, ap, if_cases,
}
use eeveetuber.Common.Int.{ℤ}
use eeveetuber.Common.Result.{Result}
use eeveetuber.Runtime.Mailbox.Queue.{Entry, evictable}
use eeveetuber.Runtime.Mailbox.QueueLaws.{Ascending, length-Removed, Ascending-Removed, All-Removed}
use eeveetuber.Runtime.Mailbox.EvictionLaws.{evictable_lem}
use eeveetuber.Runtime.Mailbox.{
  Config, Mailbox, PutResult, MailboxError, OverflowPolicy, reject, drop_lowest, coalesce, merge,
  merge_first, evict, merge_by, evict_by, admit_full, admit_by, admit, try_put_open, try_put,
  key_matches,
}
use eeveetuber.Runtime.Mailbox.Invariant.{IsValid, append-IsValid}

module _ {A K : Type 0} (c : Config A K) where
  -- The queue after an update in place: orders, stored priorities and length are kept.
  abbrev Kept : ℕ → ℕ → List (Entry A) → List (Entry A) → Type 0
  Kept lo hi es es' =
      Ascending lo hi es'
      × All (λ e. c.priority_of e.item ≡ some e.priority) es'
      × (length es' ≡ length es)

  merge_first-Kept :
      (key : A → Option K) (k : K) (item : A) (lo hi : ℕ) (es : List (Entry A)) {old new_item : A}
      {es' : List (Entry A)}
      → merge_first c key k item es ≡ some (some (old, new_item, es'))
      → Ascending lo hi es
      → All (λ e. c.priority_of e.item ≡ some e.priority) es
      → Kept lo hi es es'
  unfolding merge_first
  merge_first-Kept key k item lo hi [] h a p = absurd (cc)
  merge_first-Kept key k item lo hi (e ∷ es) {old} {new_item} {es'} h a p =
      let combined = c.coalescer e.item item in
      elim (Bool-cases (key_matches c key k e.item)) [
        | inl t ↦ elim (Option-cases (c.priority_of combined)) [
          | inl n ↦ absurd (ground arith)
          | inr (q, s) ↦
              let e' : Entry A = record e { item = combined; priority = q } in
              let same : e' ∷ es ≡ es' = ground arith in
              subst (Kept lo hi (e ∷ es)) same ((a.0, a.1), (s, p.1), refl)
        ]
        | inr f ↦ elim (Option-cases (merge_first c key k item es)) [
          | inl n ↦ absurd (ground arith)
          | inr (none, s) ↦ absurd (ground arith)
          | inr (some (o, n, rest), s) ↦
              let same : e ∷ rest ≡ es' = ground arith in
              let (a', p', l') = merge_first-Kept key k item (suc e.order) hi es s a.1 p.1 in
              subst (Kept lo hi (e ∷ es)) same ((a.0, a'), (p.0, p'), ap suc l')
        ]
      ]

  merge_by-Kept :
      (o : OverflowPolicy) (key : Option (A → Option K)) (item : A) (hi : ℕ) (es : List (Entry A))
      {old new_item : A} {es' : List (Entry A)}
      → merge_by c o key item es ≡ some (some (old, new_item, es'))
      → Ascending 0 hi es
      → All (λ e. c.priority_of e.item ≡ some e.priority) es
      → Kept 0 hi es es'
  unfolding merge_by
  merge_by-Kept coalesce (some key) item hi es {old} {new_item} {es'} h a p =
      elim (Option-cases (key item)) [
        | inl n ↦ absurd (ground arith)
        | inr (k, s) ↦
            merge_first-Kept key k item 0 hi es {old = old} {new_item = new_item} {es' = es'}
              (ground arith) a p
      ]
  merge_by-Kept coalesce none item hi es h a p = absurd (cc)
  merge_by-Kept reject key item hi es h a p = absurd (cc)
  merge_by-Kept drop_lowest key item hi es h a p = absurd (cc)

  merge-Kept :
      (item : A) (hi : ℕ) (es : List (Entry A)) {old new_item : A} {es' : List (Entry A)}
      → merge c item es ≡ some (some (old, new_item, es'))
      → Ascending 0 hi es
      → All (λ e. c.priority_of e.item ≡ some e.priority) es
      → Kept 0 hi es es'
  unfolding merge
  merge-Kept item hi es h a p = merge_by-Kept c.overflow c.coalesce_key item hi es h a p

  -- What the mailbox evicts is what `evictable` finds, under the policy that allows it.
  evict_by_lem :
      (o : OverflowPolicy) (allow : Bool) (priority : ℤ) (es : List (Entry A))
      {r : Entry A × List (Entry A)}
      → evict_by c o allow priority es ≡ some r
      → (o ≡ drop_lowest) × (allow ≡ true) × (evictable priority es ≡ some r)
  unfolding evict_by
  evict_by_lem drop_lowest true priority es h = (refl, refl, h)
  evict_by_lem drop_lowest false priority es h = absurd (cc)
  evict_by_lem reject allow priority es h = absurd (cc)
  evict_by_lem coalesce allow priority es h = absurd (cc)

  pub evict_lem :
      (allow : Bool) (priority : ℤ) (es : List (Entry A)) {r : Entry A × List (Entry A)}
      → evict c allow priority es ≡ some r
      → (c.overflow ≡ drop_lowest) × (allow ≡ true) × (evictable priority es ≡ some r)
  unfolding evict
  evict_lem allow priority es h = evict_by_lem c.overflow allow priority es h

  admit_full-IsValid :
      (item : A) (priority : ℤ) (now allow : Bool) (found : Option (Entry A × List (Entry A)))
      (m : Mailbox A)
      → c.priority_of item ≡ some priority
      → ltb (length m.items) c.capacity ≡ false
      → m.closed ≡ false
      → evict c allow priority m.items ≡ found
      → IsValid c m
      → IsValid c (admit_full c item priority now found m).0
  unfolding admit_full
  admit_full-IsValid item priority now allow (some (dropped, items')) m hp full op e v =
      let removed = (evictable_lem priority m.items ((evict_lem allow priority m.items e).2)).0 in
      let shorter = length-Removed removed in
      append-IsValid c item priority (record m { items = items'; evicted = m.evicted + 1 }) hp
        (omega (arith, v.queue.bounded))
        (record {
          bounded = omega (arith, v.queue.bounded);
          ordered = Ascending-Removed 0 m.next_order removed v.queue.ordered;
          priced =
              (All-Removed (λ x. c.priority_of x.item ≡ some x.priority) removed v.queue.priced).1;
        })
        (omega (arith, v.conserved)) (omega (arith, v.water.0), v.water.1)
        (inr (ground (arith, v.queue.bounded)))
  admit_full-IsValid item priority true allow none m hp full op e v = record {
    queue = v.queue;
    conserved = v.conserved;
    water = v.water;
    gate = v.gate;
  }
  admit_full-IsValid item priority false allow none m hp full op e v = v

  admit_by-IsValid :
      (found : Option (Option (A × A × List (Entry A)))) (item : A) (priority : ℤ)
      (now allow : Bool) (m : Mailbox A)
      → merge c item m.items ≡ found
      → c.priority_of item ≡ some priority
      → m.closed ≡ false
      → IsValid c m
      → IsValid c (admit_by c found item priority now allow m).0
  unfolding admit_by
  admit_by-IsValid (some none) item priority now allow m e hp op v = v
  admit_by-IsValid (some (some (old, combined, items'))) item priority now allow m e hp op v =
      let (ordered', priced', same) =
        merge-Kept item m.next_order m.items e v.queue.ordered v.queue.priced in
      record {
        queue = record {
          bounded = omega (arith, v.queue.bounded);
          ordered = ordered';
          priced = priced';
        };
        conserved = omega (arith, v.conserved);
        water = (omega (arith, v.water.0), v.water.1);
        gate = λ h. rw same (v.gate h);
      }
  admit_by-IsValid none item priority now allow m e hp op v =
      elim (Bool-cases (ltb (length m.items) c.capacity)) [
        | inl room ↦ rw room (
            append-IsValid c item priority m hp (ground arith) v.queue v.conserved v.water
              (inl (ground (arith, v.gate op))))
        | inr full ↦ rw full (admit_full-IsValid item priority now allow _ m hp full op refl v)
      ]

  try_put_open-IsValid :
      (accept_if : Option Bool) (item : A) (priority : ℤ) (now allow : Bool) (m : Mailbox A)
      → c.priority_of item ≡ some priority
      → m.closed ≡ false
      → IsValid c m
      → IsValid c (try_put_open c accept_if item priority now allow m).0
  unfolding try_put_open admit
  try_put_open-IsValid (some false) item priority now allow m hp live v = record {
    queue = v.queue;
    conserved = v.conserved;
    water = v.water;
    gate = v.gate;
  }
  try_put_open-IsValid (some true) item priority now allow m hp live v =
      admit_by-IsValid _ item priority now allow m refl hp live v
  try_put_open-IsValid none item priority now allow m hp live v =
      admit_by-IsValid _ item priority now allow m refl hp live v

  pub try_put-IsValid :
      (item : A) (priority : ℤ) (now : Bool) (accept_if : Option Bool) (allow : Bool)
      (m : Mailbox A)
      → c.priority_of item ≡ some priority
      → IsValid c m
      → IsValid c (try_put c item priority now accept_if allow m).0
  unfolding try_put
  try_put-IsValid item priority now accept_if allow m hp v =
      if_cases {A = Mailbox A × Result MailboxError (Option (PutResult A))} (λ r. IsValid c r.0)
        m.closed (λ shut. v)
        (λ live. try_put_open-IsValid accept_if item priority now allow m hp live v)
