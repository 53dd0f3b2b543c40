-- ===== src/Runtime/Mailbox/EvictionLaws.antt =====
-- Laws of the choice of the entry to evict (src/eeveetuber/runtime/mailbox.py, `_try_put_locked`).
use eeveetuber.Common.{
  ◌≤◌, ◌≡◌, refl, inl, inr, true, false, not, ◌&&◌, none, some, List, [], ◌∷◌, arith, All, All-map,
  Bool-cases, Option-cases, subst, ltb, sym, ◌⊎◌,
}
use eeveetuber.Common.Int.{ℤ, eqb_ℤ, ltb_ℤ, ◌≤ℤ◌, ◌<ℤ◌}
use eeveetuber.Runtime.Mailbox.Queue.{Entry, lowest_priority, pop_newest, evictable}
use eeveetuber.Runtime.Mailbox.QueueLaws.{Removed, pop_newest-Removed}

module _ {A : Type 0} where
  lowest_step :
      (x y : Entry A) (ys : List (Entry A))
      → ((ltb_ℤ (lowest_priority y ys) x.priority ≡ true)
          × (lowest_priority x (y ∷ ys) ≡ lowest_priority y ys))
        ⊎ ((x.priority ≤ℤ lowest_priority y ys) × (lowest_priority x (y ∷ ys) ≡ x.priority))
  unfolding lowest_priority
  lowest_step x y ys = elim (Bool-cases (ltb_ℤ (lowest_priority y ys) x.priority)) [
    | inl e ↦ inl (e, rw e)
    | inr e ↦ inr (ground arith, rw e)
  ]

  lowest_one : (x : Entry A) → lowest_priority x [] ≡ x.priority
  unfolding lowest_priority
  lowest_one x = refl

  abbrev AllAbove : ℤ → List (Entry A) → Type 0
  AllAbove p xs = All (λ z. p ≤ℤ z.priority) xs

  lowest-le : (x : Entry A) (xs : List (Entry A)) → AllAbove (lowest_priority x xs) (x ∷ xs)
  lowest-le x [] = rw (lowest_one x) (omega arith, tt)
  lowest-le x (y ∷ ys) = elim (lowest_step x y ys) [
    | inl (t, e) ↦ subst (λ p. AllAbove p (x ∷ y ∷ ys)) (sym e) (ground arith, lowest-le y ys)
    | inr (l, e) ↦
        subst (λ p. AllAbove p (x ∷ y ∷ ys)) (sym e)
          (
            omega arith,
            All-map (λ z. lowest_priority y ys ≤ℤ z.priority) (λ z. x.priority ≤ℤ z.priority)
                (y ∷ ys) (λ z h. omega arith) (lowest-le y ys),
          )
  ]

  abbrev NoneAt : ℤ → List (Entry A) → Type 0
  NoneAt p xs = All (λ z. eqb_ℤ z.priority p ≡ false) xs

  -- The lowest priority is that of some entry.
  lowest_found : (x : Entry A) (xs : List (Entry A)) → NoneAt (lowest_priority x xs) (x ∷ xs) → ⊥
  lowest_found x [] h =
      let k = subst (λ p. NoneAt p (x ∷ [])) (lowest_one x) h in ground (arith, k.0)
  lowest_found x (y ∷ ys) h = elim (lowest_step x y ys) [
    | inl (t, e) ↦ lowest_found y ys ((subst (λ p. NoneAt p (x ∷ y ∷ ys)) e h).1)
    | inr (l, e) ↦ let k = subst (λ p. NoneAt p (x ∷ y ∷ ys)) e h in ground (arith, k.0)
  ]

  -- No entry of priority `p` in the list is newer than `e`.
  abbrev pub IsNewest : ℤ → Entry A → List (Entry A) → Type 0
  IsNewest p e xs = All (λ z. eqb_ℤ z.priority p ≡ true → z.order ≤ e.order) xs

  pop_newest-none :
      (p : ℤ) (xs : List (Entry A))
      → pop_newest p xs ≡ none
      → All (λ z. eqb_ℤ z.priority p ≡ false) xs
  unfolding pop_newest
  pop_newest-none p [] h = tt
  pop_newest-none p (x ∷ xs) h = elim (Option-cases (pop_newest p xs)) [
    | inl q ↦ (ground arith, pop_newest-none p xs q)
    | inr ((b, rest), q) ↦ absurd (ground arith)
  ]

  pop_newest_lem :
      (p : ℤ) (xs : List (Entry A)) {e : Entry A} {ys : List (Entry A)}
      → pop_newest p xs ≡ some (e, ys)
      → (eqb_ℤ e.priority p ≡ true) × IsNewest p e xs
  unfolding pop_newest
  pop_newest_lem p [] h = absurd (cc)
  pop_newest_lem p (x ∷ xs) {e} h = elim (Option-cases (pop_newest p xs)) [
    | inl q ↦
        let same : x ≡ e = ground arith in
        (
          ground arith,
          (
            λ _. rw same (omega arith),
            All-map (λ z. eqb_ℤ z.priority p ≡ false) _ xs (λ z f t. absurd (cc))
                (pop_newest-none p xs q),
          ),
        )
    | inr ((b, rest), q) ↦
        let (eq, newest) = pop_newest_lem p xs q in
        elim (Bool-cases (eqb_ℤ x.priority p && not (ltb x.order b.order))) [
          | inl t ↦
              let same : x ≡ e = ground arith in
              (
                ground arith,
                (
                  λ _. rw same (omega arith),
                  All-map (λ z. eqb_ℤ z.priority p ≡ true → z.order ≤ b.order) _ xs
                      (λ z f u. ground (arith, f u)) newest,
                ),
              )
          | inr f ↦
              let same : b ≡ e = ground arith in
              subst (λ w. (eqb_ℤ w.priority p ≡ true) × IsNewest p w (x ∷ xs)) same
                (eq, (λ u. ground arith, newest))
        ]
  ]

  -- The evicted entry is below the new priority, no entry is below it, and none of its tier is newer.
  pub evictable_lem :
      (priority : ℤ) (xs : List (Entry A)) {e : Entry A} {ys : List (Entry A)}
      → evictable priority xs ≡ some (e, ys)
      → Removed e xs ys
        × (e.priority <ℤ priority)
        × All (λ z. e.priority ≤ℤ z.priority) xs
        × IsNewest e.priority e xs
  unfolding evictable
  evictable_lem priority [] h = absurd (cc)
  evictable_lem priority (x ∷ xs) {e} {ys} h =
      let p = lowest_priority x xs in
      elim (Bool-cases (ltb_ℤ p priority)) [
        | inl t ↦
            let q : pop_newest p (x ∷ xs) ≡ some (e, ys) = ground arith in
            let (eq, newest) = pop_newest_lem p (x ∷ xs) q in
            (
              pop_newest-Removed p (x ∷ xs) q,
              ground arith,
              All-map (λ z. p ≤ℤ z.priority) _ (x ∷ xs) (λ z f. ground arith) (lowest-le x xs),
              All-map (λ z. eqb_ℤ z.priority p ≡ true → z.order ≤ e.order) _ (x ∷ xs)
                  (λ z f u. f (ground arith)) newest,
            )
        | inr f ↦ absurd (ground arith)
      ]

  -- Nothing is evicted exactly where every pending entry has at least the new priority.
  pub evictable-none :
      (priority : ℤ) (xs : List (Entry A))
      → evictable priority xs ≡ none
      → All (λ z. priority ≤ℤ z.priority) xs
  unfolding evictable
  evictable-none priority [] h = tt
  evictable-none priority (x ∷ xs) h =
      let p = lowest_priority x xs in
      elim (Bool-cases (ltb_ℤ p priority)) [
        | inl t ↦ absurd (lowest_found x xs (pop_newest-none p (x ∷ xs) (ground arith)))
        | inr f ↦ All-map (λ z. p ≤ℤ z.priority) _ (x ∷ xs) (λ z k. ground arith) (lowest-le x xs)
      ]
