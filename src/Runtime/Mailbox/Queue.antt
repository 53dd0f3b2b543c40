-- ===== src/Runtime/Mailbox/Queue.antt =====
-- The list operations behind the mailbox (src/eeveetuber/runtime/mailbox.py): the choice of the
-- next entry (`get`), of the entry to evict (`_try_put_locked`) and the delivery order (`close`).
use eeveetuber.Common.{
  ℕ, Bool, not, ◌&&◌, ◌||◌, Option, none, some, List, [], ◌∷◌, ltb, if◌then◌else◌,
}
use eeveetuber.Common.Int.{ℤ, ltb_ℤ, eqb_ℤ}

-- `_Entry`
pub record Entry (A : Type 0) : Type 0 where
  pub item : A
  pub priority : ℤ
  pub order : ℕ

module _ {A : Type 0} where
  -- (a.priority, -a.order) > (b.priority, -b.order), which is also the order of `sorted` in `close`.
  unfoldable pub outranks : Entry A → Entry A → Bool
  outranks a b = ltb_ℤ b.priority a.priority || (eqb_ℤ a.priority b.priority && ltb a.order b.order)

  -- `max` over the indices, which keeps the first of equal keys, and the `pop` of what it finds.
  unfoldable pub select : Entry A → List (Entry A) → Entry A × List (Entry A)
  select x [] = (x, [])
  select x (y ∷ ys) =
      let (best, rest) = select y ys in if outranks best x then (best, x ∷ rest) else (x, y ∷ ys)

  -- `min(entry.priority for entry in items)`
  unfoldable pub lowest_priority : Entry A → List (Entry A) → ℤ
  lowest_priority x [] = x.priority
  lowest_priority x (y ∷ ys) =
      let rest = lowest_priority y ys in if ltb_ℤ rest x.priority then rest else x.priority

  -- The entry of greatest order among those of priority `p`, and the list without it.
  unfoldable pub pop_newest : ℤ → List (Entry A) → Option (Entry A × List (Entry A))
  pop_newest p [] = none
  pop_newest p (x ∷ xs) = elim (pop_newest p xs) [
    | none ↦ if eqb_ℤ x.priority p then some (x, xs) else none
    | some (newest, rest) ↦
        if eqb_ℤ x.priority p && not (ltb x.order newest.order)
        then some (x, xs)
        else some (newest, x ∷ rest)
  ]

  unfoldable pub evictable : ℤ → List (Entry A) → Option (Entry A × List (Entry A))
  evictable priority [] = none
  evictable priority (x ∷ xs) =
      if ltb_ℤ (lowest_priority x xs) priority
      then pop_newest (lowest_priority x xs) (x ∷ xs)
      else none

  unfoldable pub insert : Entry A → List (Entry A) → List (Entry A)
  insert x [] = x ∷ []
  insert x (y ∷ ys) = if outranks y x then y ∷ insert x ys else x ∷ y ∷ ys

  -- `sorted(items, key=lambda entry: (-entry.priority, entry.order))`, which is stable.
  unfoldable pub delivery_order : List (Entry A) → List (Entry A)
  unfolding insert
  delivery_order [] = []
  delivery_order (x ∷ xs) = insert x (delivery_order xs)
