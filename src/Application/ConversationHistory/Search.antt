-- ===== src/Application/ConversationHistory/Search.antt =====
-- The binary search of `_fit_message` (src/eeveetuber/application/conversation_history.py).
use eeveetuber.Common.{
  ℕ, zero, suc, ◌+◌, ◌-◌, ◌/◌, ◌≤◌, ◌<◌, ◌≡◌, refl, inl, inr, Bool, true, false, ◌&&◌, Option, none,
  some, arith, Bool-cases, if_cases, ltb, leb,
}
use eeveetuber.Application.ConversationHistory.{search_size}

module _ (fits : ℕ → Bool) where
  -- A size that was found fits.
  abbrev pub IsFit : Option ℕ → Type 0
  IsFit none = Unit
  IsFit (some n) = (0 < n) × (fits n ≡ true)

  abbrev IsLow : ℕ → Option ℕ → Type 0
  IsLow low none = low ≡ 0
  IsLow low (some b) = low ≡ suc b

  -- What is known of the sizes below `low`, and of those from `top` on up to a limit.
  abbrev IsNarrowed : ℕ → ℕ → ℕ → Option ℕ → Type 0
  IsNarrowed limit low top best =
      IsLow low best × ((n : ℕ) → top ≤ n → n < limit → 1 < n → fits n ≡ true → ⊥)

  -- No size that fits is larger, where a size is at least 2.
  abbrev pub IsLargest : ℕ → Option ℕ → Type 0
  IsLargest limit none = (n : ℕ) → n < limit → 1 < n → fits n ≡ true → ⊥
  IsLargest limit (some b) = (n : ℕ) → n < limit → 1 < n → fits n ≡ true → n ≤ b

  module _ (IsGood : ℕ → ℕ → Option ℕ → Type 0)
      (raises : (low top : ℕ) (best : Option ℕ)
        → low < top
        → IsGood low top best
        → 0 < (low + (top - 1)) / 2
        → fits ((low + (top - 1)) / 2) ≡ true
        → IsGood ((low + (top - 1)) / 2 + 1) top (some ((low + (top - 1)) / 2)))
      (lowers : (low top : ℕ) (best : Option ℕ)
        → low < top
        → IsGood low top best
        → (ltb 0 ((low + (top - 1)) / 2) && fits ((low + (top - 1)) / 2)) ≡ false
        → IsGood low ((low + (top - 1)) / 2) best) where
    -- With fuel for each size in the range, the search ends where `low` and `top` meet.
    search_size-IsTotal :
        (fuel low top : ℕ) (best : Option ℕ)
        → top - low < fuel
        → IsGood low top best
        → (r : Option ℕ) × ((search_size fuel fits low top best ≡ some r)
            × ((low₁ : ℕ) × ((top₁ : ℕ) × ((top₁ ≤ low₁) × IsGood low₁ top₁ r))))
    unfolding search_size
    search_size-IsTotal zero low top best enough h = absurd (omega arith)
    search_size-IsTotal (suc fuel) low top best enough h =
        let midpoint = (low + (top - 1)) / 2 in
        let P = λ (o : Option (Option ℕ)).
          (r : Option ℕ) × ((o ≡ some r)
            × ((low₁ : ℕ) × ((top₁ : ℕ) × ((top₁ ≤ low₁) × IsGood low₁ top₁ r)))) in
        if_cases P (leb top low) (λ met. (best, (refl, (low, (top, (ground arith, h))))))
          (λ apart.
            let ordered : low < top = ground arith in
            if_cases P (ltb 0 midpoint && fits midpoint)
              (λ goes.
                search_size-IsTotal fuel (midpoint + 1) top (some midpoint) (omega arith)
                  (raises low top best ordered h (ground arith) (ground arith)))
              (λ stays.
                search_size-IsTotal fuel low midpoint best (omega arith)
                  (lowers low top best ordered h stays)))

  -- The search finds nothing, or a positive size that fits.
  pub search_size-IsFit :
      (fuel top : ℕ)
      → top < fuel
      → (r : Option ℕ) × ((search_size fuel fits 0 top none ≡ some r) × IsFit r)
  search_size-IsFit fuel top enough =
      let (r, (found, (low, (high, (met, fit))))) =
        search_size-IsTotal (λ low top best. IsFit best)
          (λ low top best ordered h positive fit. (positive, fit))
          (λ low top best ordered h stays. h) fuel 0 top none (omega arith) tt in
      (r, (found, fit))

  narrowed-IsLargest :
      (limit low top : ℕ) (best : Option ℕ)
      → top ≤ low
      → IsNarrowed limit low top best
      → IsLargest limit best
  narrowed-IsLargest limit low top none met h =
      λ n within positive fit. h.1 n (omega (arith, h.0)) within positive fit
  narrowed-IsLargest limit low top (some b) met h = λ n within positive fit.
      elim (Bool-cases (leb n b)) [
        | inl small ↦ ground arith
        | inr large ↦ absurd (h.1 n (ground (arith, h.0)) within positive fit)
      ]

  -- The half above a midpoint that does not fit has no size that fits.
  lower_half :
      (low top n : ℕ)
      → low < top
      → (low + (top - 1)) / 2 ≤ n
      → 1 < n
      → fits ((low + (top - 1)) / 2) ≡ true
      → (ltb 0 ((low + (top - 1)) / 2) && fits ((low + (top - 1)) / 2)) ≡ false
      → (top ≤ n → ⊥)
      → ⊥
  lower_half low top n ordered above large fit stays beyond =
      let zero_midpoint : (low + (top - 1)) / 2 ≡ 0 = ground arith in beyond (omega arith)

  -- Where a smaller size fits if a larger one does, the search finds the largest size that fits.
  pub search_size-IsLargest :
      (fuel top : ℕ)
      → ((n m : ℕ) → n ≤ m → fits m ≡ true → fits n ≡ true)
      → top < fuel
      → (r : Option ℕ) × ((search_size fuel fits 0 top none ≡ some r) × IsLargest top r)
  search_size-IsLargest fuel top mono enough =
      let (r, (found, (low, (high, (met, known))))) =
        search_size-IsTotal (IsNarrowed top)
          (λ low high best ordered h positive fit. (omega arith, h.1))
          (λ low high best ordered h stays. (
            h.0,
            λ n above within large fit.
                lower_half low high n ordered above large (mono _ n above fit) stays
                  (λ beyond. h.1 n beyond within large fit),
          ))
          fuel 0 top none (omega arith) (refl, λ n above within. absurd (omega arith)) in
      (r, (found, narrowed-IsLargest top low high r met known))
