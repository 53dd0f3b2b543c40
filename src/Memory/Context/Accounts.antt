-- ===== src/Memory/Context/Accounts.antt =====
-- The token accounts of `ContextCompiler.compile` (src/eeveetuber/memory/context.py).
use eeveetuber.Common.{
  ℕ, ◌+◌, ◌-◌, ◌≤◌, ◌≡◌, ◌∙◌, sym, refl, min, true, false, ◌&&◌, Option, none, some, List, [], ◌∷◌,
  arith, if_cases, if◌then◌else◌, ltb, leb, sort_by, All, All-snoc, All-sort_by, sum_of,
  sum_of-append, sum_of-sort_by,
}
use eeveetuber.Common.Text.{Str}
use eeveetuber.Memory.Context.Estimator.{TokenEstimator, IsFitting}
use eeveetuber.Memory.Context.{
  ContextTier, t0_canon, t1_hot, t2_map, same_tier, ContextBudget, CompiledContextEntry,
  ContextCompileRequest, before_compiled, Queued, before_queued, Compilation, compiled, select,
  demote_or_drop, is_text, set_tier, place, place_each, allowance, fill, all_entries, start,
  compile,
}

-- What an entry costs its tier.
abbrev pub cost : ContextTier → CompiledContextEntry → ℕ
cost tier entry = if same_tier entry.tier tier then entry.estimated_tokens else 0

-- The counters agree with the selected entries, and the estimates with their texts.
pub record IsBalanced (e : TokenEstimator) (s : Compilation) : Type 0 where
  pub spent : (tier : ContextTier) → s.used_by_tier tier ≡ sum_of (cost tier) s.selected
  pub total : s.total_used ≡ s.used_by_tier t0_canon + s.used_by_tier t1_hot + s.used_by_tier t2_map
  pub estimated : All (λ x. x.estimated_tokens ≡ e.estimate x.text) s.selected

set_tier-added :
    (tier t : ContextTier) (tokens : ℕ) (used : ContextTier → ℕ)
    → set_tier tier (used tier + tokens) used t ≡ used t + (if same_tier tier t then tokens else 0)
set_tier-added tier t tokens used = ground arith

set_tier-total :
    (tier : ContextTier) (tokens : ℕ) (used : ContextTier → ℕ)
    → set_tier tier (used tier + tokens) used t0_canon
        + set_tier tier (used tier + tokens) used t1_hot
        + set_tier tier (used tier + tokens) used t2_map
      ≡ used t0_canon + used t1_hot + used t2_map + tokens
set_tier-total tier tokens used = ground arith

select-IsBalanced :
    (e : TokenEstimator) (entry : CompiledContextEntry) (s : Compilation)
    → entry.estimated_tokens ≡ e.estimate entry.text
    → IsBalanced e s
    → IsBalanced e (select entry s)
select-IsBalanced e entry s exact h = record {
  spent = λ tier. omega (
    arith,
    set_tier-added entry.tier tier entry.estimated_tokens s.used_by_tier,
    h.spent tier,
    sum_of-append (cost tier) s.selected (entry ∷ []),
  );
  total = omega (arith, set_tier-total entry.tier entry.estimated_tokens s.used_by_tier, h.total);
  estimated =
      All-snoc (λ x. x.estimated_tokens ≡ e.estimate x.text) s.selected entry h.estimated exact;
}

demote_or_drop-IsBalanced :
    (e : TokenEstimator) (lower : Option ContextTier) (tier : ContextTier) (item : Queued)
    (s : Compilation)
    → IsBalanced e s
    → IsBalanced e (demote_or_drop lower tier item s)
demote_or_drop-IsBalanced e (some lower) tier item s h = record {
  spent = h.spent;
  total = h.total;
  estimated = h.estimated;
}
demote_or_drop-IsBalanced e none tier item s h = record {
  spent = h.spent;
  total = h.total;
  estimated = h.estimated;
}

place-IsBalanced :
    (e : TokenEstimator) (tier : ContextTier) (room : ℕ) (item : Queued) (s : Compilation)
    → IsBalanced e s
    → IsBalanced e (place e tier room item s)
unfolding place
place-IsBalanced e tier room item s h =
    let tokens = e.estimate item.0.text in
    let remaining = room - s.used_by_tier tier in
    let retained = e.truncate item.0.text remaining in
    if_cases (IsBalanced e) (leb tokens remaining)
      (λ _. select-IsBalanced e (compiled item tier tokens item.0.text) s refl h)
      (λ _.
        if_cases (IsBalanced e) (item.0.mandatory && (ltb 0 remaining && is_text retained))
          (λ _.
            let kept =
              select-IsBalanced e (compiled item tier (e.estimate retained) retained) s refl h in
            record { spent = kept.spent; total = kept.total; estimated = kept.estimated })
          (λ _. demote_or_drop-IsBalanced e _ tier item s h))

-- While a tier is filled, it stays within its allowance and the others are left alone.
pub record IsWithin (tier : ContextTier) (room : ℕ) (base : ContextTier → ℕ) (s : Compilation)
    : Type 0 where
  pub bound : s.used_by_tier tier ≤ room
  pub others : (t : ContextTier) → same_tier t tier ≡ false → s.used_by_tier t ≡ base t

select-IsWithin :
    (tier : ContextTier) (room : ℕ) (base : ContextTier → ℕ) (item : Queued) (tokens : ℕ)
    (text : Str) (s : Compilation)
    → tokens ≤ room - s.used_by_tier tier
    → IsWithin tier room base s
    → IsWithin tier room base (select (compiled item tier tokens text) s)
select-IsWithin tier room base item tokens text s fits h = record {
  bound = let here : same_tier tier tier ≡ true = ground arith in rw here (omega (arith, h.bound));
  others = λ t other. rw other (h.others t other);
}

demote_or_drop-IsWithin :
    (tier : ContextTier) (room : ℕ) (base : ContextTier → ℕ) (lower : Option ContextTier)
    (item : Queued) (s : Compilation)
    → IsWithin tier room base s
    → IsWithin tier room base (demote_or_drop lower tier item s)
demote_or_drop-IsWithin tier room base (some lower) item s h = record {
  bound = h.bound;
  others = h.others;
}
demote_or_drop-IsWithin tier room base none item s h = record { bound = h.bound; others = h.others }

-- Three allowances, each out of what the earlier tiers leave.
bounded :
    (budget : ContextBudget) (u v w : ℕ)
    → u ≤ min budget.t0_tokens (budget.total_tokens - 0)
    → v ≤ min budget.t1_tokens (budget.total_tokens - u)
    → w ≤ min budget.t2_tokens (budget.total_tokens - (u + v))
    → ((u ≤ budget.t0_tokens) × (v ≤ budget.t1_tokens))
      × ((w ≤ budget.t2_tokens) × (u + v + w ≤ budget.total_tokens))
bounded budget u v w a b c = ((omega arith, omega arith), (omega arith, omega arith))

module _ (e : TokenEstimator) (fitting : IsFitting e) where
  place-IsWithin :
      (tier : ContextTier) (room : ℕ) (base : ContextTier → ℕ) (item : Queued) (s : Compilation)
      → IsWithin tier room base s
      → IsWithin tier room base (place e tier room item s)
  unfolding place
  place-IsWithin tier room base item s h =
      let P = IsWithin tier room base in
      let tokens = e.estimate item.0.text in
      let remaining = room - s.used_by_tier tier in
      let retained = e.truncate item.0.text remaining in
      if_cases P (leb tokens remaining)
        (λ fits. select-IsWithin tier room base item tokens item.0.text s (ground arith) h)
        (λ _.
          if_cases P (item.0.mandatory && (ltb 0 remaining && is_text retained))
            (λ _.
              let kept =
                select-IsWithin tier room base item (e.estimate retained) retained s
                  (fitting item.0.text remaining) h in
              record { bound = kept.bound; others = kept.others })
            (λ _. demote_or_drop-IsWithin tier room base _ item s h))

  -- A tier that is filled keeps the books and its bound.
  abbrev IsFilled : ContextTier → ℕ → (ContextTier → ℕ) → Compilation → Type 0
  IsFilled tier room base s = IsBalanced e s × IsWithin tier room base s

  place_each-IsFilled :
      (tier : ContextTier) (room : ℕ) (base : ContextTier → ℕ) (items : List Queued)
      (s : Compilation)
      → IsFilled tier room base s
      → IsFilled tier room base (place_each e tier room items s)
  unfolding place_each
  place_each-IsFilled tier room base [] s h = h
  place_each-IsFilled tier room base (item ∷ items) s h =
      place_each-IsFilled tier room base items (place e tier room item s)
        (place-IsBalanced e tier room item s h.0, place-IsWithin tier room base item s h.1)

  fill-IsFilled :
      (budget : ContextBudget) (tier : ContextTier) (s : Compilation)
      → IsBalanced e s
      → s.used_by_tier tier ≡ 0
      → IsFilled tier (allowance budget tier s) s.used_by_tier (fill e budget tier s)
  unfolding fill
  fill-IsFilled budget tier s h unused =
      place_each-IsFilled tier (allowance budget tier s) s.used_by_tier
        (sort_by before_queued (s.queues tier)) s
        (h, record { bound = omega (arith, unused); others = λ t other. refl })

  -- Whatever the entries are, a compiled snapshot stays within each tier's budget and within the
  -- total budget, its usage is the sum of the estimates of its entries in each tier and in all, and
  -- each entry's estimate is that of its text, provided that the estimator's truncated texts fit.
  pub compile-IsWithinBudget :
      (request : ContextCompileRequest)
      → ((((compile e request).usage.t0_tokens ≤ request.budget.t0_tokens)
            × ((compile e request).usage.t1_tokens ≤ request.budget.t1_tokens))
          × (((compile e request).usage.t2_tokens ≤ request.budget.t2_tokens)
              × ((compile e request).usage.total_tokens ≤ request.budget.total_tokens)))
        × (((((compile e request).usage.t0_tokens
                  ≡ sum_of (cost t0_canon) (compile e request).entries)
                × ((compile e request).usage.t1_tokens
                    ≡ sum_of (cost t1_hot) (compile e request).entries))
              × (((compile e request).usage.t2_tokens
                    ≡ sum_of (cost t2_map) (compile e request).entries)
                  × ((compile e request).usage.total_tokens
                      ≡ (compile e request).usage.t0_tokens
                        + (compile e request).usage.t1_tokens
                        + (compile e request).usage.t2_tokens)))
            × All (λ x. x.estimated_tokens ≡ e.estimate x.text) (compile e request).entries)
  unfolding compile
  compile-IsWithinBudget request =
      let s₀ = start (all_entries request) in
      let balanced : IsBalanced e s₀ = record {
        spent = λ tier. refl;
        total = omega arith;
        estimated = tt;
      } in
      let s₁ = fill e request.budget t0_canon s₀ in
      let f₁ = fill-IsFilled request.budget t0_canon s₀ balanced refl in
      let s₂ = fill e request.budget t1_hot s₁ in
      let f₂ = fill-IsFilled request.budget t1_hot s₁ f₁.0 (f₁.1.others t1_hot refl) in
      let s₃ = fill e request.budget t2_map s₂ in
      let unused = f₂.1.others t2_map refl ∙ f₁.1.others t2_map refl in
      let f₃ = fill-IsFilled request.budget t2_map s₂ f₂.0 unused in
      let spent = λ (tier : ContextTier).
        f₃.0.spent tier ∙ sym (sum_of-sort_by (cost tier) before_compiled s₃.selected) in
      let kept₀ = f₃.1.others t0_canon refl ∙ f₂.1.others t0_canon refl in
      let kept₁ = f₃.1.others t1_hot refl in
      let total₁ = f₁.0.total in
      let total₂ = f₂.0.total in
      let bounds =
        bounded request.budget (s₁.used_by_tier t0_canon) (s₂.used_by_tier t1_hot)
          (s₃.used_by_tier t2_map) f₁.1.bound
          (omega (arith, f₂.1.bound, total₁, f₁.1.others t1_hot refl, f₁.1.others t2_map refl))
          (omega (arith, f₃.1.bound, total₂, unused, f₂.1.others t0_canon refl)) in
      (
        (
          (omega (arith, bounds.0.0, kept₀), omega (arith, bounds.0.1, kept₁)),
          (bounds.1.0, omega (arith, bounds.1.1, f₃.0.total, kept₀, kept₁)),
        ),
        (
          ((spent t0_canon, spent t1_hot), (spent t2_map, f₃.0.total)),
          All-sort_by (λ x. x.estimated_tokens ≡ e.estimate x.text) before_compiled s₃.selected
              f₃.0.estimated,
        ),
      )
