-- ===== src/Memory/Context/Conservation.antt =====
-- Where the given entries go (src/eeveetuber/memory/context.py).
use eeveetuber.Common.{
  ℕ, ◌+◌, ◌-◌, ◌≡◌, Bool, true, false, not, ◌&&◌, none, List, [], ◌∷◌, arith, if_cases,
  if◌then◌else◌, ltb, leb, sort_by, sum_of, sum_of-append, sum_of-sort_by,
}
use eeveetuber.Common.Text.{Str}
use eeveetuber.Memory.Context.Estimator.{TokenEstimator}
use eeveetuber.Memory.Context.{
  ContextTier, t0_canon, t1_hot, t2_map, ContextBudget, ContextEntry, ContextDrop,
  CompiledContextEntry, ContextCompileRequest, before_compiled, Queued, before_queued, Compilation,
  next_tier, compiled, select, demote_or_drop, is_text, place, place_each, allowance, fill,
  all_entries, queue_of, start, compile,
}

-- Conservation: each entry is weighed by its identifier.
module _ (weight : Str → ℕ) where
  abbrev weigh_queue : List Queued → ℕ
  weigh_queue items = sum_of (λ (item : Queued). weight item.0.entry_id) items

  abbrev weigh_drops : List ContextDrop → ℕ
  weigh_drops drops = sum_of (λ (d : ContextDrop). weight d.entry_id) drops

  abbrev weigh_selected : List CompiledContextEntry → ℕ
  weigh_selected entries = sum_of (λ (x : CompiledContextEntry). weight x.entry_id) entries

  abbrev weigh_entries : List ContextEntry → ℕ
  weigh_entries entries = sum_of (λ (x : ContextEntry). weight x.entry_id) entries

  -- The queues of the tiers after one.
  abbrev later : ContextTier → (ContextTier → List Queued) → ℕ
  later t0_canon queues = weigh_queue (queues t1_hot) + weigh_queue (queues t2_map)
  later t1_hot queues = weigh_queue (queues t2_map)
  later t2_map queues = 0

  -- All that is decided or still to come after a tier.
  abbrev load : ContextTier → Compilation → ℕ
  load tier s = weigh_selected s.selected + weigh_drops s.drops + later tier s.queues

  select-load :
      (tier : ContextTier) (item : Queued) (at : ContextTier) (tokens : ℕ) (text : Str)
      (s : Compilation)
      → load tier (select (compiled item at tokens text) s) ≡ load tier s + weight item.0.entry_id
  select-load tier item at tokens text s = omega (
    arith,
    sum_of-append (λ (x : CompiledContextEntry). weight x.entry_id) s.selected
        (compiled item at tokens text ∷ []),
  )

  drop-load :
      (tier : ContextTier) (item : Queued) (s : Compilation)
      → load tier (demote_or_drop none tier item s) ≡ load tier s + weight item.0.entry_id
  drop-load tier item s =
      let dropped : ContextDrop = record { entry_id = item.0.entry_id; tier = tier } in
      omega (arith, sum_of-append (λ (d : ContextDrop). weight d.entry_id) s.drops (dropped ∷ []))

  demote-load :
      (tier : ContextTier) (demotable : Bool) (item : Queued) (s : Compilation)
      → load tier (demote_or_drop (if demotable then next_tier tier else none) tier item s)
        ≡ load tier s + weight item.0.entry_id
  demote-load tier false item s = drop-load tier item s
  demote-load t2_map true item s = drop-load t2_map item s
  demote-load t0_canon true item s =
      omega
        (arith, sum_of-append (λ (q : Queued). weight q.0.entry_id) (s.queues t1_hot) (item ∷ []))
  demote-load t1_hot true item s =
      omega
        (arith, sum_of-append (λ (q : Queued). weight q.0.entry_id) (s.queues t2_map) (item ∷ []))

  module _ (e : TokenEstimator) where
    place-load :
        (tier : ContextTier) (room : ℕ) (item : Queued) (s : Compilation)
        → load tier (place e tier room item s) ≡ load tier s + weight item.0.entry_id
    unfolding place
    place-load tier room item s =
        let P = λ (t : Compilation). load tier t ≡ load tier s + weight item.0.entry_id in
        let tokens = e.estimate item.0.text in
        let remaining = room - s.used_by_tier tier in
        let retained = e.truncate item.0.text remaining in
        if_cases P (leb tokens remaining) (λ _. select-load tier item tier tokens item.0.text s)
          (λ _.
            if_cases P (item.0.mandatory && (ltb 0 remaining && is_text retained))
              (λ _. select-load tier item tier (e.estimate retained) retained s)
              (λ _. demote-load tier (item.0.demotable && not item.0.mandatory) item s))

    place_each-load :
        (tier : ContextTier) (room : ℕ) (items : List Queued) (s : Compilation)
        → load tier (place_each e tier room items s) ≡ load tier s + weigh_queue items
    unfolding place_each
    place_each-load tier room [] s = omega arith
    place_each-load tier room (item ∷ items) s = omega (
      arith,
      place_each-load tier room items (place e tier room item s),
      place-load tier room item s,
    )

    fill-load :
        (budget : ContextBudget) (tier : ContextTier) (s : Compilation)
        → load tier (fill e budget tier s) ≡ load tier s + weigh_queue (s.queues tier)
    unfolding fill
    fill-load budget tier s = omega (
      arith,
      place_each-load tier (allowance budget tier s) (sort_by before_queued (s.queues tier)) s,
      sum_of-sort_by (λ (q : Queued). weight q.0.entry_id) before_queued (s.queues tier),
    )

  queue_of-weight :
      (entries : List ContextEntry)
      → weigh_queue (queue_of entries t0_canon)
          + weigh_queue (queue_of entries t1_hot)
          + weigh_queue (queue_of entries t2_map)
        ≡ weigh_entries entries
  queue_of-weight [] = omega arith
  queue_of-weight (x ∷ xs) = ground (arith, queue_of-weight xs)

-- Nothing is lost and nothing appears twice: for each weight on identifiers, the snapshot's entries
-- and its drops together weigh what the given entries weigh, with the fallback among them where
-- it is used.
pub compile-IsLossless :
    (weight : Str → ℕ) (e : TokenEstimator) (request : ContextCompileRequest)
    → sum_of (λ x. weight x.entry_id) (compile e request).entries
        + sum_of (λ x. weight x.entry_id) (compile e request).drops
      ≡ sum_of (λ x. weight x.entry_id) (all_entries request)
unfolding compile
compile-IsLossless weight e request =
    let s₀ = start (all_entries request) in
    let s₁ = fill e request.budget t0_canon s₀ in
    let s₂ = fill e request.budget t1_hot s₁ in
    let s₃ = fill e request.budget t2_map s₂ in
    omega (
      arith,
      fill-load weight e request.budget t0_canon s₀,
      fill-load weight e request.budget t1_hot s₁,
      fill-load weight e request.budget t2_map s₂,
      queue_of-weight weight (all_entries request),
      sum_of-sort_by (λ (x : CompiledContextEntry). weight x.entry_id) before_compiled s₃.selected,
    )
