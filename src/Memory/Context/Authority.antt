-- ===== src/Memory/Context/Authority.antt =====
-- Where the entries of a snapshot come from (src/eeveetuber/memory/context.py).
use eeveetuber.Common.{
  ℕ, ◌-◌, ◌≤◌, ◌≡◌, sym, subst, refl, inl, inr, Bool, true, false, not, ◌&&◌, Option, none, some,
  List, [], ◌∷◌, ◌++◌, arith, Bool-cases, if_cases, if◌then◌else◌, ltb, leb, sort_by, All, All-snoc,
  All-sort_by,
}
use eeveetuber.Common.Text.{Str}
use eeveetuber.Memory.Context.Estimator.{TokenEstimator}
use eeveetuber.Memory.Context.{
  ContextTier, t0_canon, t1_hot, t2_map, same_tier, ContextBudget, ContextEntry,
  CompiledContextEntry, ContextCompileRequest, before_compiled, Queued, tier_rank, before_queued,
  Compilation, next_tier, compiled, demote_or_drop, is_text, place, place_each, allowance, fill,
  all_entries, queue_of, start, compile,
}

same_tier-eq : (a b : ContextTier) → same_tier a b ≡ true → a ≡ b
same_tier-eq a b h = ground arith

next_tier-falls :
    (tier l : ContextTier) (allowed : Bool)
    → (if allowed then next_tier tier else none) ≡ some l
    → (tier_rank tier ≤ tier_rank l) × (allowed ≡ true)
next_tier-falls tier l allowed e = ground arith

-- Authority: an entry never rises to an earlier tier, a mandatory one keeps its tier, and its
-- identifier and its first tier are as they were given.
module _ (P : Str → ContextTier → Type 0) where
  abbrev IsPlaced : Str → Bool → ContextTier → ContextTier → Type 0
  IsPlaced entry_id mandatory original tier =
      P entry_id original
      × ((tier_rank original ≤ tier_rank tier) × (mandatory ≡ true → original ≡ tier))

  abbrev IsPlacedQueued : ContextTier → Queued → Type 0
  IsPlacedQueued tier item = IsPlaced item.0.entry_id item.0.mandatory item.1 tier

  abbrev IsPlacedEntry : CompiledContextEntry → Type 0
  IsPlacedEntry x = IsPlaced x.entry_id x.mandatory x.original_tier x.tier

  record AllPlaced (s : Compilation) : Type 0 where
    queued : (tier : ContextTier) → All (IsPlacedQueued tier) (s.queues tier)
    chosen : All IsPlacedEntry s.selected

  lower-AllPlaced :
      (lower : Option ContextTier) (tier : ContextTier) (item : Queued) (s : Compilation)
      → ((l : ContextTier)
          → lower ≡ some l
          → (tier_rank tier ≤ tier_rank l) × (item.0.mandatory ≡ false))
      → IsPlacedQueued tier item
      → AllPlaced s
      → AllPlaced (demote_or_drop lower tier item s)
  lower-AllPlaced none tier item s lowered p h = record { queued = h.queued; chosen = h.chosen }
  lower-AllPlaced (some l) tier item s lowered p h =
      let (falls, optional) = lowered l refl in
      let moved : IsPlacedQueued l item = (p.0, (omega (arith, p.1.0, falls), λ m. absurd (cc))) in
      record {
        queued = λ t.
            if_cases (All (IsPlacedQueued t)) (same_tier t l)
              (λ same.
                subst (λ k. All (IsPlacedQueued k) (s.queues l ++ item ∷ []))
                  (sym (same_tier-eq t l same))
                  (All-snoc (IsPlacedQueued l) (s.queues l) item (h.queued l) moved))
              (λ _. h.queued t);
        chosen = h.chosen;
      }

  demote-AllPlaced :
      (tier : ContextTier) (demotable : Bool) (item : Queued) (s : Compilation)
      → IsPlacedQueued tier item
      → AllPlaced s
      → AllPlaced (
          demote_or_drop
            (if demotable && not item.0.mandatory then next_tier tier else none)
            tier
            item
            s)
  demote-AllPlaced tier demotable item s p h =
      lower-AllPlaced (if demotable && not item.0.mandatory then next_tier tier else none) tier item
        s
        (λ l e.
          let (falls, allowed) = next_tier-falls tier l (demotable && not item.0.mandatory) e in
          (falls, ground arith))
        p h

  module _ (e : TokenEstimator) where
    place-AllPlaced :
        (tier : ContextTier) (room : ℕ) (item : Queued) (s : Compilation)
        → IsPlacedQueued tier item
        → AllPlaced s
        → AllPlaced (place e tier room item s)
    unfolding place
    place-AllPlaced tier room item s p h =
        let tokens = e.estimate item.0.text in
        let remaining = room - s.used_by_tier tier in
        let retained = e.truncate item.0.text remaining in
        if_cases AllPlaced (leb tokens remaining)
          (λ _. record {
            queued = h.queued;
            chosen =
                All-snoc IsPlacedEntry s.selected (compiled item tier tokens item.0.text) h.chosen
                  p;
          })
          (λ _.
            if_cases AllPlaced (item.0.mandatory && (ltb 0 remaining && is_text retained))
              (λ _. record {
                queued = h.queued;
                chosen =
                    All-snoc IsPlacedEntry s.selected
                      (compiled item tier (e.estimate retained) retained) h.chosen p;
              })
              (λ _. demote-AllPlaced tier item.0.demotable item s p h))

    place_each-AllPlaced :
        (tier : ContextTier) (room : ℕ) (items : List Queued) (s : Compilation)
        → All (IsPlacedQueued tier) items
        → AllPlaced s
        → AllPlaced (place_each e tier room items s)
    unfolding place_each
    place_each-AllPlaced tier room [] s p h = h
    place_each-AllPlaced tier room (item ∷ items) s p h =
        place_each-AllPlaced tier room items (place e tier room item s) p.1
          (place-AllPlaced tier room item s p.0 h)

    fill-AllPlaced :
        (budget : ContextBudget) (tier : ContextTier) (s : Compilation)
        → AllPlaced s
        → AllPlaced (fill e budget tier s)
    unfolding fill
    fill-AllPlaced budget tier s h =
        place_each-AllPlaced tier (allowance budget tier s) (sort_by before_queued (s.queues tier))
          s (All-sort_by (IsPlacedQueued tier) before_queued (s.queues tier) (h.queued tier)) h

  queue_of-IsPlaced :
      (tier : ContextTier) (entries : List ContextEntry)
      → All (λ x. P x.entry_id x.tier) entries
      → All (IsPlacedQueued tier) (queue_of entries tier)
  queue_of-IsPlaced tier [] h = tt
  queue_of-IsPlaced tier (x ∷ xs) (p, h) =
      let rest = queue_of-IsPlaced tier xs h in
      elim (Bool-cases (same_tier x.tier tier)) [
        | inl here ↦
            let e : x.tier ≡ tier = ground arith in
            rw here
              ((p, (subst (λ t. tier_rank x.tier ≤ tier_rank t) e (omega arith), λ _. e)), rest)
        | inr elsewhere ↦ rw elsewhere rest
      ]

-- Authority only falls: each entry of a snapshot has the identifier and the first tier of a given
-- entry (or of the fallback), no entry stands in an earlier tier than its first one, so nothing
-- that was given for a later tier becomes canon, and a mandatory entry stands in its own tier.
-- "Of a given entry" means that each property that the identifiers and tiers of all the given
-- entries have holds of those of the snapshot.
pub compile-IsPlaced :
    (P : Str → ContextTier → Type 0) (e : TokenEstimator) (request : ContextCompileRequest)
    → All (λ x. P x.entry_id x.tier) (all_entries request)
    → All
        (λ x.
          P x.entry_id x.original_tier
          × ((tier_rank x.original_tier ≤ tier_rank x.tier)
              × (x.mandatory ≡ true → x.original_tier ≡ x.tier)))
        (compile e request).entries
unfolding compile
compile-IsPlaced P e request h =
    let s₀ = start (all_entries request) in
    let s₁ = fill e request.budget t0_canon s₀ in
    let s₂ = fill e request.budget t1_hot s₁ in
    let s₃ = fill e request.budget t2_map s₂ in
    let placed₀ : AllPlaced P s₀ = record {
      queued = λ tier. queue_of-IsPlaced P tier (all_entries request) h;
      chosen = tt;
    } in
    let placed₁ = fill-AllPlaced P e request.budget t0_canon s₀ placed₀ in
    let placed₂ = fill-AllPlaced P e request.budget t1_hot s₁ placed₁ in
    let placed₃ = fill-AllPlaced P e request.budget t2_map s₂ placed₂ in
    All-sort_by (IsPlacedEntry P) before_compiled s₃.selected placed₃.chosen
