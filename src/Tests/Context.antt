-- ===== src/Tests/Context.antt =====
-- A context of three entries under small budgets, and a cache of snapshots
-- (src/eeveetuber/memory/context.py).
use eeveetuber.Common.{
  ℕ, ◌+◌, ◌≤◌, ◌≡◌, ◌⊎◌, ◌==◌, Bool, true, false, [], ◌∷◌, ◌++◌, some, arith, All, sum_of, length,
}
use eeveetuber.Common.Int.{pos}
use eeveetuber.Common.Text.{Str, codes}
use eeveetuber.Common.Result.{ok, err}
use eeveetuber.Memory.Context.Estimator.{
  estimate, truncate, truncate-fits, utf8_heuristic, utf8_heuristic-IsFitting,
}
use eeveetuber.Memory.Context.{
  ContextTier, t0_canon, t1_hot, t2_map, session_state, ContextEntry, ContextCompileRequest,
  tier_rank, all_entries, compile,
}
use eeveetuber.Memory.Context.Accounts.{cost, compile-IsWithinBudget}
use eeveetuber.Memory.Context.Conservation.{compile-IsLossless}
use eeveetuber.Memory.Context.Authority.{compile-IsPlaced}
use eeveetuber.Memory.Context.Cache.{
  PinnedSnapshot, empty, stale_snapshot, IsSuperseded, IsCurrent, publish, latest, get, publish_all,
  IsAtLeast, publish_lem, publish_all-IsAtLeast,
}

abbrev entry : Str → ContextTier → Str → Bool → ContextEntry
entry id tier text mandatory = record {
  entry_id = id;
  tier = tier;
  context_class = session_state;
  text = text;
  priority = pos 0;
  mandatory = mandatory;
  demotable = true;
}

abbrev request : ContextCompileRequest
request = record {
  budget = record { t0_tokens = 3; t1_tokens = 2; t2_tokens = 1; total_tokens = 5 };
  entries =
      entry (codes "rule") t0_canon (codes "be kind to all the viewers") true
      ∷ entry (codes "mood") t1_hot (codes "happy") false
      ∷ entry (codes "map") t1_hot (codes "many rooms") false
      ∷ [];
  minimal_canon = codes "stay in character";
}

truncate-fits_example :
    (estimate (truncate (codes "żółty słoń") 2) ≤ 2)
    × ((back : Str) × (truncate (codes "żółty słoń") 2 ++ back ≡ codes "żółty słoń"))
truncate-fits_example = truncate-fits (codes "żółty słoń") 2

compile-IsWithinBudget_example :
    ((((compile utf8_heuristic request).usage.t0_tokens ≤ request.budget.t0_tokens)
        × ((compile utf8_heuristic request).usage.t1_tokens ≤ request.budget.t1_tokens))
      × (((compile utf8_heuristic request).usage.t2_tokens ≤ request.budget.t2_tokens)
          × ((compile utf8_heuristic request).usage.total_tokens ≤ request.budget.total_tokens)))
    × (((((compile utf8_heuristic request).usage.t0_tokens
              ≡ sum_of (cost t0_canon) (compile utf8_heuristic request).entries)
            × ((compile utf8_heuristic request).usage.t1_tokens
                ≡ sum_of (cost t1_hot) (compile utf8_heuristic request).entries))
          × (((compile utf8_heuristic request).usage.t2_tokens
                ≡ sum_of (cost t2_map) (compile utf8_heuristic request).entries)
              × ((compile utf8_heuristic request).usage.total_tokens
                  ≡ (compile utf8_heuristic request).usage.t0_tokens
                    + (compile utf8_heuristic request).usage.t1_tokens
                    + (compile utf8_heuristic request).usage.t2_tokens)))
        × All
            (λ x. x.estimated_tokens ≡ utf8_heuristic.estimate x.text)
            (compile utf8_heuristic request).entries)
compile-IsWithinBudget_example =
    compile-IsWithinBudget utf8_heuristic utf8_heuristic-IsFitting request

compile-IsLossless_example :
    sum_of (λ x. length x.entry_id) (compile utf8_heuristic request).entries
      + sum_of (λ x. length x.entry_id) (compile utf8_heuristic request).drops
    ≡ sum_of (λ x. length x.entry_id) (all_entries request)
compile-IsLossless_example = compile-IsLossless length utf8_heuristic request

request-IsShort : All (λ x. length x.entry_id ≤ 4) (all_entries request)
unfolding all_entries
request-IsShort = (omega arith, (omega arith, (omega arith, tt)))

compile-IsPlaced_example :
    All
      (λ x.
        (length x.entry_id ≤ 4)
        × ((tier_rank x.original_tier ≤ tier_rank x.tier)
            × (x.mandatory ≡ true → x.original_tier ≡ x.tier)))
      (compile utf8_heuristic request).entries
compile-IsPlaced_example =
    compile-IsPlaced (λ id tier. length id ≤ 4) utf8_heuristic request request-IsShort

abbrev pin : ℕ → ℕ → PinnedSnapshot
pin generation id = record {
  namespace = 1;
  memory_generation = generation;
  snapshot_id = id;
  snapshot = compile utf8_heuristic request;
}

publish_all-IsAtLeast_example :
    All
      (λ p.
        IsAtLeast p.memory_generation
          (latest p.namespace (publish_all (pin 5 1 ∷ pin 3 2 ∷ pin 7 3 ∷ []) empty)))
      (pin 5 1 ∷ pin 3 2 ∷ pin 7 3 ∷ [])
publish_all-IsAtLeast_example = publish_all-IsAtLeast (pin 5 1 ∷ pin 3 2 ∷ pin 7 3 ∷ []) empty

publish_lem_example :
    (IsSuperseded
        (pin 3 2).memory_generation
        (latest (pin 3 2).namespace (publish_all (pin 5 1 ∷ []) empty))
      × (publish (pin 3 2) (publish_all (pin 5 1 ∷ []) empty)
          ≡ ((publish_all (pin 5 1 ∷ []) empty), err stale_snapshot)))
    ⊎ (IsCurrent
          (pin 3 2).memory_generation
          (latest (pin 3 2).namespace (publish_all (pin 5 1 ∷ []) empty))
        × (((publish (pin 3 2) (publish_all (pin 5 1 ∷ []) empty)).1 ≡ ok tt)
            × (((latest (pin 3 2).namespace (publish (pin 3 2) (publish_all (pin 5 1 ∷ []) empty)).0
                    ≡ some (pin 3 2))
                  × (get
                        (pin 3 2).snapshot_id
                        (publish (pin 3 2) (publish_all (pin 5 1 ∷ []) empty)).0
                      ≡ some (pin 3 2)))
                × (((namespace : ℕ)
                      → (namespace == (pin 3 2).namespace) ≡ false
                      → latest namespace (publish (pin 3 2) (publish_all (pin 5 1 ∷ []) empty)).0
                        ≡ latest namespace (publish_all (pin 5 1 ∷ []) empty))
                    × ((id : ℕ)
                        → (id == (pin 3 2).snapshot_id) ≡ false
                        → get id (publish (pin 3 2) (publish_all (pin 5 1 ∷ []) empty)).0
                          ≡ get id (publish_all (pin 5 1 ∷ []) empty))))))
publish_lem_example = publish_lem (pin 3 2) (publish_all (pin 5 1 ∷ []) empty)
