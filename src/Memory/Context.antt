-- ===== src/Memory/Context.antt =====
-- src/eeveetuber/memory/context.py: bounded context snapshots for a turn. The estimator of tokens is
-- an argument. A snapshot's own identifier and time come from calls of libraries, and its rendered
-- text from `json.dumps`: they are left out, like the labels of a request and an entry that are only
-- copied. The checks of field lengths, which a library makes, are left out too.
pub mod Estimator
pub mod Accounts
pub mod Conservation
pub mod Authority
pub mod Cache
use eeveetuber.Common.{
  ℕ, zero, suc, ◌+◌, ◌-◌, ◌≤◌, min, Bool, true, false, not, ◌&&◌, ◌||◌, Option, none, some, List,
  [], ◌∷◌, ◌++◌, map, if◌then◌else◌, ltb, leb, ◌==◌, any, keep, sort_by,
}
use eeveetuber.Common.Int.{ℤ, pos, ltb_ℤ, eqb_ℤ}
use eeveetuber.Common.Text.{Str, codes}
use eeveetuber.Memory.Context.Estimator.{TokenEstimator}

pub data ContextTier : Type 0 where
  t0_canon t1_hot t2_map : ContextTier

abbrev pub same_tier : ContextTier → ContextTier → Bool
same_tier t0_canon t0_canon = true
same_tier t1_hot t1_hot = true
same_tier t2_map t2_map = true
same_tier _ _ = false

pub data ContextClass : Type 0 where
  canon persona owner_profile relationship session_state memory_directory : ContextClass

pub record ContextBudget : Type 0 where
  pub t0_tokens : ℕ
  pub t1_tokens : ℕ
  pub t2_tokens : ℕ
  pub total_tokens : ℕ

pub record ContextEntry : Type 0 where
  pub entry_id : Str
  pub tier : ContextTier
  pub context_class : ContextClass
  pub text : Str
  pub priority : ℤ
  pub mandatory : Bool
  pub demotable : Bool

pub record CompiledContextEntry : Type 0 where
  pub entry_id : Str
  pub original_tier : ContextTier
  pub tier : ContextTier
  pub context_class : ContextClass
  pub text : Str
  pub estimated_tokens : ℕ
  pub priority : ℤ
  pub mandatory : Bool

pub record ContextDemotion : Type 0 where
  pub entry_id : Str
  pub from_tier : ContextTier
  pub to_tier : ContextTier

pub record ContextTrim : Type 0 where
  pub entry_id : Str
  pub tier : ContextTier
  pub original_tokens : ℕ
  pub retained_tokens : ℕ

pub record ContextDrop : Type 0 where
  pub entry_id : Str
  pub tier : ContextTier

pub record ContextTokenUsage : Type 0 where
  pub t0_tokens : ℕ
  pub t1_tokens : ℕ
  pub t2_tokens : ℕ
  pub total_tokens : ℕ

pub record ContextCompileRequest : Type 0 where
  pub budget : ContextBudget
  pub entries : List ContextEntry
  pub minimal_canon : Str

pub record ContextSnapshot : Type 0 where
  pub entries : List CompiledContextEntry
  pub usage : ContextTokenUsage
  pub demotions : List ContextDemotion
  pub trims : List ContextTrim
  pub drops : List ContextDrop
  pub used_minimal_fallback : Bool

-- `_TIER_ORDER` and `_NEXT_TIER`
abbrev pub tier_rank : ContextTier → ℕ
tier_rank t0_canon = 0
tier_rank t1_hot = 1
tier_rank t2_map = 2

abbrev pub next_tier : ContextTier → Option ContextTier
next_tier t0_canon = some t1_hot
next_tier t1_hot = some t2_map
next_tier t2_map = none

-- `<` of strings.
abbrev pub before_str : Str → Str → Bool
before_str [] [] = false
before_str [] (d ∷ t) = true
before_str (c ∷ s) [] = false
before_str (c ∷ s) (d ∷ t) = ltb c d || ((c == d) && before_str s t)

-- `_entry_sort_key`: mandatory entries first, then by falling priority, then by identifier.
abbrev pub before_entry : ContextEntry → ContextEntry → Bool
before_entry a b =
    (a.mandatory && not b.mandatory)
    || ((a.mandatory && b.mandatory || (not a.mandatory && not b.mandatory))
        && (ltb_ℤ b.priority a.priority
            || (eqb_ℤ a.priority b.priority && before_str a.entry_id b.entry_id)))

-- The order of the snapshot's entries.
abbrev pub before_compiled : CompiledContextEntry → CompiledContextEntry → Bool
before_compiled a b =
    ltb (tier_rank a.tier) (tier_rank b.tier)
    || ((tier_rank a.tier == tier_rank b.tier)
        && (ltb_ℤ b.priority a.priority
            || (eqb_ℤ a.priority b.priority && before_str a.entry_id b.entry_id)))

-- An entry of a queue, with its original tier.
abbrev pub Queued : Type 0
Queued = ContextEntry × ContextTier

abbrev pub before_queued : Queued → Queued → Bool
before_queued a b = before_entry a.0 b.0

-- The variables of `compile`.
pub record Compilation : Type 0 where
  pub queues : ContextTier → List Queued
  pub selected : List CompiledContextEntry
  pub demotions : List ContextDemotion
  pub trims : List ContextTrim
  pub drops : List ContextDrop
  pub used_by_tier : ContextTier → ℕ
  pub total_used : ℕ

abbrev pub set_tier {ℓ} : {A : Type ℓ} → ContextTier → A → (ContextTier → A) → ContextTier → A
set_tier tier new_value f t = if same_tier t tier then new_value else f t

-- `_compiled`
abbrev pub compiled : Queued → ContextTier → ℕ → Str → CompiledContextEntry
compiled item tier tokens text = record {
  entry_id = item.0.entry_id;
  original_tier = item.1;
  tier = tier;
  context_class = item.0.context_class;
  text = text;
  estimated_tokens = tokens;
  priority = item.0.priority;
  mandatory = item.0.mandatory;
}

abbrev pub spend : ContextTier → ℕ → Compilation → Compilation
spend tier tokens s = record s {
  used_by_tier = set_tier tier (s.used_by_tier tier + tokens) s.used_by_tier;
  total_used = s.total_used + tokens;
}

-- An entry that enters the snapshot.
abbrev pub select : CompiledContextEntry → Compilation → Compilation
select entry s = record (spend entry.tier entry.estimated_tokens s) {
  selected = s.selected ++ entry ∷ [];
}

-- An entry that the tier has no room for: it goes to the next tier, or is dropped.
abbrev pub demote_or_drop : Option ContextTier → ContextTier → Queued → Compilation → Compilation
demote_or_drop (some lower) tier item s = record s {
  queues = set_tier lower (s.queues lower ++ item ∷ []) s.queues;
  demotions =
      s.demotions ++ record { entry_id = item.0.entry_id; from_tier = tier; to_tier = lower } ∷ [];
}
demote_or_drop none tier item s = record s {
  drops = s.drops ++ record { entry_id = item.0.entry_id; tier = tier } ∷ [];
}

abbrev pub is_text : Str → Bool
is_text [] = false
is_text _ = true

-- One entry of a tier's queue.
unfoldable pub place : TokenEstimator → ContextTier → ℕ → Queued → Compilation → Compilation
place e tier tier_allowance item s =
    let tokens = e.estimate item.0.text in
    let remaining = tier_allowance - s.used_by_tier tier in
    let retained = e.truncate item.0.text remaining in
    let lower = if item.0.demotable && not item.0.mandatory then next_tier tier else none in
    let trim : ContextTrim = record {
      entry_id = item.0.entry_id;
      tier = tier;
      original_tokens = tokens;
      retained_tokens = e.estimate retained;
    } in
    let trimmed = select (compiled item tier (e.estimate retained) retained) s in
    if leb tokens remaining
    then select (compiled item tier tokens item.0.text) s
    else (if item.0.mandatory && (ltb 0 remaining && is_text retained)
        then record trimmed { trims = s.trims ++ trim ∷ [] }
        else demote_or_drop lower tier item s)

unfoldable pub place_each :
    TokenEstimator → ContextTier → ℕ → List Queued → Compilation → Compilation
unfolding place
place_each e tier tier_allowance [] s = s
place_each e tier tier_allowance (item ∷ items) s =
    place_each e tier tier_allowance items (place e tier tier_allowance item s)

abbrev pub configured : ContextBudget → ContextTier → ℕ
configured budget t0_canon = budget.t0_tokens
configured budget t1_hot = budget.t1_tokens
configured budget t2_map = budget.t2_tokens

-- What a tier may use: its own bound, and what the total leaves.
abbrev pub allowance : ContextBudget → ContextTier → Compilation → ℕ
allowance budget tier s = min (configured budget tier) (budget.total_tokens - s.total_used)

-- One tier of the loop.
unfoldable pub fill : TokenEstimator → ContextBudget → ContextTier → Compilation → Compilation
unfolding place_each
fill e budget tier s =
    place_each e tier (allowance budget tier s) (sort_by before_queued (s.queues tier)) s

abbrev pub is_mandatory_canon : ContextEntry → Bool
is_mandatory_canon entry = same_tier entry.tier t0_canon && entry.mandatory

abbrev pub fallback : Str → ContextEntry
fallback minimal_canon = record {
  entry_id = codes "__minimal_canon__";
  tier = t0_canon;
  context_class = canon;
  text = minimal_canon;
  priority = pos 10000;
  mandatory = true;
  demotable = false;
}

-- The entries, with the fallback where no mandatory canon is given.
unfoldable pub all_entries : ContextCompileRequest → List ContextEntry
all_entries request =
    if any is_mandatory_canon request.entries
    then request.entries
    else request.entries ++ fallback request.minimal_canon ∷ []

abbrev pub queue_of : List ContextEntry → ContextTier → List Queued
queue_of entries tier =
    map (λ entry. (entry, entry.tier)) (keep (λ (e : ContextEntry). same_tier e.tier tier) entries)

abbrev pub start : List ContextEntry → Compilation
start entries = record {
  queues = queue_of entries;
  selected = [];
  demotions = [];
  trims = [];
  drops = [];
  used_by_tier = λ _. 0;
  total_used = 0;
}

abbrev pub finish : Bool → Compilation → ContextSnapshot
finish used_fallback s = record {
  entries = sort_by before_compiled s.selected;
  usage = record {
    t0_tokens = s.used_by_tier t0_canon;
    t1_tokens = s.used_by_tier t1_hot;
    t2_tokens = s.used_by_tier t2_map;
    total_tokens = s.total_used;
  };
  demotions = s.demotions;
  trims = s.trims;
  drops = s.drops;
  used_minimal_fallback = used_fallback;
}

-- `ContextCompiler.compile`
unfoldable pub compile : TokenEstimator → ContextCompileRequest → ContextSnapshot
unfolding all_entries fill
compile e request =
    let s₁ = fill e request.budget t0_canon (start (all_entries request)) in
    let s₂ = fill e request.budget t1_hot s₁ in
    finish (not (any is_mandatory_canon request.entries)) (fill e request.budget t2_map s₂)
