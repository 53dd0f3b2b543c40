-- ===== src/Runtime/Cancellation/History.antt =====
-- The life of a cancellation source (src/eeveetuber/runtime/cancellation.py): what its calls, in
-- any order, do to the generations and to the tokens that were handed out.
use eeveetuber.Common.{
  Bool-cases, inl, inr, ◌⊎◌, ℕ, ◌+◌, ◌≤◌, ◌<◌, ◌≡◌, Bool, true, false, not, ◌||◌, List, [], ◌∷◌,
  arith,
}
use eeveetuber.Common.Text.{Str, is_blank}
use eeveetuber.Common.Int.{pos}
use eeveetuber.Common.Result.{ok, err}
use eeveetuber.Runtime.Cancellation.{
  CancellationToken, CancellationSource, stale_generation, new, token, cancelled, advance,
  cancel_current, close, accepts, ensure_current,
}

-- A call that changes the source.
pub data Call : Type 0 where
  advance_call cancel_call close_call : Str → ℕ → Call

unfoldable pub perform : Call → CancellationSource → CancellationSource
perform (advance_call r now) s = (advance r now s).0
perform (cancel_call r now) s = (cancel_current r now s).0
perform (close_call r now) s = (close r now s).0

unfoldable pub perform_all : List Call → CancellationSource → CancellationSource
unfolding perform
perform_all [] s = s
perform_all (c ∷ cs) s = perform_all cs (perform c s)

-- One object per generation, each superseded one cancelled, and a closed source cancelled.
pub record IsValid (base : ℕ) (s : CancellationSource) : Type 0 where
  pub generation_of_state : s.generation ≡ base + s.state
  pub last_allocated : s.allocated ≡ s.state + 1
  pub superseded : (k : ℕ) → k < s.state → (s.cells k).event ≡ true
  pub closed_cancelled : s.closed ≡ true → (s.cells s.state).event ≡ true

-- A token that the source handed out at some time.
pub record WasIssued (base : ℕ) (s : CancellationSource) (t : CancellationToken) : Type 0 where
  pub own_generation : t.generation ≡ base + t.state
  pub allocated : t.state ≤ s.state

perform-IsValid :
    (base : ℕ) (c : Call) (s : CancellationSource) → IsValid base s → IsValid base (perform c s)
unfolding perform advance cancel_current close
perform-IsValid base (advance_call r now) s h = record {
  generation_of_state = ground (arith, h.generation_of_state, h.last_allocated);
  last_allocated = ground (arith, h.last_allocated);
  superseded = λ k lt. ground (arith, h.superseded k, h.last_allocated);
  closed_cancelled = ground (arith, h.closed_cancelled, h.last_allocated);
}
perform-IsValid base (cancel_call r now) s h = record {
  generation_of_state = ground (arith, h.generation_of_state);
  last_allocated = ground (arith, h.last_allocated);
  superseded = λ k lt. ground (arith, h.superseded k);
  closed_cancelled = ground (arith, h.closed_cancelled);
}
perform-IsValid base (close_call r now) s h = record {
  generation_of_state = ground (arith, h.generation_of_state);
  last_allocated = ground (arith, h.last_allocated);
  superseded = λ k lt. ground (arith, h.superseded k);
  closed_cancelled = ground (arith, h.closed_cancelled);
}

perform-WasIssued :
    (base : ℕ) (c : Call) (s : CancellationSource) (t : CancellationToken)
    → IsValid base s
    → WasIssued base s t
    → WasIssued base (perform c s) t
unfolding perform advance cancel_current close
perform-WasIssued base (advance_call r now) s t h i = record {
  own_generation = i.own_generation;
  allocated = ground (arith, h.last_allocated);
}
perform-WasIssued base (cancel_call r now) s t h i = record {
  own_generation = i.own_generation;
  allocated = ground arith;
}
perform-WasIssued base (close_call r now) s t h i = record {
  own_generation = i.own_generation;
  allocated = ground arith;
}

pub perform_all-IsValid :
    (base : ℕ) (cs : List Call) (s : CancellationSource)
    → IsValid base s
    → IsValid base (perform_all cs s)
unfolding perform_all
perform_all-IsValid base [] s h = h
perform_all-IsValid base (c ∷ cs) s h =
    perform_all-IsValid base cs (perform c s) (perform-IsValid base c s h)

pub perform_all-WasIssued :
    (base : ℕ) (cs : List Call) (s : CancellationSource) (t : CancellationToken)
    → IsValid base s
    → WasIssued base s t
    → WasIssued base (perform_all cs s) t
unfolding perform_all
perform_all-WasIssued base [] s t h i = i
perform_all-WasIssued base (c ∷ cs) s t h i =
    perform_all-WasIssued base cs (perform c s) t (perform-IsValid base c s h)
      (perform-WasIssued base c s t h i)

-- In a valid source, the generation check and the token's own flag agree.
pub accepts-eq-live :
    (base : ℕ) (s : CancellationSource) (t : CancellationToken)
    → IsValid base s
    → WasIssued base s t
    → accepts s t.generation ≡ not (cancelled s t)
unfolding accepts cancelled
accepts-eq-live base s t h i = ground (
  arith,
  h.generation_of_state,
  h.superseded t.state,
  h.closed_cancelled,
  i.own_generation,
  i.allocated,
)

-- `CancellationSource(initial)` is valid.
pub new-IsValid : (base : ℕ) (s : CancellationSource) → new (pos base) ≡ ok s → IsValid base s
unfolding new
new-IsValid base s e = record {
  generation_of_state = ground arith;
  last_allocated = ground arith;
  superseded = λ k lt. absurd (ground arith);
  closed_cancelled = ground arith;
}

-- Take any source, any calls on it, the token it then hands out, and any further calls: the
-- generation gate (`accepts`) and the shared flag of that token (`cancelled`) always agree, so a
-- component that watches its token and one that checks its generation see the same cancellations.
pub gate-eq-token :
    (base : ℕ) (s : CancellationSource) (before after : List Call)
    → new (pos base) ≡ ok s
    → let t = token (perform_all before s) in
      let s' = perform_all after (perform_all before s) in
      accepts s' t.generation ≡ not (cancelled s' t)
gate-eq-token base s before after e =
    let s₁ = perform_all before s in
    let v₁ = perform_all-IsValid base before s (new-IsValid base s e) in
    let issued : WasIssued base s₁ (token s₁) = record {
      own_generation = v₁.generation_of_state;
      allocated = omega arith;
    } in
    accepts-eq-live base (perform_all after s₁) (token s₁) (perform_all-IsValid base after s₁ v₁)
      (perform_all-WasIssued base after s₁ (token s₁) v₁ issued)

pub perform_stale :
    (c : Call) (s : CancellationSource) (g : ℕ)
    → g ≤ s.generation
    → accepts s g ≡ false
    → (g ≤ (perform c s).generation) × (accepts (perform c s) g ≡ false)
unfolding perform advance cancel_current close accepts
perform_stale (advance_call r now) s g h e = (ground arith, ground arith)
perform_stale (cancel_call r now) s g h e = (ground arith, ground arith)
perform_stale (close_call r now) s g h e = (ground arith, ground arith)

-- Cancellation is final: a generation that has begun and is not accepted now is never accepted
-- again, whatever calls follow.
pub stale_forever :
    (cs : List Call) (s : CancellationSource) (g : ℕ)
    → g ≤ s.generation
    → accepts s g ≡ false
    → accepts (perform_all cs s) g ≡ false
unfolding perform_all
stale_forever [] s g h e = e
stale_forever (c ∷ cs) s g h e =
    let (h', e') = perform_stale c s g h e in stale_forever cs (perform c s) g h' e'

-- `ensure_current` returns a token exactly when `accepts` holds, and that token carries the checked
-- generation; otherwise it raises the stale-generation error with the current generation.
pub ensure_current-accepts :
    (s : CancellationSource) (g : ℕ)
    → ((accepts s g ≡ true) × (ensure_current s g ≡ ok (token s)) × ((token s).generation ≡ g))
      ⊎ ((accepts s g ≡ false)
          × (b : Bool) × (ensure_current s g ≡ err (stale_generation g s.generation b)))
unfolding accepts ensure_current
ensure_current-accepts s g = elim (Bool-cases (accepts s g)) [
  | inl live ↦ inl (live, ground arith, ground arith)
  | inr refused ↦ inr (refused, s.closed || (s.cells s.state).event, ground arith)
]

-- A successful `advance` cancels the old generation at once and starts the next one live: the old
-- one is refused, the new token is accepted, and its number is one higher.
pub advance_supersedes :
    (reason : Str) (now base : ℕ) (s : CancellationSource)
    → IsValid base s
    → is_blank reason ≡ false
    → s.closed ≡ false
    → let s' = (advance reason now s).0 in
      ((advance reason now s).1 ≡ ok (token s'))
      × (s'.generation ≡ s.generation + 1)
      × (accepts s' s.generation ≡ false)
      × (accepts s' s'.generation ≡ true)
      × (cancelled s' (token s) ≡ true)
unfolding advance accepts cancelled
advance_supersedes reason now base s h b c =
    (ground arith, ground arith, ground arith, ground arith, ground (arith, h.last_allocated))
