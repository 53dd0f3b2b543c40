-- ===== src/Runtime/Cancellation.antt =====
-- src/eeveetuber/runtime/cancellation.py: generation-based cancellation.
-- A `_CancellationState` object is shared by the source and the tokens that it has handed out, so
-- the objects live in a store (`cells`, allocated in order) and a token holds a reference. Every
-- method runs under the source's lock and is one step; the monotonic clock is the argument `now`.
pub mod History
use eeveetuber.Common.{
  ℕ, ◌+◌, Bool, true, false, not, ◌&&◌, ◌||◌, Option, none, some, ◌==◌, if◌then◌else◌,
}
use eeveetuber.Common.Text.{Str, is_blank}
use eeveetuber.Common.Int.{ℤ, pos, negsuc}
use eeveetuber.Common.Result.{Result, ok, err}

-- `_CancellationState`: the event and what was recorded with it.
pub record CancellationState : Type 0 where
  pub event : Bool
  pub reason : Option Str
  pub cancelled_at_monotonic_ms : Option ℕ

abbrev pub fresh : CancellationState
fresh = record { event = false; reason = none; cancelled_at_monotonic_ms = none }

-- `_CancellationState.cancel`: the first call wins.
abbrev pub cancel : Str → ℕ → CancellationState → CancellationState × Bool
cancel reason now c =
    if c.event
    then (c, false)
    else (record { event = true; reason = some reason; cancelled_at_monotonic_ms = some now }, true)

pub record CancellationToken : Type 0 where
  pub generation : ℕ
  pub state : ℕ

pub record CancellationSource : Type 0 where
  pub generation : ℕ
  pub state : ℕ
  pub closed : Bool
  -- The store: the objects below `allocated` exist.
  pub cells : ℕ → CancellationState
  pub allocated : ℕ

pub data CancellationError : Type 0 where
  negative_generation blank_reason source_closed : CancellationError
  -- received, current, current_cancelled
  stale_generation : ℕ → ℕ → Bool → CancellationError

abbrev pub update : (ℕ → CancellationState) → ℕ → CancellationState → ℕ → CancellationState
update cells k c j = if j == k then c else cells j

-- `CancellationSource(initial_generation)`
unfoldable pub new : ℤ → Result CancellationError CancellationSource
new (pos g) =
    ok (record { generation = g; state = 0; closed = false; cells = λ _. fresh; allocated = 1 })
new (negsuc _) = err negative_generation

abbrev pub token : CancellationSource → CancellationToken
token s = record { generation = s.generation; state = s.state }

-- `CancellationToken.cancelled`, read through the store.
unfoldable pub cancelled : CancellationSource → CancellationToken → Bool
cancelled s t = (s.cells t.state).event

-- `CancellationToken.wait_cancelled`: `none` while the event is not set, else the recorded reason.
unfoldable pub wait_cancelled : CancellationSource → CancellationToken → Option (Option Str)
wait_cancelled s t = if (s.cells t.state).event then some (s.cells t.state).reason else none

-- Cancels the current state object in place.
cancel_state : Str → ℕ → CancellationSource → CancellationSource × Bool
cancel_state reason now s =
    let (c, changed) = cancel reason now (s.cells s.state) in
    (record s { cells = update s.cells s.state c }, changed)

unfoldable pub advance :
    Str → ℕ → CancellationSource → CancellationSource × Result CancellationError CancellationToken
unfolding cancel_state
advance reason now s =
    if is_blank reason
    then (s, err blank_reason)
    else if s.closed
    then (s, err source_closed)
    else let s₁ = (cancel_state reason now s).0 in
      let s₂ : CancellationSource = record s₁ {
        generation = s₁.generation + 1;
        state = s₁.allocated;
        cells = update s₁.cells s₁.allocated fresh;
        allocated = s₁.allocated + 1;
      } in
      (s₂, ok (token s₂))

unfoldable pub cancel_current :
    Str → ℕ → CancellationSource → CancellationSource × Result CancellationError Bool
unfolding cancel_state
cancel_current reason now s =
    if is_blank reason
    then (s, err blank_reason)
    else let (s', changed) = cancel_state reason now s in (s', ok changed)

unfoldable pub close :
    Str → ℕ → CancellationSource → CancellationSource × Result CancellationError Bool
unfolding cancel_state
close reason now s =
    if is_blank reason
    then (s, err blank_reason)
    else let (s', changed) = cancel_state reason now s in (record s' { closed = true }, ok changed)

unfoldable pub accepts : CancellationSource → ℕ → Bool
accepts s generation = not s.closed && (generation == s.generation) && not (s.cells s.state).event

unfoldable pub ensure_current : CancellationSource → ℕ → Result CancellationError CancellationToken
ensure_current s generation =
    let is_cancelled = s.closed || (s.cells s.state).event in
    if not (generation == s.generation) || is_cancelled
    then err (stale_generation generation s.generation is_cancelled)
    else ok (token s)
