-- ===== src/Domain/Interaction/Runs.antt =====
-- What holds of a machine over every sequence of requested transitions
-- (src/eeveetuber/domain/interaction.py).
use mathlib.Core.Path.{◌≡◌, refl}
use mathlib.Core.Bool.{true, false}
use mathlib.Core.List.{List, [], ◌∷◌}
use Prim.Native.Nat.{ℕ, ◌+◌, ◌≤◌}
use native.Mathlib.Omega.{arith}
use eeveetuber.Common.{◌⊎◌, inl, inr}
use eeveetuber.Common.Tests.{if◌then◌else◌}
use eeveetuber.Common.Text.{Str, is_blank}
use eeveetuber.Common.Result.{ok, err}
use eeveetuber.Domain.Interaction.{
  InteractionState, idle, processing, speaking, degraded, same_state, member, allowed_from,
  InteractionState-discrete, StateMachine, Transition, initial, transition,
}

-- The successful transitions of a run, oldest first, and the machine at its end.
pub run : StateMachine → List (InteractionState × Str) → StateMachine × List Transition
run m [] = (m, [])
run m ((requested, reason) ∷ rest) =
    let (m', outcome) = transition requested reason m in
    let (last, log) = run m' rest in (last, elim outcome [ ok t ↦ t ∷ log | err e ↦ log ])

-- Each transition starts where the one before it ended, follows the table, and has the next
-- revision; the last one ends in the final machine.
abbrev pub IsChain : StateMachine → StateMachine → List Transition → Type 0
IsChain m last [] = m ≡ last
IsChain m last (t ∷ log) =
    (t.previous ≡ m.state)
    × (member t.current (allowed_from t.previous) ≡ true)
    × (t.revision ≡ m.revision + 1)
    × IsChain (record { state = t.current; revision = t.revision }) last log

-- The log of any run of requests is an unbroken chain from the first machine to the last: each
-- accepted transition is one the table allows and adds one to the revision, and a refused request
-- (a blank reason or a move that the table lacks) leaves the machine as it was.
pub run-IsChain :
    (m : StateMachine) (requests : List (InteractionState × Str))
    → IsChain m (run m requests).0 (run m requests).1
unfolding run transition
run-IsChain m [] = refl
run-IsChain m ((requested, reason) ∷ rest) = ground (
  arith,
  run-IsChain m rest,
  run-IsChain (record { state = requested; revision = m.revision + 1 }) rest,
)

-- How often a run enters a state.
abbrev pub entries : InteractionState → List Transition → ℕ
entries s [] = 0
entries s (t ∷ log) = (if same_state t.current s then 1 else 0) + entries s log

abbrev is_in : InteractionState → InteractionState → ℕ
is_in s state = if same_state state s then 1 else 0

speaking_budget :
    (m last : StateMachine) (log : List Transition)
    → IsChain m last log
    → entries speaking log ≤ is_in processing m.state + entries processing log
speaking_budget m last [] h = omega arith
speaking_budget m last (t ∷ log) h =
    ground
      (arith, speaking_budget (record { state = t.current; revision = t.revision }) last log h.3)

-- In any run from a new machine, speech is entered at most as often as processing: no sequence of
-- requests makes the character speak twice for one round of processing.
pub speaking-le-processing :
    (requests : List (InteractionState × Str))
    → entries speaking (run initial requests).1 ≤ entries processing (run initial requests).1
unfolding initial
speaking-le-processing requests =
    omega (arith, speaking_budget _ _ (run initial requests).1 (run-IsChain initial requests))

-- From every state a session can return to idle with a non-blank reason: in one transition, or at
-- once if it is idle already; and from every state but degraded it can degrade.
pub always_recovers :
    (m : StateMachine) (reason : Str)
    → is_blank reason ≡ false
    → ((m.state ≡ idle) ⊎ ((transition idle reason m).0.state ≡ idle))
      × ((m.state ≡ degraded) ⊎ ((transition degraded reason m).0.state ≡ degraded))
unfolding transition
always_recovers m reason h = (
  elim (InteractionState-discrete m.state idle) [ yes e ↦ inl e | no n ↦ inr (ground arith) ],
  elim (InteractionState-discrete m.state degraded) [ yes e ↦ inl e | no n ↦ inr (ground arith) ],
)
