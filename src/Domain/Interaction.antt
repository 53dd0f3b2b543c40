-- ===== src/Domain/Interaction.antt =====
-- src/eeveetuber/domain/interaction.py: the interaction states that a session actor owns.
-- A transition returns the machine and the outcome; `StateMachine` holds `_state` and `_revision`.
pub mod Runs
use mathlib.Core.Path.{◌≡◌, refl}
use mathlib.Core.Bool.{Bool, true, false}
use mathlib.Core.List.{List, [], ◌∷◌}
use Prim.Native.Nat.{ℕ, ◌+◌}
use eeveetuber.Common.Tests.{if◌then◌else◌}
use eeveetuber.Common.Text.{Str, is_blank}
use eeveetuber.Common.Result.{Result, ok, err}

pub data InteractionState : Type 0 where
  idle listening processing speaking waiting_approval interrupting degraded : InteractionState

pub InteractionState-discrete : Discrete InteractionState
InteractionState-discrete = hlevel

-- `_TRANSITIONS`
abbrev pub allowed_from : InteractionState → List InteractionState
allowed_from idle = listening ∷ processing ∷ degraded ∷ []
allowed_from listening = idle ∷ processing ∷ interrupting ∷ degraded ∷ []
allowed_from processing = idle ∷ speaking ∷ waiting_approval ∷ interrupting ∷ degraded ∷ []
allowed_from speaking = idle ∷ interrupting ∷ degraded ∷ []
allowed_from waiting_approval = idle ∷ processing ∷ interrupting ∷ degraded ∷ []
allowed_from interrupting = idle ∷ listening ∷ processing ∷ degraded ∷ []
allowed_from degraded = idle ∷ listening ∷ []

abbrev pub same_state : InteractionState → InteractionState → Bool
same_state idle idle = true
same_state listening listening = true
same_state processing processing = true
same_state speaking speaking = true
same_state waiting_approval waiting_approval = true
same_state interrupting interrupting = true
same_state degraded degraded = true
same_state _ _ = false

-- `requested in states`
abbrev pub member : InteractionState → List InteractionState → Bool
member a [] = false
member a (x ∷ xs) = if same_state a x then true else member a xs

pub record StateMachine : Type 0 where
  pub state : InteractionState
  pub revision : ℕ

pub record Transition : Type 0 where
  pub previous : InteractionState
  pub current : InteractionState
  pub revision : ℕ
  pub reason : Str

pub data InteractionError : Type 0 where
  blank_reason : InteractionError
  invalid_transition : InteractionState → InteractionState → InteractionError

-- `InteractionStateMachine()`
unfoldable pub initial : StateMachine
initial = record { state = idle; revision = 0 }

unfoldable pub can_transition : StateMachine → InteractionState → Bool
can_transition m requested = member requested (allowed_from m.state)

unfoldable pub transition :
    InteractionState → Str → StateMachine → StateMachine × Result InteractionError Transition
transition requested reason m =
    if is_blank reason
    then (m, err blank_reason)
    else if member requested (allowed_from m.state)
    then (
      record m { state = requested; revision = m.revision + 1 },
      ok (record {
        previous = m.state;
        current = requested;
        revision = m.revision + 1;
        reason = reason;
      }),
    )
    else (m, err (invalid_transition m.state requested))
