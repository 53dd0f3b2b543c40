-- ===== src/Avatar/Scheduler/Leasing.antt =====
-- The events of src/eeveetuber/avatar/scheduler.py, the loops that stop leases, the expiry, and the neutral
-- cues.
use eeveetuber.Common.{
  ℕ, ◌+◌, Bool, true, false, not, ◌&&◌, Option, none, some, List, [], ◌∷◌, ◌++◌, ◌==◌,
  if◌then◌else◌, keep, any, is_some,
}
use eeveetuber.Common.Int.{ℤ, leb_ℤ}
use eeveetuber.Common.Result.{ok, err}
use eeveetuber.Common.Action.{Action, ◌>>=◌, pure}
use eeveetuber.Avatar.Presentation.{
  PresentationLayer, same_layer, PresentationCue, ActiveLease, PresentationEvent, started, stopped,
  StopReason, lease_expired,
}
use eeveetuber.Avatar.Scheduler.State.{
  Config, Scheduler, SchedulerError, invalid_neutral, set_layer, set_lease, sorted_layers,
  sorted_active, conflicting_leases, remove_active, is_late,
}

abbrev pub Events : Type 0
Events = List PresentationEvent

abbrev pub bump : Scheduler → Scheduler
bump s = record s { sequence = s.sequence + 1 }

-- `_start_event`
unfoldable pub start_event : PresentationCue → ℤ → Scheduler → Scheduler × PresentationEvent
start_event cue now s = (
  bump s,
  record {
    sequence = s.sequence + 1;
    kind = started;
    cue = cue;
    occurred_at = now;
    reason = none;
    replaced_by = none;
  },
)

-- Which of the leases a loop stops, why, and which of the stopped layers need a neutral cue.
pub record Stopping : Type 0 where
  pub applies : ActiveLease → Bool
  pub reason : StopReason
  pub replaced_by : Option ℕ
  pub needs : ActiveLease → Bool

abbrev pub mark_neutral : Bool → PresentationLayer → Scheduler → Scheduler
mark_neutral needed layer s = record s {
  needs_neutral = if needed then set_layer layer true s.needs_neutral else s.needs_neutral;
}

-- One lease: `_remove_active`, the layer's mark, and `_stop_event`.
unfoldable pub stop_lease : Stopping → ℤ → ActiveLease → Scheduler → Scheduler × PresentationEvent
unfolding remove_active
stop_lease how now x s =
    let s₁ = mark_neutral (how.needs x) x.cue.layer (remove_active x.cue.cue_id s) in
    (
      bump s₁,
      record {
        sequence = s₁.sequence + 1;
        kind = stopped;
        cue = x.cue;
        occurred_at = now;
        reason = some how.reason;
        replaced_by = how.replaced_by;
      },
    )

-- The loop over leases that `_expire`, `_attempt_start`, `advance_generation`, `reset_to_neutral` and
-- `disconnect` share.
unfoldable pub stop_each : Stopping → ℤ → List ActiveLease → Scheduler → Scheduler × Events
unfolding stop_lease
stop_each how now [] s = (s, [])
stop_each how now (x ∷ xs) s =
    let (stopped_one, event) = stop_lease how now x s in
    let s₁ = if how.applies x then stopped_one else s in
    let (s₂, events) = stop_each how now xs s₁ in
    (s₂, if how.applies x then event ∷ events else events)

abbrev pub is_over : ℤ → ActiveLease → Bool
is_over now x = elim x.expires_at [ none ↦ false | some t ↦ leb_ℤ t now ]

abbrev pub expiring : ℤ → Stopping
expiring now = record {
  applies = is_over now;
  reason = lease_expired;
  replaced_by = none;
  needs = λ _. true;
}

-- `_expire`
unfoldable pub expire : ℤ → Scheduler → Scheduler × Events
unfolding stop_each sorted_active
expire now s =
    let (s₁, events) = stop_each (expiring now) now (sorted_active s) s in
    (
      record s₁ {
        pending = keep (λ p. not (is_late now p.cue)) s₁.pending;
        cooldown_until = keep (λ entry. not (leb_ℤ entry.1 now)) s₁.cooldown_until;
      },
      events,
    )

-- The lease of a cue that starts now, and its entries in the two dictionaries.
unfoldable pub occupy : PresentationCue → Option ℤ → ℤ → Scheduler → Scheduler
unfolding set_lease
occupy cue expires_at now s = record s {
  active = set_lease (record { cue = cue; started_at = now; expires_at = expires_at }) s.active;
  active_by_layer = set_layer cue.layer (some cue.cue_id) s.active_by_layer;
  needs_neutral = set_layer cue.layer false s.needs_neutral;
}

-- `raise` unless the factory's cue is a neutral one of the layer and the generation.
abbrev pub is_valid_neutral : PresentationLayer → ℕ → PresentationCue → Bool
is_valid_neutral layer generation cue =
    same_layer cue.layer layer && ((cue.generation == generation) && cue.neutral)

-- One layer of the loop in `_restore_neutrals`.
unfoldable pub restore_layer :
    (PresentationLayer → ℕ → ℤ → PresentationCue)
    → ℤ
    → PresentationLayer
    → Action Scheduler SchedulerError Events
unfolding conflicting_leases occupy start_event
restore_layer factory now layer s =
    let cue = factory layer s.generation now in
    let (s₁, event) = start_event cue now (occupy cue none now s) in
    -- `_conflicting_leases(cue)` is not empty.
    let blocked = any (λ _. true) (conflicting_leases cue s) in
    if is_some (s.active_by_layer layer)
    then (record s { needs_neutral = set_layer layer false s.needs_neutral }, ok [])
    else (if not (is_valid_neutral layer s.generation cue)
        then (s, err invalid_neutral)
        else (if blocked then (s, ok []) else (s₁, ok (event ∷ []))))

unfoldable pub restore_each :
    (PresentationLayer → ℕ → ℤ → PresentationCue)
    → ℤ
    → List PresentationLayer
    → Action Scheduler SchedulerError Events
unfolding restore_layer
restore_each factory now [] = pure []
restore_each factory now (layer ∷ layers) = do
  first ← restore_layer factory now layer
  rest ← restore_each factory now layers
  pure (first ++ rest)

unfoldable pub restore_by :
    Option (PresentationLayer → ℕ → ℤ → PresentationCue)
    → ℤ
    → Action Scheduler SchedulerError Events
unfolding restore_each
restore_by none now s = (s, ok [])
restore_by (some factory) now s =
    if s.connected
    then restore_each factory now (keep s.needs_neutral sorted_layers) s
    else (s, ok [])

-- `_restore_neutrals`
unfoldable pub restore_neutrals : Config → ℤ → Action Scheduler SchedulerError Events
unfolding restore_by
restore_neutrals c now = restore_by c.neutral_factory now
