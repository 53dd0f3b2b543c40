-- ===== src/Avatar/Scheduler.antt =====
-- src/eeveetuber/avatar/scheduler.py: arbitration of presentation cues with leases.
-- A method is a function of the scheduler and of the clock's reading `now`; the events that it
-- returns are in their order of creation.
pub mod State
pub mod Leasing
pub mod Methods
pub mod Leases
pub mod Exclusion
pub mod Clearing
pub mod Invariant
pub mod Starting
pub mod Steps
pub mod Upkeep
pub mod Reachable
pub mod Precedence
pub mod Submission
pub mod Advance
use eeveetuber.Common.{
  ℕ, ◌+◌, Bool, true, false, not, ◌&&◌, ◌||◌, Option, none, some, List, [], ◌∷◌, ◌++◌, map, length,
  leb, ltb, ◌==◌, if◌then◌else◌, keep, any, sort_by, is_some,
}
use eeveetuber.Common.Int.{ℤ, pos, ◌+ℤ◌, ltb_ℤ, leb_ℤ, eqb_ℤ}
use eeveetuber.Common.Result.{Result, ok, err}
use eeveetuber.Common.Action.{Action, ◌>>=◌, ◌>>◌, pure, gets, modify, lift, raise_if, continue}
use eeveetuber.Avatar.Presentation.{
  PresentationLayer, same_layer, value, AudioTimelineBinding, AudioTimelineMarker, PresentationCue,
  ActiveLease, PresentationEvent, started, stopped, StopReason, preempted, lease_expired, cancelled,
  generation_advanced, disconnected, adapter_failure, ScheduleStatus, start_accepted, pending_audio,
  rejected_stale_generation, rejected_future_generation, rejected_expired, rejected_duplicate,
  rejected_priority, rejected_cooldown, rejected_rate_limit, rejected_queue_full,
  rejected_disconnected, ScheduleResult, marker_key, same_key,
}
use eeveetuber.Avatar.Scheduler.State.{
  RateLimitPolicy, Config, PendingCue, Scheduler, SchedulerError, invalid_neutral,
  generation_backwards, set_layer, has_id, is_pending, set_lease, sorted_layers, sorted_active,
  conflicts, conflicting_leases, remove_active, prune_window, is_late, waits_for, find_marker,
  is_cooling, set_cooldown, evict_oldest, find_lease,
}
use eeveetuber.Avatar.Scheduler.Leasing.{
  Events, Stopping, bump, expire, expiring, is_over, is_valid_neutral, mark_neutral, occupy,
  restore_by, restore_each, restore_layer, restore_neutrals, start_event, stop_each, stop_lease,
}

-- `_within_rate_limits`: one limit, on the starts that it has pruned.
abbrev pub is_within : Option RateLimitPolicy → List ℤ → Bool
is_within none starts = true
is_within (some limit) starts = ltb (length starts) limit.max_starts

abbrev pub prune : Option RateLimitPolicy → ℤ → List ℤ → List ℤ
prune none now starts = starts
prune (some limit) now starts = prune_window starts now limit.window_s

-- `_within_rate_limits`: the layer's starts are pruned only if the global limit allows the start.
unfoldable pub within_rate_limits : Config → PresentationLayer → ℤ → Scheduler → Scheduler × Bool
unfolding prune_window
within_rate_limits c layer now s =
    let all = prune c.global_rate_limit now s.global_starts in
    let own = prune (c.layer_rate_limits layer) now (s.layer_starts layer) in
    let s₁ : Scheduler = record s { global_starts = all } in
    let s₂ : Scheduler = record s₁ { layer_starts = set_layer layer own s.layer_starts } in
    if is_within c.global_rate_limit all
    then (s₂, is_within (c.layer_rate_limits layer) own)
    else (s₁, false)

-- `_record_start`
unfoldable pub record_start : Config → PresentationLayer → ℤ → Scheduler → Scheduler
record_start c layer now s =
    let own = s.layer_starts layer in
    record s {
      global_starts =
          if is_some c.global_rate_limit then s.global_starts ++ now ∷ [] else s.global_starts;
      layer_starts =
          if is_some (c.layer_rate_limits layer)
          then set_layer layer (own ++ now ∷ []) s.layer_starts
          else s.layer_starts;
    }

-- The cue counts against cooldowns and rates.
abbrev pub is_limited : PresentationCue → Bool
is_limited cue = not cue.limits_exempt && not cue.neutral

abbrev pub in_cooldown : PresentationCue → ℤ → Scheduler → Bool
in_cooldown cue now s = elim cue.cooldown_key [
  | none ↦ false
  | some key ↦ is_cooling now key s.cooldown_until
]

abbrev pub start_cooldown : PresentationCue → ℤ → List (ℕ × ℤ) → List (ℕ × ℤ)
start_cooldown cue now entries = elim cue.cooldown_key [
  | none ↦ entries
  | some key ↦
      if ltb_ℤ (pos 0) cue.cooldown_s
      then set_cooldown key (now +ℤ cue.cooldown_s) entries
      else entries
]

abbrev pub rejection : ScheduleStatus → PresentationCue → ScheduleResult
rejection status cue = record { status = status; cue = cue; events = [] }

-- `None if cue.lease_s is None else now + cue.lease_s`
abbrev pub expiry : Option ℤ → ℤ → Option ℤ
expiry none now = none
expiry (some lease_s) now = some (now +ℤ lease_s)

abbrev pub preempting : PresentationCue → Stopping
preempting cue = record {
  applies = λ _. true;
  reason = preempted;
  replaced_by = some cue.cue_id;
  needs = λ x. not (same_layer x.cue.layer cue.layer);
}

-- The start itself: the leases in the way are stopped, and the cue takes their place.
unfoldable pub take_over : Config → PresentationCue → ℤ → Scheduler → Scheduler × Events
unfolding stop_each conflicting_leases occupy start_event set_cooldown record_start
take_over c cue now s =
    let (s₁, events) = stop_each (preempting cue) now (conflicting_leases cue s) s in
    let expires_at = expiry cue.lease_s now in
    let (s₂, event) = start_event cue now (occupy cue expires_at now s₁) in
    let cooled : Scheduler = record s₂ {
      cooldown_until = start_cooldown cue now s₂.cooldown_until;
    } in
    (if is_limited cue then record_start c cue.layer now cooled else s₂, events ++ event ∷ [])

-- The checks of `_attempt_start` that change nothing, in their order.
unfoldable pub refusal : PresentationCue → ℤ → Scheduler → Option ScheduleStatus
unfolding conflicting_leases
refusal cue now s =
    let outranked =
      any (λ (x : ActiveLease). ltb (value cue.priority) (value x.cue.priority))
        (conflicting_leases cue s) in
    if is_late now cue
    then some rejected_expired
    else (if ltb cue.generation s.generation
        then some rejected_stale_generation
        else (if ltb s.generation cue.generation
            then some rejected_future_generation
            else (if not s.connected
                then some rejected_disconnected
                else (if outranked
                    then some rejected_priority
                    else (if is_limited cue && in_cooldown cue now s
                        then some rejected_cooldown
                        else none)))))

-- The rest of `_attempt_start`, with the pruning of the rate limits.
unfoldable pub attempt_unrefused :
    Config → PresentationCue → ℤ → Scheduler → Scheduler × ScheduleResult
unfolding within_rate_limits take_over
attempt_unrefused c cue now s =
    let checked = within_rate_limits c cue.layer now s in
    let s₁ = if is_limited cue then checked.0 else s in
    let (s₂, events) = take_over c cue now s₁ in
    if is_limited cue && not checked.1
    then (s₁, rejection rejected_rate_limit cue)
    else (s₂, record { status = start_accepted; cue = cue; events = events })

unfoldable pub attempt_by :
    Option ScheduleStatus → Config → PresentationCue → ℤ → Scheduler → Scheduler × ScheduleResult
unfolding attempt_unrefused
attempt_by (some status) c cue now s = (s, rejection status cue)
attempt_by none c cue now s = attempt_unrefused c cue now s

-- `_attempt_start`
unfoldable pub attempt_start : Config → PresentationCue → ℤ → Scheduler → Scheduler × ScheduleResult
unfolding attempt_by refusal
attempt_start c cue now s = attempt_by (refusal cue now s) c cue now s

-- `_validate_submission`
unfoldable pub validate_submission : PresentationCue → ℤ → Scheduler → Option ScheduleStatus
validate_submission cue now s =
    if not s.connected
    then some rejected_disconnected
    else (if ltb cue.generation s.generation
        then some rejected_stale_generation
        else (if ltb s.generation cue.generation
            then some rejected_future_generation
            else (if is_late now cue
                then some rejected_expired
                else (if any (has_id cue.cue_id) s.active || any (is_pending cue.cue_id) s.pending
                    then some rejected_duplicate
                    else none))))
