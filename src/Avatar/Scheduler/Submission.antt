-- ===== src/Avatar/Scheduler/Submission.antt =====
-- Submitting a cue leaves the leases that outrank it (src/eeveetuber/avatar/scheduler.py).
use eeveetuber.Common.{
  ℕ, ◌<◌, ◌≡◌, refl, Bool, true, false, not, ◌&&◌, Option, none, some, List, [], ◌∷◌, ◌++◌, length,
  if_cases, if◌then◌else◌, ltb, leb, is_some, All, keep, any,
}
use eeveetuber.Common.Int.{ℤ}
use eeveetuber.Common.Result.{Result}
use eeveetuber.Common.Action.{bind_stable, continue_stable}
use eeveetuber.Avatar.Presentation.{
  PresentationLayer, PresentationCue, ActiveLease, value, AudioTimelineBinding, ScheduleStatus,
  ScheduleResult,
}
use eeveetuber.Avatar.Scheduler.State.{
  Config, Scheduler, SchedulerError, find_lease, conflicts, conflicting_leases, sorted_layers,
}
use eeveetuber.Avatar.Scheduler.{
  prune, is_within, within_rate_limits, record_start, is_limited, expiry, preempting, take_over,
  refusal, attempt_unrefused, attempt_by, attempt_start, validate_submission,
}
use eeveetuber.Avatar.Scheduler.Leasing.{
  Events, bump, expire, is_over, occupy, start_event, is_valid_neutral, restore_layer, restore_each,
  restore_by, restore_neutrals,
}
use eeveetuber.Avatar.Scheduler.Methods.{
  answer, start_now, due_time, is_due, enqueue, submit_bound, submit_valid, submit_by, submit,
}
use eeveetuber.Avatar.Scheduler.Leases.{free_id, set_lease_lem}
use eeveetuber.Avatar.Scheduler.Exclusion.{rest_of}
use eeveetuber.Avatar.Scheduler.Invariant.{
  IsCurrent, IsValid, IsOwnFactory, unblocked, stop_each-IsValid, expire-IsValid,
  within_rate_limits-IsValid,
}
use eeveetuber.Avatar.Scheduler.Starting.{
  preempt, preempt-clears, refusal-none, IsOnline, restore_layer-IsOnline, attempt_start-IsValid,
}
use eeveetuber.Avatar.Scheduler.Steps.{validate_submission-none, enqueue-IsValid}
use eeveetuber.Avatar.Scheduler.Precedence.{
  HasLease, find_lease-append, find_lease-expire, find_lease-preempt,
}

module _ (c : Config) (owner : ℕ → PresentationLayer) (id : ℕ) (x : ActiveLease) where
  abbrev Has : Scheduler → Type 0
  Has s = find_lease id s.active ≡ some x

  find_lease-occupy :
      (cue : PresentationCue) (expires_at : Option ℤ) (now : ℤ) (s : Scheduler)
      → IsValid c owner s
      → owner cue.cue_id ≡ cue.layer
      → All (λ y. conflicts cue y ≡ false) s.active
      → Has s
      → Has (occupy cue expires_at now s)
  unfolding occupy
  find_lease-occupy cue expires_at now s h own free found =
      let new_lease : ActiveLease = record {
        cue = cue;
        started_at = now;
        expires_at = expires_at;
      } in
      rw (set_lease_lem new_lease s.active (free_id owner cue s.active own h.held.owned free))
        (find_lease-append id x s.active (new_lease ∷ []) found)

  module _ (cue : PresentationCue) (own : owner cue.cue_id ≡ cue.layer)
      (outranked : value cue.priority < value x.cue.priority) where
    -- The lease is there, and nothing in the way of the cue outranks it.
    abbrev IsOpen : Scheduler → Type 0
    IsOpen s =
        HasLease c owner id x s
        × (any (λ (y : ActiveLease). ltb (value cue.priority) (value y.cue.priority))
              (conflicting_leases cue s)
            ≡ false)

    take_over-Has : (now : ℤ) (s : Scheduler) → IsOpen s → Has (take_over c cue now s).0
    unfolding take_over start_event record_start occupy
    take_over-Has now s (h, free) =
        let v = stop_each-IsValid c owner (preempting cue) now (conflicting_leases cue s) s h.0 in
        let found =
          find_lease-occupy cue (expiry cue.lease_s now) now (preempt cue now s) v own
            (preempt-clears cue now s)
            (find_lease-preempt c owner id x cue now s h outranked free) in
        if_cases Has (is_limited cue) (λ _. found) (λ _. found)

    attempt_unrefused-Has :
        (now : ℤ) (s : Scheduler) → IsOpen s → Has (attempt_unrefused c cue now s).0
    unfolding attempt_unrefused within_rate_limits conflicting_leases
    attempt_unrefused-Has now s (h, free) =
        let checked = within_rate_limits c cue.layer now s in
        let v = within_rate_limits-IsValid c owner cue.layer now s h.0 in
        let pruned : IsOpen checked.0 =
          if_cases (λ (r : Scheduler × Bool). IsValid c owner r.0 → IsOpen r.0)
            (is_within c.global_rate_limit (prune c.global_rate_limit now s.global_starts))
            (λ _ valid. ((valid, h.1), free)) (λ _ valid. ((valid, h.1), free)) v in
        let s₁ = if is_limited cue then checked.0 else s in
        let ready = if_cases IsOpen (is_limited cue) (λ _. pruned) (λ _. (h, free)) in
        if_cases (λ (r : Scheduler × ScheduleResult). Has r.0) (is_limited cue && not checked.1)
          (λ _. ready.0.1) (λ _. take_over-Has now s₁ ready)

    attempt_by-Has :
        (refused : Option ScheduleStatus) (now : ℤ) (s : Scheduler)
        → HasLease c owner id x s
        → (refused ≡ none → IsOpen s)
        → Has (attempt_by refused c cue now s).0
    unfolding attempt_by
    attempt_by-Has (some status) now s h ready = h.1
    attempt_by-Has none now s h ready = attempt_unrefused-Has now s (ready refl)

    attempt_start-HasLease :
        (now : ℤ) (s : Scheduler)
        → HasLease c owner id x s
        → HasLease c owner id x (attempt_start c cue now s).0
    unfolding attempt_start
    attempt_start-HasLease now s h = (
      attempt_start-IsValid c owner cue now s h.0 own,
      attempt_by-Has (refusal cue now s) now s h (λ e. (h, (refusal-none cue now s e).1)),
    )

  abbrev StaysOnline : Scheduler → Type 0
  StaysOnline s = IsOnline c owner s × Has s

  restore_layer-Has :
      (factory : PresentationLayer → ℕ → ℤ → PresentationCue) (now : ℤ) (layer : PresentationLayer)
      → ((generation : ℕ)
          → owner (factory layer generation now).cue_id ≡ (factory layer generation now).layer)
      → (s : Scheduler) → StaysOnline s
      → Has (restore_layer factory now layer s).0
  unfolding restore_layer start_event occupy
  restore_layer-Has factory now layer own s ((h, online), found) =
      let P = λ (r : Scheduler × Result SchedulerError Events). Has r.0 in
      let cue = factory layer s.generation now in
      if_cases P (is_some (s.active_by_layer layer)) (λ _. found)
        (λ _.
          if_cases P (not (is_valid_neutral layer s.generation cue)) (λ _. found)
            (λ _.
              if_cases P (any (λ _. true) (conflicting_leases cue s)) (λ _. found)
                (λ clear.
                  find_lease-occupy cue none now s h (own s.generation) (unblocked cue s clear)
                    found)))

  restore_each-StaysOnline :
      (factory : PresentationLayer → ℕ → ℤ → PresentationCue) (now : ℤ)
      (layers : List PresentationLayer)
      → ((layer : PresentationLayer) (generation : ℕ)
          → owner (factory layer generation now).cue_id ≡ (factory layer generation now).layer)
      → (s : Scheduler) → StaysOnline s
      → StaysOnline (restore_each factory now layers s).0
  unfolding restore_each
  restore_each-StaysOnline factory now [] own s h = h
  restore_each-StaysOnline factory now (layer ∷ layers) own s h =
      bind_stable StaysOnline (restore_layer factory now layer) _
        (λ t i. (
          restore_layer-IsOnline c owner factory now layer (own layer) t i.0,
          restore_layer-Has factory now layer (own layer) t i,
        ))
        (λ first.
          bind_stable StaysOnline (restore_each factory now layers) _
            (restore_each-StaysOnline factory now layers own) (λ rest t i. i))
        s h

  restore_by-Has :
      (found : Option (PresentationLayer → ℕ → ℤ → PresentationCue)) (now : ℤ)
      → ((factory : PresentationLayer → ℕ → ℤ → PresentationCue)
          → found ≡ some factory
          → (layer : PresentationLayer) (generation : ℕ)
          → owner (factory layer generation now).cue_id ≡ (factory layer generation now).layer)
      → (s : Scheduler) → HasLease c owner id x s
      → Has (restore_by found now s).0
  unfolding restore_by
  restore_by-Has none now own s h = h.1
  restore_by-Has (some factory) now own s h =
      if_cases (λ (r : Scheduler × Result SchedulerError Events). Has r.0) s.connected
        (λ online.
          (restore_each-StaysOnline factory now (keep s.needs_neutral sorted_layers)
            (own factory refl) s ((h.0, online), h.1)).1)
        (λ _. h.1)

  module _ (own_factory : IsOwnFactory c owner) where
    answer-Has :
        (now : ℤ) (status : ScheduleStatus) (cue : PresentationCue) (events : Events)
        (s : Scheduler)
        → HasLease c owner id x s
        → Has (answer c now status cue events s).0
    unfolding answer restore_neutrals
    answer-Has now status cue events s h =
        continue_stable Has (restore_neutrals c now s).1 _ (restore_neutrals c now s).0
          (restore_by-Has c.neutral_factory now
            (λ factory e layer generation. own_factory factory e layer generation now) s h)
          (λ restored t i. i)

    module _ (cue : PresentationCue) (own : owner cue.cue_id ≡ cue.layer)
        (outranked : value cue.priority < value x.cue.priority) where
      start_now-Has :
          (now : ℤ) (events : Events) (s : Scheduler)
          → HasLease c owner id x s
          → Has (start_now c cue now events s).0
      unfolding start_now
      start_now-Has now events s h =
          let started = attempt_start c cue now s in
          answer-Has now started.1.status cue (events ++ started.1.events) started.0
            (attempt_start-HasLease cue own outranked now s h)

      submit_valid-Has :
          (binding : Option AudioTimelineBinding) (now : ℤ) (events : Events) (s : Scheduler)
          → IsCurrent (rest_of s) cue
          → HasLease c owner id x s
          → Has (submit_valid binding c cue now events s).0
      unfolding submit_valid submit_bound
      submit_valid-Has none now events s current h = start_now-Has now events s h
      submit_valid-Has (some binding) now events s current h =
          let P = λ (r : Scheduler × Result SchedulerError ScheduleResult). Has r.0 in
          let due_at = due_time cue binding s in
          if_cases P (leb c.max_pending (length s.pending)) (λ _. answer-Has now _ cue events s h)
            (λ room.
              if_cases P (is_due due_at now)
                (λ _.
                  start_now-Has now events (bump s)
                    (record { held = h.0.held; queued = h.0.queued }, h.1))
                (λ _.
                  answer-Has now _ cue events (enqueue cue due_at s)
                    (enqueue-IsValid c owner cue due_at s h.0 own current room, h.1)))

      submit_by-Has :
          (refused : Option ScheduleStatus) (now : ℤ) (events : Events) (s : Scheduler)
          → (refused ≡ none → IsCurrent (rest_of s) cue)
          → HasLease c owner id x s
          → Has (submit_by refused c cue now events s).0
      unfolding submit_by
      submit_by-Has (some status) now events s current h = answer-Has now status cue events s h
      submit_by-Has none now events s current h =
          submit_valid-Has cue.audio_binding now events s (current refl) h

-- A submission never preempts upwards: a lease that is active under an identifier, has not run out
-- at the time of the call and is of a strictly higher priority than the submitted cue is still
-- active under that identifier when `submit` returns or raises, whatever else the call stops, starts
-- or restores, in a well-formed scheduler where a cue's identifier is used for one layer only.
pub submit-spares_higher :
    (c : Config) (owner : ℕ → PresentationLayer) (id : ℕ) (x : ActiveLease) (cue : PresentationCue)
    (now : ℤ) (s : Scheduler)
    → IsOwnFactory c owner
    → owner cue.cue_id ≡ cue.layer
    → IsValid c owner s
    → find_lease id s.active ≡ some x
    → is_over now x ≡ false
    → value cue.priority < value x.cue.priority
    → find_lease id (submit c cue now s).0.active ≡ some x
unfolding submit
submit-spares_higher c owner id x cue now s own_factory own h found lasting outranked =
    let s₁ = (expire now s).0 in
    submit_by-Has c owner id x own_factory cue own outranked (validate_submission cue now s₁) now
      (expire now s).1 s₁ (validate_submission-none cue now s₁)
      (expire-IsValid c owner now s h, find_lease-expire c owner id x now s (h, found) lasting)
