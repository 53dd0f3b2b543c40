-- ===== src/Avatar/Scheduler/Upkeep.antt =====
-- Each public method of src/eeveetuber/avatar/scheduler.py keeps the scheduler well formed.
use eeveetuber.Common.{
  ℕ, ◌≡◌, refl, true, false, not, ◌||◌, Option, none, some, [], ◌++◌, length, arith, if_cases, ltb,
  leb, ◌==◌, All-map, any,
}
use eeveetuber.Common.Int.{ℤ}
use eeveetuber.Common.Result.{Result}
use eeveetuber.Common.Action.{bind_stable}
use eeveetuber.Avatar.Presentation.{
  PresentationLayer, PresentationCue, ActiveLease, AudioTimelineBinding, AudioTimelineMarker,
  StopReason, cancelled, generation_advanced, ScheduleStatus, ScheduleResult,
}
use eeveetuber.Avatar.Scheduler.State.{
  Config, PendingCue, Scheduler, SchedulerError, is_pending, find_lease,
}
use eeveetuber.Avatar.Scheduler.{attempt_start, validate_submission}
use eeveetuber.Avatar.Scheduler.Leasing.{Events, bump, expire, restore_neutrals}
use eeveetuber.Avatar.Scheduler.Methods.{
  answer, start_now, due_time, is_due, enqueue, submit_bound, submit_valid, submit_by, submit,
  pop_pending, start_due, finish_batch, notify_audio, tick, restored_after, advance_generation,
  cancel, reset_to_neutral, is_adapter_reason, go_offline, disconnect, reconnect, SchedulerBatch,
}
use eeveetuber.Avatar.Scheduler.Exclusion.{rest_of}
use eeveetuber.Avatar.Scheduler.Invariant.{
  IsCurrent, IsWaiting, IsValid, IsOwnFactory, expire-IsValid,
}
use eeveetuber.Avatar.Scheduler.Starting.{attempt_start-IsValid, restore_neutrals-IsValid}
use eeveetuber.Avatar.Scheduler.Steps.{
  validate_submission-none, Keeps, stop_all-IsValid, pop_pending-IsValid, start_due-IsValid,
  enqueue-IsValid, mark_audio-IsValid, cancel_active-IsValid,
}

module _ (c : Config) (owner : ℕ → PresentationLayer) (own_factory : IsOwnFactory c owner) where
  answer-IsValid :
      (now : ℤ) (status : ScheduleStatus) (cue : PresentationCue) (events : Events)
      → Keeps c owner (answer c now status cue events)
  unfolding answer
  answer-IsValid now status cue events =
      bind_stable (IsValid c owner) (restore_neutrals c now) _
        (restore_neutrals-IsValid c owner own_factory now) (λ restored t h. h)

  start_now-IsValid :
      (cue : PresentationCue) (now : ℤ) (events : Events)
      → owner cue.cue_id ≡ cue.layer
      → Keeps c owner (start_now c cue now events)
  unfolding start_now
  start_now-IsValid cue now events own s h =
      let started = attempt_start c cue now s in
      answer-IsValid now started.1.status cue (events ++ started.1.events) started.0
        (attempt_start-IsValid c owner cue now s h own)

  submit_valid-IsValid :
      (binding : Option AudioTimelineBinding) (cue : PresentationCue) (now : ℤ) (events : Events)
      → owner cue.cue_id ≡ cue.layer
      → (s : Scheduler) → IsCurrent (rest_of s) cue
      → IsValid c owner s
      → IsValid c owner (submit_valid binding c cue now events s).0
  unfolding submit_valid submit_bound
  submit_valid-IsValid none cue now events own s current h =
      start_now-IsValid cue now events own s h
  submit_valid-IsValid (some binding) cue now events own s current h =
      let P = λ (r : Scheduler × Result SchedulerError ScheduleResult). IsValid c owner r.0 in
      let due_at = due_time cue binding s in
      if_cases P (leb c.max_pending (length s.pending)) (λ _. answer-IsValid now _ cue events s h)
        (λ room.
          if_cases P (is_due due_at now)
            (λ _.
              start_now-IsValid cue now events own (bump s)
                (record { held = h.held; queued = h.queued }))
            (λ _.
              answer-IsValid now _ cue events (enqueue cue due_at s)
                (enqueue-IsValid c owner cue due_at s h own current room)))

  submit_by-IsValid :
      (refused : Option ScheduleStatus) (cue : PresentationCue) (now : ℤ) (events : Events)
      → owner cue.cue_id ≡ cue.layer
      → (s : Scheduler) → (refused ≡ none → IsCurrent (rest_of s) cue)
      → IsValid c owner s
      → IsValid c owner (submit_by refused c cue now events s).0
  unfolding submit_by
  submit_by-IsValid (some status) cue now events own s current h =
      answer-IsValid now status cue events s h
  submit_by-IsValid none cue now events own s current h =
      submit_valid-IsValid cue.audio_binding cue now events own s (current refl) h

  pub submit-IsValid :
      (cue : PresentationCue) (now : ℤ)
      → owner cue.cue_id ≡ cue.layer
      → Keeps c owner (submit c cue now)
  unfolding submit
  submit-IsValid cue now own s h =
      let s₁ = (expire now s).0 in
      submit_by-IsValid (validate_submission cue now s₁) cue now (expire now s).1 own s₁
        (validate_submission-none cue now s₁) (expire-IsValid c owner now s h)

  finish_batch-IsValid : (now : ℤ) (events : Events) → Keeps c owner (finish_batch c now events)
  unfolding finish_batch
  finish_batch-IsValid now events s h =
      bind_stable (IsValid c owner) (restore_neutrals c now) _
        (restore_neutrals-IsValid c owner own_factory now) (λ restored t i. i) (start_due c now s).0
        (start_due-IsValid c owner now s h)

  pub notify_audio-IsValid :
      (marker : AudioTimelineMarker) (now : ℤ) → Keeps c owner (notify_audio c marker now)
  unfolding notify_audio
  notify_audio-IsValid marker now s h =
      if_cases (λ (r : Scheduler × Result SchedulerError SchedulerBatch). IsValid c owner r.0)
        (not s.connected || not (marker.generation == s.generation)) (λ _. h)
        (λ _.
          finish_batch-IsValid now _ _
            (mark_audio-IsValid c owner marker (expire now s).0 (expire-IsValid c owner now s h)))

  pub tick-IsValid : (now : ℤ) → Keeps c owner (tick c now)
  unfolding tick
  tick-IsValid now s h =
      finish_batch-IsValid now (expire now s).1 (expire now s).0 (expire-IsValid c owner now s h)

  restored_after-IsValid : (now : ℤ) (events : Events) → Keeps c owner (restored_after c now events)
  restored_after-IsValid now events =
      bind_stable (IsValid c owner) (restore_neutrals c now) _
        (restore_neutrals-IsValid c owner own_factory now) (λ restored t h. h)

  pub advance_generation-IsValid :
      (generation : ℕ) (now : ℤ) → Keeps c owner (advance_generation c generation now)
  unfolding advance_generation
  advance_generation-IsValid generation now s h =
      let P = λ (r : Scheduler × Result SchedulerError Events). IsValid c owner r.0 in
      if_cases P (ltb generation s.generation) (λ _. h)
        (λ _.
          if_cases P (generation == s.generation) (λ _. h)
            (λ _. restored_after-IsValid now _ _ (
              stop_all-IsValid c owner (IsCurrent (rest_of s)) generation_advanced true now _ h.held
                (record {
                  queue = tt;
                  room = omega arith;
                  markers = omega arith;
                  rate = h.queued.rate;
                  layer_rate = h.queued.layer_rate;
                }))))

  pub cancel-IsValid :
      (id : ℕ) (reason : StopReason) (now : ℤ) → Keeps c owner (cancel c id reason now)
  unfolding cancel
  cancel-IsValid id reason now s h =
      let s₁ = (expire now s).0 in
      let v = expire-IsValid c owner now s h in
      if_cases (λ (r : Scheduler × Result SchedulerError Events). IsValid c owner r.0)
        (any (is_pending id) s₁.pending)
        (λ _.
          restored_after-IsValid now _ (pop_pending id s₁) (pop_pending-IsValid c owner id s₁ v))
        (λ _.
          restored_after-IsValid now _ _
            (cancel_active-IsValid c owner (find_lease id s₁.active) reason now s₁ v))

  pub reset_to_neutral-IsValid : (now : ℤ) → Keeps c owner (reset_to_neutral c now)
  unfolding reset_to_neutral
  reset_to_neutral-IsValid now s h =
      let stopped =
        stop_all-IsValid c owner (IsCurrent (rest_of s)) cancelled false now
          (record s { pending = [] }) h.held
          (record {
            queue = tt;
            room = omega arith;
            markers = h.queued.markers;
            rate = h.queued.rate;
            layer_rate = h.queued.layer_rate;
          }) in
      restored_after-IsValid now _ _ (record { held = stopped.held; queued = stopped.queued })

  go_offline-IsValid : (reason : StopReason) (now : ℤ) → Keeps c owner (go_offline reason now)
  unfolding go_offline
  go_offline-IsValid reason now s h =
      if_cases (λ (r : Scheduler × Events). IsValid c owner r.0) s.connected
        (λ _. stop_all-IsValid c owner (IsCurrent (rest_of s)) reason false now _ h.held (record {
          queue = tt;
          room = omega arith;
          markers = omega arith;
          rate = h.queued.rate;
          layer_rate = h.queued.layer_rate;
        }))
        (λ _. h)

  pub disconnect-IsValid : (reason : StopReason) (now : ℤ) → Keeps c owner (disconnect reason now)
  unfolding disconnect
  disconnect-IsValid reason now s h =
      if_cases (λ (r : Scheduler × Result SchedulerError Events). IsValid c owner r.0)
        (is_adapter_reason reason) (λ _. go_offline-IsValid reason now s h) (λ _. h)

  pub reconnect-IsValid : (now : ℤ) → Keeps c owner (reconnect c now)
  unfolding reconnect
  reconnect-IsValid now s h =
      if_cases (λ (r : Scheduler × Result SchedulerError Events). IsValid c owner r.0) s.connected
        (λ _. h)
        (λ offline. restored_after-IsValid now [] _ (record {
          held = record {
            exclusive = h.held.exclusive;
            linked = h.held.linked;
            owned = h.held.owned;
            each =
                All-map (λ (x : ActiveLease). IsCurrent (rest_of s) x.cue)
                  (λ x. (x.cue.generation ≡ s.generation) × (true ≡ true)) s.active
                  (λ x current. (current.0, refl)) h.held.each;
          };
          queued = record {
            queue =
                All-map (IsWaiting owner (rest_of s))
                  (λ (p : PendingCue).
                    (owner p.cue.cue_id ≡ p.cue.layer)
                    × ((p.cue.generation ≡ s.generation) × (true ≡ true)))
                  s.pending (λ p waiting. (waiting.0, (waiting.1.0, refl))) h.queued.queue;
            room = h.queued.room;
            markers = h.queued.markers;
            rate = h.queued.rate;
            layer_rate = h.queued.layer_rate;
          };
        }))
