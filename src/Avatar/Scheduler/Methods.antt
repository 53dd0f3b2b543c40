-- ===== src/Avatar/Scheduler/Methods.antt =====
-- The public methods of `PresentationScheduler` (src/eeveetuber/avatar/scheduler.py).
use eeveetuber.Common.{
  ℕ, ◌+◌, Bool, true, false, not, ◌&&◌, ◌||◌, Option, none, some, List, [], ◌∷◌, ◌++◌, map, length,
  leb, ltb, ◌==◌, if◌then◌else◌, keep, any, sort_by,
}
use eeveetuber.Common.Int.{ℤ, ◌+ℤ◌, ltb_ℤ, leb_ℤ, eqb_ℤ}
use eeveetuber.Common.Result.{ok, err}
use eeveetuber.Common.Action.{Action, ◌>>=◌, pure}
use eeveetuber.Avatar.Presentation.{
  value, AudioTimelineBinding, AudioTimelineMarker, PresentationCue, ActiveLease, StopReason,
  cancelled, generation_advanced, disconnected, adapter_failure, ScheduleStatus, pending_audio,
  rejected_queue_full, ScheduleResult, marker_key, same_key,
}
use eeveetuber.Avatar.Scheduler.State.{
  Config, PendingCue, Scheduler, SchedulerError, generation_backwards, bad_reason, is_pending,
  sorted_active, waits_for, find_marker, evict_oldest, find_lease,
}
use eeveetuber.Avatar.Scheduler.{attempt_start, validate_submission}
use eeveetuber.Avatar.Scheduler.Leasing.{
  Events, bump, Stopping, stop_each, stop_lease, expire, restore_neutrals,
}

-- The end of a call: the neutral cues, and then the result with all its events.
unfoldable pub answer :
    Config
    → ℤ
    → ScheduleStatus
    → PresentationCue
    → Events
    → Action Scheduler SchedulerError ScheduleResult
answer c now status cue events = do
  restored ← restore_neutrals c now
  pure (record { status = status; cue = cue; events = events ++ restored })

unfoldable pub start_now :
    Config → PresentationCue → ℤ → Events → Action Scheduler SchedulerError ScheduleResult
unfolding attempt_start answer
start_now c cue now events s =
    let (s₁, result) = attempt_start c cue now s in
    answer c now result.status cue (events ++ result.events) s₁

-- The time at which a marker that is already known lets the cue start.
unfoldable pub due_time : PresentationCue → AudioTimelineBinding → Scheduler → Option ℤ
unfolding find_marker
due_time cue binding s = elim (find_marker cue s.audio_markers) [
  | none ↦ none
  | some marker ↦ some (marker.occurred_at +ℤ binding.offset_s)
]

abbrev pub is_due : Option ℤ → ℤ → Bool
is_due none now = false
is_due (some t) now = leb_ℤ t now

abbrev pub enqueue : PresentationCue → Option ℤ → Scheduler → Scheduler
enqueue cue due_at s = record (bump s) {
  pending = s.pending ++ record { cue = cue; sequence = s.sequence + 1; due_at = due_at } ∷ [];
}

-- The part of `submit` for a cue with an audio binding. A cue that is due at once enters the queue
-- and leaves it again: only the sequence number is used up.
unfoldable pub submit_bound :
    Config
    → PresentationCue
    → AudioTimelineBinding
    → ℤ
    → Events
    → Action Scheduler SchedulerError ScheduleResult
unfolding answer start_now due_time
submit_bound c cue binding now events s =
    let due_at = due_time cue binding s in
    if leb c.max_pending (length s.pending)
    then answer c now rejected_queue_full cue events s
    else (if is_due due_at now
        then start_now c cue now events (bump s)
        else answer c now pending_audio cue events (enqueue cue due_at s))

unfoldable pub submit_valid :
    Option AudioTimelineBinding
    → Config
    → PresentationCue
    → ℤ
    → Events
    → Action Scheduler SchedulerError ScheduleResult
unfolding submit_bound start_now
submit_valid none c cue now events = start_now c cue now events
submit_valid (some binding) c cue now events = submit_bound c cue binding now events

unfoldable pub submit_by :
    Option ScheduleStatus
    → Config
    → PresentationCue
    → ℤ
    → Events
    → Action Scheduler SchedulerError ScheduleResult
unfolding answer submit_valid
submit_by (some status) c cue now events = answer c now status cue events
submit_by none c cue now events = submit_valid cue.audio_binding c cue now events

-- `submit`
unfoldable pub submit :
    Config → PresentationCue → ℤ → Action Scheduler SchedulerError ScheduleResult
unfolding expire validate_submission submit_by
submit c cue now s =
    let (s₁, events) = expire now s in
    submit_by (validate_submission cue now s₁) c cue now events s₁

pub record SchedulerBatch : Type 0 where
  pub results : List ScheduleResult
  pub events : Events

abbrev pub is_pending_due : ℤ → PendingCue → Bool
is_pending_due now p = is_due p.due_at now

-- `(due_at, -priority, sequence)`, of cues that have a due time.
abbrev pub before_due : PendingCue → PendingCue → Bool
before_due a b = elim a.due_at [
  | none ↦ false
  | some t ↦ elim b.due_at [
    | none ↦ true
    | some u ↦
        ltb_ℤ t u
        || (eqb_ℤ t u
            && (ltb (value b.cue.priority) (value a.cue.priority)
                || ((value a.cue.priority == value b.cue.priority) && ltb a.sequence b.sequence)))
  ]
]

-- `self._pending.pop(cue_id)`
abbrev pub pop_pending : ℕ → Scheduler → Scheduler
pop_pending id s = record s { pending = keep (λ p. not (is_pending id p)) s.pending }

-- The loop of `_start_due`; `events` of the batch are those of the results, in order.
unfoldable pub start_each :
    Config → ℤ → List PendingCue → Scheduler → Scheduler × List ScheduleResult
unfolding attempt_start
start_each c now [] s = (s, [])
start_each c now (p ∷ ps) s =
    let found = any (is_pending p.cue.cue_id) s.pending in
    let (s₁, result) = attempt_start c p.cue now (pop_pending p.cue.cue_id s) in
    let (s₂, results) = start_each c now ps (if found then s₁ else s) in
    (s₂, if found then result ∷ results else results)

abbrev pub events_of : List ScheduleResult → Events
events_of [] = []
events_of (r ∷ rs) = r.events ++ events_of rs

-- `_start_due`
unfoldable pub start_due : Config → ℤ → Scheduler → Scheduler × List ScheduleResult
unfolding start_each
start_due c now s = start_each c now (sort_by before_due (keep (is_pending_due now) s.pending)) s

-- `_start_due` and the end of `notify_audio` and `tick`.
unfoldable pub finish_batch : Config → ℤ → Events → Action Scheduler SchedulerError SchedulerBatch
unfolding start_due
finish_batch c now events s =
    let (s₁, results) = start_due c now s in
    (restore_neutrals c now >>= λ restored.
    pure (record { results = results; events = (events ++ events_of results) ++ restored }))
      s₁

abbrev pub bind_by : Option AudioTimelineBinding → AudioTimelineMarker → PendingCue → PendingCue
bind_by none marker p = p
bind_by (some binding) marker p =
    if waits_for (marker_key marker) p.cue
    then record p { due_at = some (marker.occurred_at +ℤ binding.offset_s) }
    else p

-- Pending cues that wait for the marker are due.
abbrev pub bind_marker : AudioTimelineMarker → PendingCue → PendingCue
bind_marker marker p = bind_by p.cue.audio_binding marker p

-- The marker as the newest, and the oldest ones dropped.
abbrev pub add_marker :
    Config → AudioTimelineMarker → List AudioTimelineMarker → List AudioTimelineMarker
add_marker c marker markers =
    evict_oldest c.max_audio_markers
      (keep (λ m. not (same_key (marker_key m) (marker_key marker))) markers ++ marker ∷ [])

-- `notify_audio`
unfoldable pub notify_audio :
    Config → AudioTimelineMarker → ℤ → Action Scheduler SchedulerError SchedulerBatch
unfolding expire finish_batch
notify_audio c marker now s =
    let (s₁, events) = expire now s in
    let s₂ : Scheduler = record s₁ {
      audio_markers = add_marker c marker s₁.audio_markers;
      pending = map (bind_marker marker) s₁.pending;
    } in
    if not s.connected || not (marker.generation == s.generation)
    then (s, ok (record { results = []; events = [] }))
    else finish_batch c now events s₂

-- `tick`
unfoldable pub tick : Config → ℤ → Action Scheduler SchedulerError SchedulerBatch
unfolding expire finish_batch
tick c now s = let (s₁, events) = expire now s in finish_batch c now events s₁

abbrev pub all_leases : StopReason → Bool → Stopping
all_leases reason needed = record {
  applies = λ _. true;
  reason = reason;
  replaced_by = none;
  needs = λ _. needed;
}

abbrev pub restored_after : Config → ℤ → Events → Action Scheduler SchedulerError Events
restored_after c now events = restore_neutrals c now >>= λ restored. pure (events ++ restored)

-- `advance_generation`
unfoldable pub advance_generation : Config → ℕ → ℤ → Action Scheduler SchedulerError Events
unfolding stop_each sorted_active
advance_generation c generation now s =
    let s₁ : Scheduler = record s { generation = generation; pending = []; audio_markers = [] } in
    let (s₂, events) = stop_each (all_leases generation_advanced true) now (sorted_active s₁) s₁ in
    if ltb generation s.generation
    then (s, err generation_backwards)
    else (if generation == s.generation then (s, ok []) else restored_after c now events s₂)

-- The part of `cancel` for a cue that is not pending.
unfoldable pub cancel_active : Option ActiveLease → StopReason → ℤ → Scheduler → Scheduler × Events
unfolding stop_lease
cancel_active none reason now s = (s, [])
cancel_active (some x) reason now s =
    let (s₁, event) = stop_lease (all_leases reason true) now x s in (s₁, event ∷ [])

-- `cancel`
unfoldable pub cancel : Config → ℕ → StopReason → ℤ → Action Scheduler SchedulerError Events
unfolding expire cancel_active find_lease
cancel c id reason now s =
    let (s₁, events) = expire now s in
    let (s₂, stopped_events) = cancel_active (find_lease id s₁.active) reason now s₁ in
    if any (is_pending id) s₁.pending
    then restored_after c now events (pop_pending id s₁)
    else restored_after c now (events ++ stopped_events) s₂

-- `reset_to_neutral`
unfoldable pub reset_to_neutral : Config → ℤ → Action Scheduler SchedulerError Events
unfolding stop_each sorted_active
reset_to_neutral c now s =
    let s₁ : Scheduler = record s { pending = [] } in
    let (s₂, events) = stop_each (all_leases cancelled false) now (sorted_active s₁) s₁ in
    restored_after c now events (record s₂ { needs_neutral = λ _. true })

abbrev pub is_adapter_reason : StopReason → Bool
is_adapter_reason disconnected = true
is_adapter_reason adapter_failure = true
is_adapter_reason _ = false

-- `disconnect` past its check of the reason.
unfoldable pub go_offline : StopReason → ℤ → Scheduler → Scheduler × Events
unfolding stop_each sorted_active
go_offline reason now s =
    let s₁ : Scheduler = record s {
      connected = false;
      pending = [];
      audio_markers = [];
      needs_neutral = λ _. false;
    } in
    if s.connected then stop_each (all_leases reason false) now (sorted_active s₁) s₁ else (s, [])

-- `disconnect`
unfoldable pub disconnect : StopReason → ℤ → Action Scheduler SchedulerError Events
unfolding go_offline
disconnect reason now s =
    let (s₁, events) = go_offline reason now s in
    if is_adapter_reason reason then (s₁, ok events) else (s, err bad_reason)

-- `adapter_failed`
unfoldable pub adapter_failed : ℤ → Action Scheduler SchedulerError Events
unfolding disconnect
adapter_failed = disconnect adapter_failure

-- `reconnect`
unfoldable pub reconnect : Config → ℤ → Action Scheduler SchedulerError Events
reconnect c now s =
    if s.connected
    then (s, ok [])
    else restored_after c now [] (record s { connected = true; needs_neutral = λ _. true })

-- `accepts_adapter_result`
unfoldable pub accepts_adapter_result : ℕ → ℕ → Scheduler → Bool
unfolding find_lease
accepts_adapter_result id generation s = elim (find_lease id s.active) [
  | none ↦ false
  | some x ↦ s.connected && ((generation == s.generation) && (x.cue.generation == generation))
]
