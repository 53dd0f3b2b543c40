-- ===== src/Avatar/Scheduler/Steps.antt =====
-- The steps of the public methods of src/eeveetuber/avatar/scheduler.py that keep the scheduler well
-- formed: the queue, the markers, and stopping every lease.
use eeveetuber.Common.{
  ℕ, suc, ◌+◌, ◌≤◌, ◌≡◌, ◌∙◌, ap, sym, subst, refl, Bool, true, false, not, Option, none, some,
  List, [], ◌∷◌, ◌++◌, map, length, length-append, arith, if_cases, if◌then◌else◌, ltb, leb, All,
  All-snoc, All-keep, All-map, All-sort_by, keep, length-keep, any, sort_by,
}
use eeveetuber.Common.Int.{ℤ}
use eeveetuber.Avatar.Presentation.{
  PresentationLayer, PresentationCue, ActiveLease, AudioTimelineBinding, AudioTimelineMarker,
  StopReason, marker_key, same_key,
}
use eeveetuber.Avatar.Scheduler.State.{
  Config, PendingCue, Scheduler, is_pending, sorted_active, evict_oldest, waits_for,
}
use eeveetuber.Avatar.Scheduler.{attempt_start, validate_submission}
use eeveetuber.Avatar.Scheduler.Leasing.{stop_lease, stop_each}
use eeveetuber.Avatar.Scheduler.Methods.{
  enqueue, is_pending_due, before_due, pop_pending, start_each, start_due, bind_marker, add_marker,
  bind_by, all_leases, cancel_active,
}
use eeveetuber.Avatar.Scheduler.Leases.{layer_id}
use eeveetuber.Avatar.Scheduler.Exclusion.{
  Rest, rest_of, rest_of-stop_lease, rest_of-stop_each, AreHeld, IsHeld, stop_lease-IsHeld,
  stop_each-IsHeld,
}
use eeveetuber.Avatar.Scheduler.Clearing.{Covers-sorted_active, stop_each-clears, nothing_left}
use eeveetuber.Avatar.Scheduler.Invariant.{IsCurrent, IsWaiting, IsQueued, IsValid}
use eeveetuber.Avatar.Scheduler.Starting.{attempt_start-IsValid}

pub validate_submission-none :
    (cue : PresentationCue) (now : ℤ) (s : Scheduler)
    → validate_submission cue now s ≡ none
    → IsCurrent (rest_of s) cue
unfolding validate_submission
validate_submission-none cue now s h = ground arith

length-evict_oldest :
    (limit : ℕ) (markers : List AudioTimelineMarker) → length (evict_oldest limit markers) ≤ limit
unfolding evict_oldest
length-evict_oldest limit [] = omega arith
length-evict_oldest limit (m ∷ ms) =
    if_cases (λ (xs : List AudioTimelineMarker). length xs ≤ limit) (ltb limit (length (m ∷ ms)))
      (λ _. length-evict_oldest limit ms) (λ short. ground arith)

length-map_pending :
    (f : PendingCue → PendingCue) (xs : List PendingCue) → length (map f xs) ≡ length xs
length-map_pending f [] = refl
length-map_pending f (x ∷ xs) = ap suc (length-map_pending f xs)

-- Without leases, each property holds of them all.
pub emptied :
    (owner : ℕ → PresentationLayer) (P Q : PresentationCue → Type 0) (active : List ActiveLease)
    (by_layer : PresentationLayer → Option ℕ)
    → AreHeld owner P active by_layer
    → active ≡ []
    → AreHeld owner Q active by_layer
emptied owner P Q active by_layer h e =
    subst (λ xs. AreHeld owner Q xs by_layer) (sym e)
      (record {
        exclusive = tt;
        linked = λ layer. h.linked layer ∙ ap (layer_id layer) e;
        owned = tt;
        each = tt;
      })

-- A loop over all the leases leaves none.
pub stop_all-active :
    (reason : StopReason) (needed : Bool) (now : ℤ) (s : Scheduler)
    → (stop_each (all_leases reason needed) now (sorted_active s) s).0.active ≡ []
stop_all-active reason needed now s =
    nothing_left (stop_each (all_leases reason needed) now (sorted_active s) s).0.active (
      stop_each-clears (λ _. true) (all_leases reason needed) now (sorted_active s) s (λ x. refl)
        (Covers-sorted_active s))

module _ (c : Config) (owner : ℕ → PresentationLayer) where
  abbrev pub Keeps : {A : Type 0} → (Scheduler → Scheduler × A) → Type 0
  Keeps f = (s : Scheduler) → IsValid c owner s → IsValid c owner (f s).0

  -- Whatever the leases' cues are, stopping them all ends in a well-formed scheduler.
  pub stop_all-IsValid :
      (P : PresentationCue → Type 0) (reason : StopReason) (needed : Bool) (now : ℤ) (s : Scheduler)
      → IsHeld owner P s
      → IsQueued c owner (rest_of s)
      → IsValid c owner (stop_each (all_leases reason needed) now (sorted_active s) s).0
  stop_all-IsValid P reason needed now s held queued =
      let how = all_leases reason needed in
      let s₁ = (stop_each how now (sorted_active s) s).0 in
      record {
        held =
            emptied owner P (IsCurrent (rest_of s₁)) s₁.active s₁.active_by_layer
              (stop_each-IsHeld owner P how now (sorted_active s) s held)
              (stop_all-active reason needed now s);
        queued =
            subst (IsQueued c owner) (sym (rest_of-stop_each how now (sorted_active s) s)) queued;
      }

  pub pop_pending-IsValid :
      (id : ℕ) (s : Scheduler) → IsValid c owner s → IsValid c owner (pop_pending id s)
  pop_pending-IsValid id s h =
      let others = λ (p : PendingCue). not (is_pending id p) in
      record {
        held = h.held;
        queued = record {
          queue = All-keep (IsWaiting owner (rest_of s)) others s.pending h.queued.queue;
          room = omega (arith, length-keep others s.pending, h.queued.room);
          markers = h.queued.markers;
          rate = h.queued.rate;
          layer_rate = h.queued.layer_rate;
        };
      }

  start_each-IsValid :
      (now : ℤ) (ps : List PendingCue)
      → All (λ p. owner p.cue.cue_id ≡ p.cue.layer) ps
      → Keeps (start_each c now ps)
  unfolding start_each
  start_each-IsValid now [] own s h = h
  start_each-IsValid now (p ∷ ps) (o, own) s h =
      let found = any (is_pending p.cue.cue_id) s.pending in
      let s₁ = (attempt_start c p.cue now (pop_pending p.cue.cue_id s)).0 in
      start_each-IsValid now ps own (if found then s₁ else s) (
        if_cases (IsValid c owner) found
          (λ _.
            attempt_start-IsValid c owner p.cue now (pop_pending p.cue.cue_id s)
              (pop_pending-IsValid p.cue.cue_id s h) o)
          (λ _. h))

  pub start_due-IsValid : (now : ℤ) → Keeps (start_due c now)
  unfolding start_due
  start_due-IsValid now s h =
      let due = keep (is_pending_due now) s.pending in
      let own =
        All-map (IsWaiting owner (rest_of s)) (λ p. owner p.cue.cue_id ≡ p.cue.layer) s.pending
          (λ p waiting. waiting.0) h.queued.queue in
      start_each-IsValid now (sort_by before_due due)
        (All-sort_by (λ p. owner p.cue.cue_id ≡ p.cue.layer) before_due due
          (All-keep (λ p. owner p.cue.cue_id ≡ p.cue.layer) (is_pending_due now) s.pending own))
        s h

  -- The queue has room for one more, and the cue is current.
  pub enqueue-IsValid :
      (cue : PresentationCue) (due_at : Option ℤ) (s : Scheduler)
      → IsValid c owner s
      → owner cue.cue_id ≡ cue.layer
      → IsCurrent (rest_of s) cue
      → leb c.max_pending (length s.pending) ≡ false
      → IsValid c owner (enqueue cue due_at s)
  enqueue-IsValid cue due_at s h own current room =
      let new_cue : PendingCue = record { cue = cue; sequence = s.sequence + 1; due_at = due_at } in
      record {
        held = h.held;
        queued = record {
          queue =
              All-snoc (IsWaiting owner (rest_of s)) s.pending new_cue h.queued.queue
                (own, current);
          room = rw (length-append s.pending (new_cue ∷ [])) (ground arith);
          markers = h.queued.markers;
          rate = h.queued.rate;
          layer_rate = h.queued.layer_rate;
        };
      }

  bind_by-cue :
      (binding : Option AudioTimelineBinding) (marker : AudioTimelineMarker) (p : PendingCue)
      → (bind_by binding marker p).cue ≡ p.cue
  bind_by-cue none marker p = refl
  bind_by-cue (some binding) marker p =
      if_cases (λ (q : PendingCue). q.cue ≡ p.cue) (waits_for (marker_key marker) p.cue) (λ _. refl)
        (λ _. refl)

  bind_marker-IsWaiting :
      (marker : AudioTimelineMarker) (r : Rest) (ps : List PendingCue)
      → All (IsWaiting owner r) ps
      → All (IsWaiting owner r) (map (bind_marker marker) ps)
  bind_marker-IsWaiting marker r [] h = tt
  bind_marker-IsWaiting marker r (p ∷ ps) h = (
    subst (λ (cue : PresentationCue). (owner cue.cue_id ≡ cue.layer) × IsCurrent r cue)
        (sym (bind_by-cue p.cue.audio_binding marker p)) h.0,
    bind_marker-IsWaiting marker r ps h.1,
  )

  pub mark_audio-IsValid :
      (marker : AudioTimelineMarker) (s : Scheduler)
      → IsValid c owner s
      → IsValid c owner (record s {
        audio_markers = add_marker c marker s.audio_markers;
        pending = map (bind_marker marker) s.pending;
      })
  mark_audio-IsValid marker s h = record {
    held = h.held;
    queued = record {
      queue = bind_marker-IsWaiting marker (rest_of s) s.pending h.queued.queue;
      room = rw (length-map_pending (bind_marker marker) s.pending) h.queued.room;
      markers = length-evict_oldest c.max_audio_markers (
          keep (λ m. not (same_key (marker_key m) (marker_key marker))) s.audio_markers
          ++ marker ∷ []);
      rate = h.queued.rate;
      layer_rate = h.queued.layer_rate;
    };
  }

  pub cancel_active-IsValid :
      (found : Option ActiveLease) (reason : StopReason) (now : ℤ)
      → Keeps (cancel_active found reason now)
  unfolding cancel_active
  cancel_active-IsValid none reason now s h = h
  cancel_active-IsValid (some x) reason now s h =
      let how = all_leases reason true in
      let same = sym (rest_of-stop_lease how now x s) in
      record {
        held =
            subst (λ r. IsHeld owner (IsCurrent r) (stop_lease how now x s).0) same
              (stop_lease-IsHeld owner (IsCurrent (rest_of s)) how now x s h.held);
        queued = subst (IsQueued c owner) same h.queued;
      }
