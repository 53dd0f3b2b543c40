-- ===== src/Avatar/Scheduler/Starting.antt =====
-- Starting a cue and restoring the neutral cues keep a scheduler well formed
-- (src/eeveetuber/avatar/scheduler.py).
use eeveetuber.Common.{
  ℕ, ◌≡◌, sym, subst, refl, Bool, true, false, not, ◌&&◌, Option, none, some, List, [], ◌∷◌, arith,
  if_cases, if◌then◌else◌, ltb, is_some, All, keep, any,
}
use eeveetuber.Common.Int.{ℤ}
use eeveetuber.Common.Result.{Result}
use eeveetuber.Common.Action.{bind_stable}
use eeveetuber.Avatar.Presentation.{
  PresentationLayer, PresentationCue, ActiveLease, value, ScheduleStatus, ScheduleResult,
}
use eeveetuber.Avatar.Scheduler.State.{
  Config, Scheduler, SchedulerError, conflicts, conflicting_leases, sorted_layers,
}
use eeveetuber.Avatar.Scheduler.{
  prune, is_within, within_rate_limits, is_limited, expiry, preempting, take_over, refusal,
  attempt_unrefused, attempt_by, attempt_start,
}
use eeveetuber.Avatar.Scheduler.Leasing.{
  Events, stop_each, occupy, is_valid_neutral, restore_layer, restore_each, restore_by,
  restore_neutrals, start_event,
}
use eeveetuber.Avatar.Scheduler.Leases.{same_layer_refl}
use eeveetuber.Avatar.Scheduler.Exclusion.{Rest, rest_of, rest_of-stop_each}
use eeveetuber.Avatar.Scheduler.Clearing.{Covers-conflicting_leases, stop_each-clears}
use eeveetuber.Avatar.Scheduler.Invariant.{
  IsCurrent, IsValid, IsOwnFactory, unblocked, stop_each-IsValid, occupy-IsValid,
  within_rate_limits-IsValid, record_start-IsValid,
}

-- Both limits allow another start on the layer.
abbrev pub IsAllowed : Config → PresentationLayer → Rest → Type 0
IsAllowed c layer r =
    (is_within c.global_rate_limit r.global_starts ≡ true)
    × (is_within (c.layer_rate_limits layer) (r.layer_starts layer) ≡ true)

within_rate_limits-IsAllowed :
    (c : Config) (layer : PresentationLayer) (now : ℤ) (s : Scheduler)
    → (within_rate_limits c layer now s).1 ≡ true
    → IsAllowed c layer (rest_of (within_rate_limits c layer now s).0)
unfolding within_rate_limits
within_rate_limits-IsAllowed c layer now s h =
    let all = prune c.global_rate_limit now s.global_starts in
    if_cases (λ (r : Scheduler × Bool). r.1 ≡ true → IsAllowed c layer (rest_of r.0))
      (is_within c.global_rate_limit all) (λ room own. (room, rw (same_layer_refl layer) own))
      (λ _ clash. absurd (cc)) h

-- The loop of `_attempt_start` that stops the leases in the way.
abbrev pub preempt : PresentationCue → ℤ → Scheduler → Scheduler
preempt cue now s = (stop_each (preempting cue) now (conflicting_leases cue s) s).0

pub preempt-clears :
    (cue : PresentationCue) (now : ℤ) (s : Scheduler)
    → All (λ x. conflicts cue x ≡ false) (preempt cue now s).active
preempt-clears cue now s =
    stop_each-clears (conflicts cue) (preempting cue) now (conflicting_leases cue s) s (λ x. refl)
      (Covers-conflicting_leases cue s)

pub refusal-none :
    (cue : PresentationCue) (now : ℤ) (s : Scheduler)
    → refusal cue now s ≡ none
    → IsCurrent (rest_of s) cue
      × (any
            (λ (x : ActiveLease). ltb (value cue.priority) (value x.cue.priority))
            (conflicting_leases cue s)
          ≡ false)
unfolding refusal
refusal-none cue now s h = ground arith

module _ (c : Config) (owner : ℕ → PresentationLayer) where
  take_over-IsValid :
      (cue : PresentationCue) (now : ℤ) (s : Scheduler)
      → IsValid c owner s
      → owner cue.cue_id ≡ cue.layer
      → IsCurrent (rest_of s) cue
      → (is_limited cue ≡ true → IsAllowed c cue.layer (rest_of s))
      → IsValid c owner (take_over c cue now s).0
  unfolding take_over occupy start_event
  take_over-IsValid cue now s h own current allowed =
      let same = sym (rest_of-stop_each (preempting cue) now (conflicting_leases cue s) s) in
      let v = stop_each-IsValid c owner (preempting cue) now (conflicting_leases cue s) s h in
      let w =
        occupy-IsValid c owner cue (expiry cue.lease_s now) now (preempt cue now s) v
          (preempt-clears cue now s) own (subst (λ r. IsCurrent r cue) same current) in
      if_cases (IsValid c owner) (is_limited cue)
        (λ limited.
          let a = subst (IsAllowed c cue.layer) same (allowed limited) in
          record_start-IsValid c owner cue.layer now _ (record { held = w.held; queued = w.queued })
            a.0 a.1)
        (λ _. w)

  attempt_unrefused-IsValid :
      (cue : PresentationCue) (now : ℤ) (s : Scheduler)
      → IsValid c owner s
      → owner cue.cue_id ≡ cue.layer
      → IsCurrent (rest_of s) cue
      → IsValid c owner (attempt_unrefused c cue now s).0
  unfolding attempt_unrefused within_rate_limits
  attempt_unrefused-IsValid cue now s h own current =
      let checked = within_rate_limits c cue.layer now s in
      let v = within_rate_limits-IsValid c owner cue.layer now s h in
      let same : IsCurrent (rest_of checked.0) cue =
        if_cases (λ (r : Scheduler × Bool). IsCurrent (rest_of r.0) cue)
          (is_within c.global_rate_limit (prune c.global_rate_limit now s.global_starts))
          (λ _. current) (λ _. current) in
      let s₁ = if is_limited cue then checked.0 else s in
      let v₁ = if_cases (IsValid c owner) (is_limited cue) (λ _. v) (λ _. h) in
      let same₁ =
        if_cases (λ (t : Scheduler). IsCurrent (rest_of t) cue) (is_limited cue) (λ _. same)
          (λ _. current) in
      if_cases (λ (r : Scheduler × ScheduleResult). IsValid c owner r.0)
        (is_limited cue && not checked.1) (λ _. v₁)
        (λ room. take_over-IsValid cue now s₁ v₁ own same₁ (λ limited.
          let allowed = within_rate_limits-IsAllowed c cue.layer now s (ground arith) in
          if_cases (λ (t : Scheduler). IsAllowed c cue.layer (rest_of t)) (is_limited cue)
            (λ _. allowed) (λ clash. absurd (cc))))

  attempt_by-IsValid :
      (refused : Option ScheduleStatus) (cue : PresentationCue) (now : ℤ) (s : Scheduler)
      → IsValid c owner s
      → owner cue.cue_id ≡ cue.layer
      → (refused ≡ none → IsCurrent (rest_of s) cue)
      → IsValid c owner (attempt_by refused c cue now s).0
  unfolding attempt_by
  attempt_by-IsValid (some status) cue now s h own current = h
  attempt_by-IsValid none cue now s h own current =
      attempt_unrefused-IsValid cue now s h own (current refl)

  pub attempt_start-IsValid :
      (cue : PresentationCue) (now : ℤ) (s : Scheduler)
      → IsValid c owner s
      → owner cue.cue_id ≡ cue.layer
      → IsValid c owner (attempt_start c cue now s).0
  unfolding attempt_start
  attempt_start-IsValid cue now s h own =
      attempt_by-IsValid (refusal cue now s) cue now s h own (λ e. (refusal-none cue now s e).0)

  -- A well-formed scheduler that is connected.
  abbrev pub IsOnline : Scheduler → Type 0
  IsOnline s = IsValid c owner s × (s.connected ≡ true)

  pub restore_layer-IsOnline :
      (factory : PresentationLayer → ℕ → ℤ → PresentationCue) (now : ℤ) (layer : PresentationLayer)
      → ((generation : ℕ)
          → owner (factory layer generation now).cue_id ≡ (factory layer generation now).layer)
      → (s : Scheduler) → IsOnline s
      → IsOnline (restore_layer factory now layer s).0
  unfolding restore_layer start_event occupy
  restore_layer-IsOnline factory now layer own s (h, online) =
      let P = λ (r : Scheduler × _). IsOnline r.0 in
      let cue = factory layer s.generation now in
      if_cases P (is_some (s.active_by_layer layer))
        (λ _. (record { held = h.held; queued = h.queued }, online))
        (λ _.
          if_cases P (not (is_valid_neutral layer s.generation cue)) (λ _. (h, online))
            (λ valid.
              if_cases P (any (λ _. true) (conflicting_leases cue s)) (λ _. (h, online))
                (λ clear. (
                  occupy-IsValid c owner cue none now s h (unblocked cue s clear) (own s.generation)
                      (ground arith, online),
                  online,
                ))))

  restore_each-IsOnline :
      (factory : PresentationLayer → ℕ → ℤ → PresentationCue) (now : ℤ)
      (layers : List PresentationLayer)
      → ((layer : PresentationLayer) (generation : ℕ)
          → owner (factory layer generation now).cue_id ≡ (factory layer generation now).layer)
      → (s : Scheduler) → IsOnline s
      → IsOnline (restore_each factory now layers s).0
  unfolding restore_each
  restore_each-IsOnline factory now [] own s h = h
  restore_each-IsOnline factory now (layer ∷ layers) own s h =
      bind_stable IsOnline (restore_layer factory now layer) _
        (restore_layer-IsOnline factory now layer (own layer))
        (λ first.
          bind_stable IsOnline (restore_each factory now layers) _
            (restore_each-IsOnline factory now layers own) (λ rest t i. i))
        s h

  restore_by-IsValid :
      (found : Option (PresentationLayer → ℕ → ℤ → PresentationCue)) (now : ℤ)
      → ((factory : PresentationLayer → ℕ → ℤ → PresentationCue)
          → found ≡ some factory
          → (layer : PresentationLayer) (generation : ℕ)
          → owner (factory layer generation now).cue_id ≡ (factory layer generation now).layer)
      → (s : Scheduler) → IsValid c owner s
      → IsValid c owner (restore_by found now s).0
  unfolding restore_by
  restore_by-IsValid none now own s h = h
  restore_by-IsValid (some factory) now own s h =
      if_cases (λ (r : Scheduler × Result SchedulerError Events). IsValid c owner r.0) s.connected
        (λ online.
          (restore_each-IsOnline factory now (keep s.needs_neutral sorted_layers) (own factory refl)
            s (h, online)).0)
        (λ _. h)

  pub restore_neutrals-IsValid :
      IsOwnFactory c owner
      → (now : ℤ) (s : Scheduler) → IsValid c owner s
      → IsValid c owner (restore_neutrals c now s).0
  unfolding restore_neutrals
  restore_neutrals-IsValid own now s h =
      restore_by-IsValid c.neutral_factory now
        (λ factory e layer generation. own factory e layer generation now) s h
