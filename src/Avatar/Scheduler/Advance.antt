-- ===== src/Avatar/Scheduler/Advance.antt =====
-- Restoring the neutral cues leaves the rest of the scheduler alone, and what a new generation
-- leaves (src/eeveetuber/avatar/scheduler.py).
use eeveetuber.Common.{
  ℕ, ◌<◌, ◌≡◌, ◌∙◌, ap, refl, true, false, not, Option, none, some, List, [], ◌∷◌, arith, if_cases,
  ltb, ◌==◌, is_some, All, All-map, any, keep,
}
use eeveetuber.Common.Int.{ℤ}
use eeveetuber.Common.Result.{Result}
use eeveetuber.Common.Action.{bind_stable}
use eeveetuber.Avatar.Presentation.{
  PresentationLayer, PresentationCue, ActiveLease, generation_advanced,
}
use eeveetuber.Avatar.Scheduler.State.{
  Config, Scheduler, SchedulerError, sorted_layers, sorted_active, conflicting_leases,
}
use eeveetuber.Avatar.Scheduler.Leasing.{
  Events, stop_each, occupy, start_event, is_valid_neutral, restore_layer, restore_each, restore_by,
  restore_neutrals,
}
use eeveetuber.Avatar.Scheduler.Methods.{all_leases, restored_after, advance_generation}
use eeveetuber.Avatar.Scheduler.Exclusion.{Rest, rest_of, rest_of-stop_each}
use eeveetuber.Avatar.Scheduler.Invariant.{IsCurrent, IsValid, IsOwnFactory}
use eeveetuber.Avatar.Scheduler.Upkeep.{advance_generation-IsValid}

abbrev IsLike : Rest → Scheduler → Type 0
IsLike r s = rest_of s ≡ r

restore_layer-rest_of :
    (r : Rest) (factory : PresentationLayer → ℕ → ℤ → PresentationCue) (now : ℤ)
    (layer : PresentationLayer) (s : Scheduler)
    → IsLike r s
    → IsLike r (restore_layer factory now layer s).0
unfolding restore_layer start_event occupy
restore_layer-rest_of r factory now layer s h =
    let P = λ (a : Scheduler × Result SchedulerError Events). IsLike r a.0 in
    if_cases P (is_some (s.active_by_layer layer)) (λ _. h)
      (λ _.
        if_cases P (not (is_valid_neutral layer s.generation (factory layer s.generation now)))
          (λ _. h)
          (λ _.
            if_cases P (any (λ _. true) (conflicting_leases (factory layer s.generation now) s))
              (λ _. h) (λ _. h)))

restore_each-rest_of :
    (r : Rest) (factory : PresentationLayer → ℕ → ℤ → PresentationCue) (now : ℤ)
    (layers : List PresentationLayer) (s : Scheduler)
    → IsLike r s
    → IsLike r (restore_each factory now layers s).0
unfolding restore_each
restore_each-rest_of r factory now [] s h = h
restore_each-rest_of r factory now (layer ∷ layers) s h =
    bind_stable (IsLike r) (restore_layer factory now layer) _
      (restore_layer-rest_of r factory now layer)
      (λ first.
        bind_stable (IsLike r) (restore_each factory now layers) _
          (restore_each-rest_of r factory now layers) (λ rest t i. i))
      s h

restore_by-rest_of :
    (r : Rest) (found : Option (PresentationLayer → ℕ → ℤ → PresentationCue)) (now : ℤ)
    (s : Scheduler)
    → IsLike r s
    → IsLike r (restore_by found now s).0
unfolding restore_by
restore_by-rest_of r none now s h = h
restore_by-rest_of r (some factory) now s h =
    if_cases (λ (a : Scheduler × Result SchedulerError Events). IsLike r a.0) s.connected
      (λ _. restore_each-rest_of r factory now (keep s.needs_neutral sorted_layers) s h) (λ _. h)

-- The neutral cues change only the leases and what goes with them.
pub restored_after-rest_of :
    (c : Config) (now : ℤ) (events : Events) (s : Scheduler)
    → rest_of (restored_after c now events s).0 ≡ rest_of s
unfolding restore_neutrals
restored_after-rest_of c now events s =
    bind_stable (IsLike (rest_of s)) (restore_neutrals c now) _
      (restore_by-rest_of (rest_of s) c.neutral_factory now) (λ restored t i. i) s refl

advance_generation-rest_of :
    (c : Config) (generation : ℕ) (now : ℤ) (s : Scheduler)
    → s.generation < generation
    → rest_of (advance_generation c generation now s).0
      ≡ record (rest_of s) { generation = generation; pending = []; audio_markers = [] }
unfolding advance_generation
advance_generation-rest_of c generation now s newer =
    let older : ltb generation s.generation ≡ false = ground arith in
    let other : (generation == s.generation) ≡ false = ground arith in
    let how = all_leases generation_advanced true in
    let s₁ : Scheduler = record s { generation = generation; pending = []; audio_markers = [] } in
    let stopped = stop_each how now (sorted_active s₁) s₁ in
    rw (older, other)
      (restored_after-rest_of c now stopped.1 stopped.0
        ∙ rest_of-stop_each how now (sorted_active s₁) s₁)

-- Nothing of an older generation outlives the move to a newer one: afterwards the scheduler is at
-- the new generation, no cue is pending, no audio marker is kept, and each active lease is a cue
-- of the new generation, for a well-formed scheduler and a factory whose cues have identifiers of
-- their own layers.
pub advance_generation-fresh :
    (c : Config) (owner : ℕ → PresentationLayer) (generation : ℕ) (now : ℤ) (s : Scheduler)
    → IsOwnFactory c owner
    → IsValid c owner s
    → s.generation < generation
    → ((advance_generation c generation now s).0.generation ≡ generation)
      × (((advance_generation c generation now s).0.pending ≡ [])
          × (((advance_generation c generation now s).0.audio_markers ≡ [])
              × All
                  (λ x. x.cue.generation ≡ generation)
                  (advance_generation c generation now s).0.active))
advance_generation-fresh c owner generation now s own h newer =
    let e = advance_generation-rest_of c generation now s newer in
    let s₁ = (advance_generation c generation now s).0 in
    let v = advance_generation-IsValid c owner own generation now s h in
    (
      ap (λ (r : Rest). r.generation) e,
      (
        ap (λ (r : Rest). r.pending) e,
        (
          ap (λ (r : Rest). r.audio_markers) e,
          All-map (λ (x : ActiveLease). IsCurrent (rest_of s₁) x.cue)
              (λ x. x.cue.generation ≡ generation) s₁.active
              (λ x current. current.0 ∙ ap (λ (r : Rest). r.generation) e) v.held.each,
        ),
      ),
    )
