-- ===== src/Avatar/Scheduler/Clearing.antt =====
-- What a loop over leases leaves behind (src/eeveetuber/avatar/scheduler.py).
use eeveetuber.Common.{
  ℕ, ◌≡◌, ◌∙◌, ap, sym, subst, refl, Bool, true, false, not, List, [], ◌∷◌, arith, if_cases, ◌==◌,
  All, All-map, keep, any, any-sort_by,
}
use eeveetuber.Common.Int.{ℤ}
use eeveetuber.Avatar.Presentation.{PresentationCue, ActiveLease}
use eeveetuber.Avatar.Scheduler.State.{
  Scheduler, has_id, conflicts, conflicting_leases, sorted_active, before_by_priority,
  before_by_layer,
}
use eeveetuber.Avatar.Scheduler.Leasing.{Stopping, stop_lease, stop_each}
use eeveetuber.Avatar.Scheduler.Exclusion.{active-remove_active}

-- The list names each lease that passes the test.
abbrev pub Covers : (ActiveLease → Bool) → List ActiveLease → List ActiveLease → Type 0
Covers test xs active = All (λ x. test x ≡ true → any (has_id x.cue.cue_id) xs ≡ true) active

refl_id : (id : ℕ) → (id == id) ≡ true
refl_id id = ground arith

Covers-keep :
    (test : ActiveLease → Bool) (active : List ActiveLease) → Covers test (keep test active) active
Covers-keep test [] = tt
Covers-keep test (x ∷ xs) = (
  λ passed. rw (passed, refl_id x.cue.cue_id) refl,
  All-map (λ y. test y ≡ true → any (has_id y.cue.cue_id) (keep test xs) ≡ true)
      (λ y. test y ≡ true → any (has_id y.cue.cue_id) (keep test (x ∷ xs)) ≡ true) xs
      (λ y covered passed.
        if_cases (λ zs. any (has_id y.cue.cue_id) zs ≡ true) (test x)
          (λ _. rw (covered passed) (ground arith)) (λ _. covered passed))
      (Covers-keep test xs),
)

keep_everything : (xs : List ActiveLease) → keep (λ _. true) xs ≡ xs
keep_everything [] = refl
keep_everything (x ∷ xs) = ap (λ r. x ∷ r) (keep_everything xs)

pub Covers-conflicting_leases :
    (cue : PresentationCue) (s : Scheduler)
    → Covers (conflicts cue) (conflicting_leases cue s) s.active
unfolding conflicting_leases
Covers-conflicting_leases cue s =
    All-map
      (λ (y : ActiveLease).
        conflicts cue y ≡ true → any (has_id y.cue.cue_id) (keep (conflicts cue) s.active) ≡ true)
      (λ y. conflicts cue y ≡ true → any (has_id y.cue.cue_id) (conflicting_leases cue s) ≡ true)
      s.active
      (λ y covered passed.
        any-sort_by (has_id y.cue.cue_id) before_by_priority (keep (conflicts cue) s.active)
        ∙ covered passed)
      (Covers-keep (conflicts cue) s.active)

pub Covers-sorted_active : (s : Scheduler) → Covers (λ _. true) (sorted_active s) s.active
unfolding sorted_active
Covers-sorted_active s =
    All-map
      (λ (y : ActiveLease).
        true ≡ true → any (has_id y.cue.cue_id) (keep (λ _. true) s.active) ≡ true)
      (λ y. true ≡ true → any (has_id y.cue.cue_id) (sorted_active s) ≡ true) s.active
      (λ y covered passed.
        any-sort_by (has_id y.cue.cue_id) before_by_layer s.active
        ∙ (ap (any (has_id y.cue.cue_id)) (sym (keep_everything s.active)) ∙ covered passed))
      (Covers-keep (λ _. true) s.active)

-- Stopping the first lease of the list leaves the rest to stop.
Covers-tail :
    (test : ActiveLease → Bool) (x : ActiveLease) (xs active : List ActiveLease)
    → Covers test (x ∷ xs) active
    → Covers test xs (keep (λ y. not (has_id x.cue.cue_id y)) active)
Covers-tail test x xs [] h = tt
Covers-tail test x xs (y ∷ ys) (covered, rest) =
    if_cases (Covers test xs) (not (has_id x.cue.cue_id y))
      (λ other.
        (λ passed. let here = covered passed in ground arith, Covers-tail test x xs ys rest))
      (λ _. Covers-tail test x xs ys rest)

uncovered : (b : Bool) → (b ≡ true → false ≡ true) → b ≡ false
uncovered b h = ground arith

-- A loop that stops each lease of the list leaves none that passes the test.
pub stop_each-clears :
    (test : ActiveLease → Bool) (how : Stopping) (now : ℤ) (xs : List ActiveLease) (s : Scheduler)
    → ((x : ActiveLease) → how.applies x ≡ true)
    → Covers test xs s.active
    → All (λ x. test x ≡ false) (stop_each how now xs s).0.active
unfolding stop_each stop_lease
stop_each-clears test how now [] s every h =
    All-map (λ (y : ActiveLease). test y ≡ true → false ≡ true) (λ y. test y ≡ false) s.active
      (λ y covered. uncovered (test y) covered) h
stop_each-clears test how now (x ∷ xs) s every h = rw (every x) (
    stop_each-clears test how now xs (stop_lease how now x s).0 every (
      subst (Covers test xs) (sym (active-remove_active x.cue.cue_id s))
        (Covers-tail test x xs s.active h)))

-- Nothing is left where everything passes.
pub nothing_left : (xs : List ActiveLease) → All (λ x. true ≡ false) xs → xs ≡ []
nothing_left [] h = refl
nothing_left (x ∷ xs) (clash, _) = absurd (cc)
