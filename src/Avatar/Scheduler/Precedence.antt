-- ===== src/Avatar/Scheduler/Precedence.antt =====
-- A lease outlasts the cues that it outranks (src/eeveetuber/avatar/scheduler.py).
use eeveetuber.Common.{
  ℕ, ◌<◌, ◌≡◌, ◌∙◌, ap, sym, subst, refl, inl, inr, true, false, not, some, List, [], ◌∷◌, ◌++◌,
  arith, Bool-cases, if_cases, if◌then◌else◌, ltb, ◌==◌, All, All-keep, All-map, All-both,
  All-sort_by, any-All, keep, any,
}
use eeveetuber.Common.Int.{ℤ}
use eeveetuber.Avatar.Presentation.{
  PresentationLayer, same_layer, PresentationCue, ActiveLease, value,
}
use eeveetuber.Avatar.Scheduler.State.{
  Config, Scheduler, has_id, find_lease, sorted_active, before_by_layer, before_by_priority,
  conflicts, conflicting_leases,
}
use eeveetuber.Avatar.Scheduler.{preempting}
use eeveetuber.Avatar.Scheduler.Leasing.{Stopping, stop_lease, stop_each, expiring, expire, is_over}
use eeveetuber.Avatar.Scheduler.Leases.{
  same_layer_refl, Exclusive, IsOwned, apart_from_id, own_layer,
}
use eeveetuber.Avatar.Scheduler.Exclusion.{active-remove_active}
use eeveetuber.Avatar.Scheduler.Invariant.{IsValid}
use eeveetuber.Avatar.Scheduler.Starting.{preempt}

-- Only one lease has the identifier.
pub find_lease_unique :
    (owner : ℕ → PresentationLayer) (id : ℕ) (x : ActiveLease) (xs : List ActiveLease)
    → Exclusive xs
    → All (IsOwned owner) xs
    → find_lease id xs ≡ some x
    → All (λ y. has_id id y ≡ true → y ≡ x) xs
unfolding find_lease
find_lease_unique owner id x [] e o h = tt
find_lease_unique owner id x (y ∷ ys) (apart, e) (o, owned) h = elim (Bool-cases (has_id id y)) [
  | inl same ↦
      let clash : any (has_id id) ys ≡ true → true ≡ false = λ later.
        sym (
          subst (λ l. same_layer l (owner id) ≡ true) (sym (own_layer owner id y o same))
            (same_layer_refl (owner id)))
        ∙ apart_from_id owner id y ys apart owned later in
      let later : any (has_id id) ys ≡ false = ground arith in
      (
        λ _. ground arith,
        All-map (λ (z : ActiveLease). has_id id z ≡ false) (λ z. has_id id z ≡ true → z ≡ x) ys
            (λ z other hit. absurd (cc)) (any-All (has_id id) ys later),
      )
  | inr other ↦ (λ hit. absurd (cc), find_lease_unique owner id x ys e owned (ground arith))
]

find_lease-keep :
    (id other : ℕ) (xs : List ActiveLease)
    → (other == id) ≡ false
    → find_lease id (keep (λ y. not (has_id other y)) xs) ≡ find_lease id xs
unfolding find_lease
find_lease-keep id other [] apart = refl
find_lease-keep id other (y ∷ ys) apart = elim (Bool-cases (has_id other y)) [
  | inl same ↦
      let elsewhere : has_id id y ≡ false = ground arith in
      rw (same, elsewhere) (find_lease-keep id other ys apart)
  | inr kept ↦
      rw kept (ap (λ r. if has_id id y then some y else r) (find_lease-keep id other ys apart))
]

-- A loop that stops no lease of the identifier leaves its lease in place.
find_lease-stop_each :
    (id : ℕ) (how : Stopping) (now : ℤ) (ys : List ActiveLease) (s : Scheduler)
    → All (λ y. how.applies y ≡ true → has_id id y ≡ false) ys
    → find_lease id (stop_each how now ys s).0.active ≡ find_lease id s.active
unfolding stop_each stop_lease
find_lease-stop_each id how now [] s h = refl
find_lease-stop_each id how now (y ∷ ys) s (spared, rest) =
    let s₁ = if how.applies y then (stop_lease how now y s).0 else s in
    find_lease-stop_each id how now ys s₁ rest
    ∙ if_cases (λ (t : Scheduler). find_lease id t.active ≡ find_lease id s.active) (how.applies y)
        (λ stops.
          ap (find_lease id) (active-remove_active y.cue.cue_id s)
          ∙ find_lease-keep id y.cue.cue_id s.active (spared stops))
        (λ _. refl)

pub find_lease-append :
    (id : ℕ) (x : ActiveLease) (xs ys : List ActiveLease)
    → find_lease id xs ≡ some x
    → find_lease id (xs ++ ys) ≡ some x
unfolding find_lease
find_lease-append id x [] ys h = absurd (cc)
find_lease-append id x (y ∷ xs) ys h = elim (Bool-cases (has_id id y)) [
  | inl same ↦ rw same (ground arith)
  | inr other ↦ rw other (find_lease-append id x xs ys (ground arith))
]

module _ (c : Config) (owner : ℕ → PresentationLayer) (id : ℕ) (x : ActiveLease) where
  -- A well-formed scheduler with the lease.
  abbrev pub HasLease : Scheduler → Type 0
  HasLease s = IsValid c owner s × (find_lease id s.active ≡ some x)

  unique_in : (s : Scheduler) → HasLease s → All (λ y. has_id id y ≡ true → y ≡ x) s.active
  unique_in s (h, found) = find_lease_unique owner id x s.active h.held.exclusive h.held.owned found

  pub find_lease-expire :
      (now : ℤ) (s : Scheduler)
      → HasLease s
      → is_over now x ≡ false
      → find_lease id (expire now s).0.active ≡ some x
  unfolding expire sorted_active
  find_lease-expire now s h lasting =
      let P = λ (y : ActiveLease). is_over now y ≡ true → has_id id y ≡ false in
      let spared =
        All-map (λ (y : ActiveLease). has_id id y ≡ true → y ≡ x) P s.active
          (λ y same ends.
            let over : has_id id y ≡ true → false ≡ true =
              λ hit. sym lasting ∙ subst (λ z. is_over now z ≡ true) (same hit) ends in
            elim (Bool-cases (has_id id y)) [
              | inl hit ↦ let clash = over hit in absurd (cc)
              | inr miss ↦ miss
            ])
          (unique_in s h) in
      find_lease-stop_each id (expiring now) now (sorted_active s) s
        (All-sort_by P before_by_layer s.active spared)
      ∙ h.1

  pub find_lease-preempt :
      (cue : PresentationCue) (now : ℤ) (s : Scheduler)
      → HasLease s
      → value cue.priority < value x.cue.priority
      → any
          (λ (y : ActiveLease). ltb (value cue.priority) (value y.cue.priority))
          (conflicting_leases cue s)
        ≡ false
      → find_lease id (preempt cue now s).active ≡ some x
  unfolding conflicting_leases
  find_lease-preempt cue now s h outranks free =
      let ranks = λ (y : ActiveLease). ltb (value cue.priority) (value y.cue.priority) in
      let P = λ (y : ActiveLease). has_id id y ≡ true → y ≡ x in
      let same =
        All-sort_by P before_by_priority (keep (conflicts cue) s.active)
          (All-keep P (conflicts cue) s.active (unique_in s h)) in
      let both =
        All-both P (λ y. ranks y ≡ false) (conflicting_leases cue s) same
          (any-All ranks (conflicting_leases cue s) free) in
      find_lease-stop_each id (preempting cue) now (conflicting_leases cue s) s (
        All-map (λ (y : ActiveLease). (has_id id y ≡ true → y ≡ x) × (ranks y ≡ false))
          (λ y. true ≡ true → has_id id y ≡ false) (conflicting_leases cue s)
          (λ y known _. elim (Bool-cases (has_id id y)) [
            | inl hit ↦
                let here = subst (λ z. ranks z ≡ false) (known.0 hit) known.1 in
                absurd (ground arith)
            | inr miss ↦ miss
          ])
          both)
      ∙ h.1
