-- ===== src/Avatar/Scheduler/Exclusion.antt =====
-- The steps of the scheduler keep its leases apart and the index by layer right, and touch nothing
-- else (src/eeveetuber/avatar/scheduler.py).
use eeveetuber.Common.{
  ℕ, ◌≡◌, ◌∙◌, ap, sym, refl, inl, inr, Bool, true, false, not, Option, none, some, List, [], ◌∷◌,
  arith, Bool-cases, if_cases, if◌then◌else◌, ◌==◌, All, All-snoc, All-keep, keep, any,
}
use eeveetuber.Common.Int.{ℤ}
use eeveetuber.Avatar.Presentation.{
  PresentationLayer, same_layer, PresentationCue, ActiveLease, AudioTimelineMarker, same_option,
}
use eeveetuber.Avatar.Scheduler.State.{
  PendingCue, Scheduler, has_id, conflicts, set_layer, remove_active,
}
use eeveetuber.Avatar.Scheduler.Leasing.{Stopping, stop_lease, stop_each, occupy}
use eeveetuber.Avatar.Scheduler.Leases.{
  same_layer-eq, Exclusive, Exclusive-keep, Exclusive-append, layer_id, layer_id-append, IsOwned,
  layer_id-owner, layer_id-freed, layer_id-kept, free_id, set_lease_lem, find_lease_lem, keep-All,
  own_layer, All-find_lease,
}

-- The fields that stopping leases and starting one leave alone.
pub record Rest : Type 0 where
  pub generation : ℕ
  pub connected : Bool
  pub pending : List PendingCue
  pub audio_markers : List AudioTimelineMarker
  pub global_starts : List ℤ
  pub layer_starts : PresentationLayer → List ℤ

abbrev pub rest_of : Scheduler → Rest
rest_of s = record {
  generation = s.generation;
  connected = s.connected;
  pending = s.pending;
  audio_markers = s.audio_markers;
  global_starts = s.global_starts;
  layer_starts = s.layer_starts;
}

rest_of-remove_active : (id : ℕ) (s : Scheduler) → rest_of (remove_active id s) ≡ rest_of s
unfolding remove_active
rest_of-remove_active id s = elim (find_lease_lem id s.active) [
  | inl (e, _) ↦ rw (remove_active, e) refl
  | inr (x, e, _, _) ↦ rw (remove_active, e) refl
]

pub rest_of-stop_lease :
    (how : Stopping) (now : ℤ) (x : ActiveLease) (s : Scheduler)
    → rest_of (stop_lease how now x s).0 ≡ rest_of s
unfolding stop_lease
rest_of-stop_lease how now x s = rest_of-remove_active x.cue.cue_id s

pub rest_of-stop_each :
    (how : Stopping) (now : ℤ) (xs : List ActiveLease) (s : Scheduler)
    → rest_of (stop_each how now xs s).0 ≡ rest_of s
unfolding stop_each
rest_of-stop_each how now [] s = refl
rest_of-stop_each how now (x ∷ xs) s =
    let s₁ = if how.applies x then (stop_lease how now x s).0 else s in
    rest_of-stop_each how now xs s₁
    ∙ if_cases (λ (t : Scheduler). rest_of t ≡ rest_of s) (how.applies x)
        (λ _. rest_of-stop_lease how now x s) (λ _. refl)

-- The leases exclude one another, the index names the holder of each layer, an identifier belongs to
-- one layer, and each lease's cue has a property.
pub record AreHeld (owner : ℕ → PresentationLayer) (P : PresentationCue → Type 0)
    (active : List ActiveLease) (by_layer : PresentationLayer → Option ℕ) : Type 0 where
  pub exclusive : Exclusive active
  pub linked : (layer : PresentationLayer) → by_layer layer ≡ layer_id layer active
  pub owned : All (IsOwned owner) active
  pub each : All (λ x. P x.cue) active

abbrev pub IsHeld : (ℕ → PresentationLayer) → (PresentationCue → Type 0) → Scheduler → Type 0
IsHeld owner P s = AreHeld owner P s.active s.active_by_layer

pub active-remove_active :
    (id : ℕ) (s : Scheduler) → (remove_active id s).active ≡ keep (λ y. not (has_id id y)) s.active
unfolding remove_active
active-remove_active id s = elim (find_lease_lem id s.active) [
  | inl (e, others) ↦ rw (remove_active, e) (sym (keep-All id s.active others))
  | inr (x, e, _, _) ↦ rw (remove_active, e) refl
]

module _ (owner : ℕ → PresentationLayer) where
  freed_index :
      (by_layer : PresentationLayer → Option ℕ) (xs : List ActiveLease) (id : ℕ)
      (held : PresentationLayer)
      → held ≡ owner id
      → ((layer : PresentationLayer) → by_layer layer ≡ layer_id layer xs)
      → Exclusive xs
      → All (IsOwned owner) xs
      → any (has_id id) xs ≡ true
      → (layer : PresentationLayer)
      → (if same_option (by_layer held) (some id) then set_layer held none by_layer else by_layer)
          layer
        ≡ layer_id layer (keep (λ y. not (has_id id y)) xs)
  freed_index by_layer xs id held here linked e owned found layer =
      let index : by_layer held ≡ some id =
        linked held ∙ (ap (λ l. layer_id l xs) here ∙ layer_id-owner owner id xs e owned found) in
      let refl_id : (id == id) ≡ true = ground arith in
      rw (index, refl_id)
        (elim (Bool-cases (same_layer layer held)) [
          | inl same ↦ rw same (
              sym (layer_id-freed owner id xs e owned found)
              ∙ ap (λ l. layer_id l (keep (λ y. not (has_id id y)) xs))
                  (sym here ∙ sym (same_layer-eq layer held same)))
          | inr other ↦ rw other (
              linked layer
              ∙ sym (
                  layer_id-kept owner id layer xs (ap (same_layer layer) (sym here) ∙ other) owned))
        ])

  module _ (P : PresentationCue → Type 0) where
    remove_active-IsHeld :
        (id : ℕ) (s : Scheduler) → IsHeld owner P s → IsHeld owner P (remove_active id s)
    unfolding remove_active
    remove_active-IsHeld id s h = elim (find_lease_lem id s.active) [
      | inl (e, _) ↦ rw (remove_active, e) h
      | inr (x, e, same, found) ↦
          rw (remove_active, e)
            (record {
              exclusive = Exclusive-keep (λ y. not (has_id id y)) s.active h.exclusive;
              linked =
                  freed_index s.active_by_layer s.active id x.cue.layer
                    (own_layer owner id x (All-find_lease (IsOwned owner) id x s.active h.owned e)
                      same)
                    h.linked h.exclusive h.owned found;
              owned = All-keep (IsOwned owner) (λ y. not (has_id id y)) s.active h.owned;
              each = All-keep (λ y. P y.cue) (λ y. not (has_id id y)) s.active h.each;
            })
    ]

    pub stop_lease-IsHeld :
        (how : Stopping) (now : ℤ) (x : ActiveLease) (s : Scheduler)
        → IsHeld owner P s
        → IsHeld owner P (stop_lease how now x s).0
    unfolding stop_lease
    stop_lease-IsHeld how now x s h = remove_active-IsHeld x.cue.cue_id s h

    pub stop_each-IsHeld :
        (how : Stopping) (now : ℤ) (xs : List ActiveLease) (s : Scheduler)
        → IsHeld owner P s
        → IsHeld owner P (stop_each how now xs s).0
    unfolding stop_each
    stop_each-IsHeld how now [] s h = h
    stop_each-IsHeld how now (x ∷ xs) s h =
        let s₁ = if how.applies x then (stop_lease how now x s).0 else s in
        stop_each-IsHeld how now xs s₁ (
          if_cases (IsHeld owner P) (how.applies x) (λ _. stop_lease-IsHeld how now x s h) (λ _. h))

    -- A cue that nothing stands in the way of takes its layer.
    pub occupy-IsHeld :
        (cue : PresentationCue) (expires_at : Option ℤ) (now : ℤ) (s : Scheduler)
        → IsHeld owner P s
        → All (λ x. conflicts cue x ≡ false) s.active
        → owner cue.cue_id ≡ cue.layer
        → P cue
        → IsHeld owner P (occupy cue expires_at now s)
    unfolding occupy
    occupy-IsHeld cue expires_at now s h free own p =
        let new_lease : ActiveLease = record {
          cue = cue;
          started_at = now;
          expires_at = expires_at;
        } in
        let new_id = free_id owner cue s.active own h.owned free in
        rw (set_lease_lem new_lease s.active new_id) (record {
          exclusive = Exclusive-append s.active new_lease h.exclusive free;
          linked = λ layer.
              ap (λ r. if same_layer layer cue.layer then some cue.cue_id else r) (h.linked layer)
              ∙ sym (layer_id-append layer s.active new_lease free);
          owned = All-snoc (IsOwned owner) s.active new_lease h.owned own;
          each = All-snoc (λ y. P y.cue) s.active new_lease h.each p;
        })
