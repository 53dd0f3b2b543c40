-- ===== src/Avatar/Scheduler/Invariant.antt =====
-- When a scheduler is well formed (src/eeveetuber/avatar/scheduler.py), and that its inner steps
-- keep it so.
use eeveetuber.Common.{
  ℕ, ◌≤◌, ◌≡◌, ◌∙◌, sym, subst, inl, inr, Bool, true, false, not, Option, none, some, List, [], ◌∷◌,
  ◌++◌, length, length-append, arith, Bool-cases, if_cases, if◌then◌else◌, is_some, All, All-keep,
  keep, length-keep, any, any-sort_by,
}
use eeveetuber.Common.Int.{ℤ, leb_ℤ, ◌-ℤ◌}
use eeveetuber.Avatar.Presentation.{PresentationLayer, same_layer, PresentationCue, ActiveLease}
use eeveetuber.Avatar.Scheduler.State.{
  RateLimitPolicy, Config, PendingCue, Scheduler, conflicts, conflicting_leases, before_by_priority,
  set_layer, sorted_active, prune_window, is_late,
}
use eeveetuber.Avatar.Scheduler.{prune, is_within, within_rate_limits, record_start}
use eeveetuber.Avatar.Scheduler.Leasing.{Stopping, stop_each, expiring, expire, occupy, start_event}
use eeveetuber.Avatar.Scheduler.Leases.{same_layer-eq}
use eeveetuber.Avatar.Scheduler.Exclusion.{
  Rest, rest_of, rest_of-stop_each, IsHeld, stop_each-IsHeld, occupy-IsHeld,
}

-- A cue of the present generation, while the renderer is connected.
abbrev pub IsCurrent : Rest → PresentationCue → Type 0
IsCurrent r cue = (cue.generation ≡ r.generation) × (r.connected ≡ true)

-- No more starts are remembered than the limit allows.
abbrev pub IsWithinRate : Option RateLimitPolicy → List ℤ → Type 0
IsWithinRate none starts = Unit
IsWithinRate (some limit) starts = length starts ≤ limit.max_starts

abbrev pub IsWaiting : (ℕ → PresentationLayer) → Rest → PendingCue → Type 0
IsWaiting owner r p = (owner p.cue.cue_id ≡ p.cue.layer) × IsCurrent r p.cue

pub record IsQueued (c : Config) (owner : ℕ → PresentationLayer) (r : Rest) : Type 0 where
  pub queue : All (IsWaiting owner r) r.pending
  pub room : length r.pending ≤ c.max_pending
  pub markers : length r.audio_markers ≤ c.max_audio_markers
  pub rate : IsWithinRate c.global_rate_limit r.global_starts
  pub layer_rate :
      (layer : PresentationLayer) → IsWithinRate (c.layer_rate_limits layer) (r.layer_starts layer)

-- The leases are of current cues and exclude one another, and the queue and the rates are in bounds.
pub record IsValid (c : Config) (owner : ℕ → PresentationLayer) (s : Scheduler) : Type 0 where
  pub held : IsHeld owner (IsCurrent (rest_of s)) s
  pub queued : IsQueued c owner (rest_of s)

-- The factory's cues have identifiers of their own layers.
abbrev pub IsOwnFactory : Config → (ℕ → PresentationLayer) → Type 0
IsOwnFactory c owner =
    (factory : PresentationLayer → ℕ → ℤ → PresentationCue)
    → c.neutral_factory ≡ some factory
    → (layer : PresentationLayer) (generation : ℕ) (now : ℤ)
    → owner (factory layer generation now).cue_id ≡ (factory layer generation now).layer

none_blocks :
    (test : ActiveLease → Bool) (xs : List ActiveLease)
    → any (λ _. true) (keep test xs) ≡ false
    → All (λ x. test x ≡ false) xs
none_blocks test [] h = tt
none_blocks test (x ∷ xs) h = elim (Bool-cases (test x)) [
  | inl hit ↦ absurd (ground arith)
  | inr miss ↦ (miss, none_blocks test xs (ground arith))
]

pub unblocked :
    (cue : PresentationCue) (s : Scheduler)
    → any (λ _. true) (conflicting_leases cue s) ≡ false
    → All (λ x. conflicts cue x ≡ false) s.active
unfolding conflicting_leases
unblocked cue s h =
    none_blocks (conflicts cue) s.active
      (sym (any-sort_by (λ _. true) before_by_priority (keep (conflicts cue) s.active)) ∙ h)

length-prune_window :
    (starts : List ℤ) (now window : ℤ) → length (prune_window starts now window) ≤ length starts
unfolding prune_window
length-prune_window [] now window = omega arith
length-prune_window (t ∷ ts) now window =
    let shorter = length-prune_window ts now window in
    if_cases (λ (xs : List ℤ). length xs ≤ length (t ∷ ts)) (leb_ℤ t (now -ℤ window))
      (λ _. omega arith) (λ _. omega arith)

prune-IsWithinRate :
    (limit : Option RateLimitPolicy) (now : ℤ) (starts : List ℤ)
    → IsWithinRate limit starts
    → IsWithinRate limit (prune limit now starts)
prune-IsWithinRate none now starts h = tt
prune-IsWithinRate (some limit) now starts h =
    omega (arith, length-prune_window starts now limit.window_s)

record-IsWithinRate :
    (limit : Option RateLimitPolicy) (now : ℤ) (starts : List ℤ)
    → is_within limit starts ≡ true
    → IsWithinRate limit (if is_some limit then starts ++ now ∷ [] else starts)
record-IsWithinRate none now starts h = tt
record-IsWithinRate (some limit) now starts h = rw (length-append starts (now ∷ [])) (ground arith)

module _ (c : Config) (owner : ℕ → PresentationLayer) where
  pub stop_each-IsValid :
      (how : Stopping) (now : ℤ) (xs : List ActiveLease) (s : Scheduler)
      → IsValid c owner s
      → IsValid c owner (stop_each how now xs s).0
  stop_each-IsValid how now xs s h =
      let same = sym (rest_of-stop_each how now xs s) in
      record {
        held =
            subst (λ r. IsHeld owner (IsCurrent r) (stop_each how now xs s).0) same
              (stop_each-IsHeld owner (IsCurrent (rest_of s)) how now xs s h.held);
        queued = subst (IsQueued c owner) same h.queued;
      }

  pub expire-IsValid :
      (now : ℤ) (s : Scheduler) → IsValid c owner s → IsValid c owner (expire now s).0
  unfolding expire
  expire-IsValid now s h =
      let how = expiring now in
      let s₁ = (stop_each how now (sorted_active s) s).0 in
      let v : IsValid c owner s₁ = stop_each-IsValid how now (sorted_active s) s h in
      let in_time = λ (p : PendingCue). not (is_late now p.cue) in
      record {
        held = v.held;
        queued = record {
          queue = All-keep (IsWaiting owner (rest_of s₁)) in_time s₁.pending v.queued.queue;
          room = omega (arith, length-keep in_time s₁.pending, v.queued.room);
          markers = v.queued.markers;
          rate = v.queued.rate;
          layer_rate = v.queued.layer_rate;
        };
      }

  -- A lease for a current cue that nothing stands in the way of.
  pub occupy-IsValid :
      (cue : PresentationCue) (expires_at : Option ℤ) (now : ℤ) (s : Scheduler)
      → IsValid c owner s
      → All (λ x. conflicts cue x ≡ false) s.active
      → owner cue.cue_id ≡ cue.layer
      → IsCurrent (rest_of s) cue
      → IsValid c owner (start_event cue now (occupy cue expires_at now s)).0
  unfolding start_event occupy
  occupy-IsValid cue expires_at now s h free own current = record {
    held = occupy-IsHeld owner (IsCurrent (rest_of s)) cue expires_at now s h.held free own current;
    queued = h.queued;
  }

  -- Pruned starts of one layer and of all keep the bounds.
  pruned :
      (layer : PresentationLayer) (now : ℤ) (s : Scheduler) (own : List ℤ)
      → IsValid c owner s
      → IsWithinRate (c.layer_rate_limits layer) own
      → (l : PresentationLayer)
      → IsWithinRate (c.layer_rate_limits l) (set_layer layer own s.layer_starts l)
  pruned layer now s own h within l =
      if_cases (IsWithinRate (c.layer_rate_limits l)) (same_layer l layer)
        (λ same.
          subst (λ k. IsWithinRate (c.layer_rate_limits k) own) (sym (same_layer-eq l layer same))
            within)
        (λ _. h.queued.layer_rate l)

  pub within_rate_limits-IsValid :
      (layer : PresentationLayer) (now : ℤ) (s : Scheduler)
      → IsValid c owner s
      → IsValid c owner (within_rate_limits c layer now s).0
  unfolding within_rate_limits
  within_rate_limits-IsValid layer now s h =
      let all = prune c.global_rate_limit now s.global_starts in
      let own = prune (c.layer_rate_limits layer) now (s.layer_starts layer) in
      let rate = prune-IsWithinRate c.global_rate_limit now s.global_starts h.queued.rate in
      let layer_rate =
        prune-IsWithinRate (c.layer_rate_limits layer) now (s.layer_starts layer)
          (h.queued.layer_rate layer) in
      if_cases (λ (r : Scheduler × Bool). IsValid c owner r.0) (is_within c.global_rate_limit all)
        (λ _. record {
          held = h.held;
          queued = record {
            queue = h.queued.queue;
            room = h.queued.room;
            markers = h.queued.markers;
            rate = rate;
            layer_rate = pruned layer now s own h layer_rate;
          };
        })
        (λ _. record {
          held = h.held;
          queued = record {
            queue = h.queued.queue;
            room = h.queued.room;
            markers = h.queued.markers;
            rate = rate;
            layer_rate = h.queued.layer_rate;
          };
        })

  -- A recorded start that both limits allow keeps the bounds.
  pub record_start-IsValid :
      (layer : PresentationLayer) (now : ℤ) (s : Scheduler)
      → IsValid c owner s
      → is_within c.global_rate_limit s.global_starts ≡ true
      → is_within (c.layer_rate_limits layer) (s.layer_starts layer) ≡ true
      → IsValid c owner (record_start c layer now s)
  unfolding record_start
  record_start-IsValid layer now s h all_within own_within =
      let limit = c.layer_rate_limits layer in
      let recorded = record-IsWithinRate limit now (s.layer_starts layer) own_within in
      record {
        held = h.held;
        queued = record {
          queue = h.queued.queue;
          room = h.queued.room;
          markers = h.queued.markers;
          rate = record-IsWithinRate c.global_rate_limit now s.global_starts all_within;
          layer_rate = elim (Bool-cases (is_some limit)) [
            | inl limited ↦
                let longer = s.layer_starts layer ++ now ∷ [] in
                rw limited (
                  pruned layer now s longer h (
                    subst (λ b. IsWithinRate limit (if b then longer else s.layer_starts layer))
                      limited recorded))
            | inr free ↦ rw free h.queued.layer_rate
          ];
        };
      }
