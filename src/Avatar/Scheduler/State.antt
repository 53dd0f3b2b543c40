-- ===== src/Avatar/Scheduler/State.antt =====
-- The state of src/eeveetuber/avatar/scheduler.py, and the helpers that only read it or keep its
-- dictionaries. A dictionary is a list in insertion order with one entry for each key; a dictionary
-- over the four layers is a function. The clock's reading is an argument of each call.
use eeveetuber.Common.{
  ℕ, Bool, true, false, not, ◌&&◌, ◌||◌, Option, none, some, List, [], ◌∷◌, length, ltb, ◌==◌,
  if◌then◌else◌, keep, any, sort_by,
}
use eeveetuber.Common.Int.{ℤ, ◌-ℤ◌, ltb_ℤ, leb_ℤ, eqb_ℤ}
use eeveetuber.Avatar.Presentation.{
  PresentationLayer, affect, gesture, gaze, posture, same_layer, value, AudioTimelineMarker,
  PresentationCue, ActiveLease, AudioKey, marker_key, same_key, same_option,
}

pub record RateLimitPolicy : Type 0 where
  pub max_starts : ℕ
  pub window_s : ℤ

-- What `SchedulerPolicy` and the constructor's arguments fix.
pub record Config : Type 0 where
  pub global_rate_limit : Option RateLimitPolicy
  pub layer_rate_limits : PresentationLayer → Option RateLimitPolicy
  pub max_pending : ℕ
  pub max_audio_markers : ℕ
  pub neutral_factory : Option (PresentationLayer → ℕ → ℤ → PresentationCue)

pub record PendingCue : Type 0 where
  pub cue : PresentationCue
  pub sequence : ℕ
  pub due_at : Option ℤ

pub record Scheduler : Type 0 where
  pub generation : ℕ
  pub connected : Bool
  pub active : List ActiveLease
  pub active_by_layer : PresentationLayer → Option ℕ
  pub pending : List PendingCue
  pub audio_markers : List AudioTimelineMarker
  pub cooldown_until : List (ℕ × ℤ)
  pub global_starts : List ℤ
  pub layer_starts : PresentationLayer → List ℤ
  pub needs_neutral : PresentationLayer → Bool
  pub sequence : ℕ

-- The `ValueError`s: `neutral_factory returned an invalid neutral cue`, `generation cannot move
-- backwards`, and `disconnect reason must describe adapter availability`.
pub data SchedulerError : Type 0 where
  invalid_neutral generation_backwards bad_reason : SchedulerError

-- `PresentationScheduler.__init__`
abbrev pub initial : ℕ → Scheduler
initial generation = record {
  generation = generation;
  connected = true;
  active = [];
  active_by_layer = λ _. none;
  pending = [];
  audio_markers = [];
  cooldown_until = [];
  global_starts = [];
  layer_starts = λ _. [];
  needs_neutral = λ _. false;
  sequence = 0;
}

-- Assignment to one layer's entry.
abbrev pub set_layer {ℓ} :
    {A : Type ℓ} → PresentationLayer → A → (PresentationLayer → A) → PresentationLayer → A
set_layer layer new_value f l = if same_layer l layer then new_value else f l

abbrev pub has_id : ℕ → ActiveLease → Bool
has_id id x = x.cue.cue_id == id

abbrev pub is_pending : ℕ → PendingCue → Bool
is_pending id p = p.cue.cue_id == id

unfoldable pub find_lease : ℕ → List ActiveLease → Option ActiveLease
find_lease id [] = none
find_lease id (x ∷ xs) = if has_id id x then some x else find_lease id xs

-- `self._active[cue.cue_id] = lease`: an entry of the same key is overwritten in its place.
unfoldable pub set_lease : ActiveLease → List ActiveLease → List ActiveLease
set_lease new_lease [] = new_lease ∷ []
set_lease new_lease (x ∷ xs) =
    if has_id new_lease.cue.cue_id x then new_lease ∷ xs else x ∷ set_lease new_lease xs

-- The order of `PresentationLayer` values as strings: affect, gaze, gesture, posture.
abbrev pub layer_rank : PresentationLayer → ℕ
layer_rank affect = 0
layer_rank gaze = 1
layer_rank gesture = 2
layer_rank posture = 3

abbrev pub sorted_layers : List PresentationLayer
sorted_layers = affect ∷ gaze ∷ gesture ∷ posture ∷ []

-- `(layer.value, cue_id)`
abbrev pub before_by_layer : ActiveLease → ActiveLease → Bool
before_by_layer a b =
    ltb (layer_rank a.cue.layer) (layer_rank b.cue.layer)
    || ((layer_rank a.cue.layer == layer_rank b.cue.layer) && ltb a.cue.cue_id b.cue.cue_id)

unfoldable pub sorted_active : Scheduler → List ActiveLease
sorted_active s = sort_by before_by_layer s.active

-- `bool(a.intersection(b))`
abbrev pub intersects : List ℕ → List ℕ → Bool
intersects a b = any (λ r. any (λ q. r == q) b) a

-- Does the lease stand in the cue's way?
abbrev pub conflicts : PresentationCue → ActiveLease → Bool
conflicts cue x = same_layer x.cue.layer cue.layer || intersects x.cue.resources cue.resources

-- `(-priority, started_at, cue_id)`
abbrev pub before_by_priority : ActiveLease → ActiveLease → Bool
before_by_priority a b =
    ltb (value b.cue.priority) (value a.cue.priority)
    || ((value a.cue.priority == value b.cue.priority)
        && (ltb_ℤ a.started_at b.started_at
            || (eqb_ℤ a.started_at b.started_at && ltb a.cue.cue_id b.cue.cue_id)))

-- `_conflicting_leases`
unfoldable pub conflicting_leases : PresentationCue → Scheduler → List ActiveLease
conflicting_leases cue s = sort_by before_by_priority (keep (conflicts cue) s.active)

-- `_remove_active`
unfoldable pub remove_active : ℕ → Scheduler → Scheduler
remove_active id s = elim (find_lease id s.active) [
  | none ↦ s
  | some x ↦ record s {
    active = keep (λ y. not (has_id id y)) s.active;
    active_by_layer =
        if same_option (s.active_by_layer x.cue.layer) (some id)
        then set_layer x.cue.layer none s.active_by_layer
        else s.active_by_layer;
  }
]

-- `_prune_window`
unfoldable pub prune_window : List ℤ → ℤ → ℤ → List ℤ
prune_window [] now window = []
prune_window (t ∷ ts) now window =
    let rest = prune_window ts now window in if leb_ℤ t (now -ℤ window) then rest else t ∷ ts

-- `now > cue.not_after`, where there is a bound.
abbrev pub is_late : ℤ → PresentationCue → Bool
is_late now cue = elim cue.not_after [ none ↦ false | some t ↦ ltb_ℤ t now ]

-- `_audio_key(cue) == key`, false for a cue without a binding.
abbrev pub waits_for : AudioKey → PresentationCue → Bool
waits_for key cue = elim cue.audio_binding [
  | none ↦ false
  | some b ↦
      same_key
        (record { utterance_id = b.utterance_id; anchor = b.anchor; marker_id = b.marker_id }) key
]

-- `self._audio_markers.get(key)`
unfoldable pub find_marker : PresentationCue → List AudioTimelineMarker → Option AudioTimelineMarker
find_marker cue [] = none
find_marker cue (m ∷ ms) = if waits_for (marker_key m) cue then some m else find_marker cue ms

-- `self._cooldown_until.get(key, -inf)` and the comparison with it.
unfoldable pub is_cooling : ℤ → ℕ → List (ℕ × ℤ) → Bool
is_cooling now key [] = false
is_cooling now key ((k, until) ∷ rest) =
    if k == key then ltb_ℤ now until else is_cooling now key rest

unfoldable pub set_cooldown : ℕ → ℤ → List (ℕ × ℤ) → List (ℕ × ℤ)
set_cooldown key until [] = (key, until) ∷ []
set_cooldown key until ((k, u) ∷ rest) =
    if k == key then (key, until) ∷ rest else (k, u) ∷ set_cooldown key until rest

-- The loop of `notify_audio` that drops the oldest markers.
unfoldable pub evict_oldest : ℕ → List AudioTimelineMarker → List AudioTimelineMarker
evict_oldest limit [] = []
evict_oldest limit (m ∷ ms) =
    let rest = evict_oldest limit ms in if ltb limit (length (m ∷ ms)) then rest else m ∷ ms
