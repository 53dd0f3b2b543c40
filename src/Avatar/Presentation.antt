-- ===== src/Avatar/Presentation.antt =====
-- src/eeveetuber/avatar/presentation.py: cues, leases, events and results.
-- A time is a whole number of ticks of the clock in place of a float, so there is no rounding and
-- no infinity; an identifier is a number. Of a cue, the fields that only the renderer reads (its
-- semantic key, action, intensity, blend, source and fallback) are left out.
use eeveetuber.Common.{ℕ, Bool, true, false, ◌&&◌, Option, none, some, List, ◌==◌}
use eeveetuber.Common.Int.{ℤ}

pub data PresentationLayer : Type 0 where
  affect gesture gaze posture : PresentationLayer

-- `is` of layers.
abbrev pub same_layer : PresentationLayer → PresentationLayer → Bool
same_layer affect affect = true
same_layer gesture gesture = true
same_layer gaze gaze = true
same_layer posture posture = true
same_layer _ _ = false

-- A priority by its integer value; a larger one wins.
pub data CuePriority : Type 0 where
  reactive_idle game_event model interaction_state scripted_show speech_sync operator_override :
      CuePriority

abbrev pub value : CuePriority → ℕ
value reactive_idle = 10
value game_event = 20
value model = 30
value interaction_state = 40
value scripted_show = 50
value speech_sync = 60
value operator_override = 70

pub data AudioAnchor : Type 0 where
  utterance_start segment_start word viseme utterance_end : AudioAnchor

abbrev pub same_anchor : AudioAnchor → AudioAnchor → Bool
same_anchor utterance_start utterance_start = true
same_anchor segment_start segment_start = true
same_anchor word word = true
same_anchor viseme viseme = true
same_anchor utterance_end utterance_end = true
same_anchor _ _ = false

pub record AudioTimelineBinding : Type 0 where
  pub utterance_id : ℕ
  pub anchor : AudioAnchor
  pub marker_id : Option ℕ
  pub offset_s : ℤ

pub record AudioTimelineMarker : Type 0 where
  pub utterance_id : ℕ
  pub generation : ℕ
  pub anchor : AudioAnchor
  pub occurred_at : ℤ
  pub marker_id : Option ℕ

pub record PresentationCue : Type 0 where
  pub cue_id : ℕ
  pub generation : ℕ
  pub layer : PresentationLayer
  pub priority : CuePriority
  pub requested_at : ℤ
  pub not_after : Option ℤ
  pub lease_s : Option ℤ
  pub resources : List ℕ
  pub cooldown_key : Option ℕ
  pub cooldown_s : ℤ
  pub audio_binding : Option AudioTimelineBinding
  pub neutral : Bool
  pub limits_exempt : Bool

pub record ActiveLease : Type 0 where
  pub cue : PresentationCue
  pub started_at : ℤ
  pub expires_at : Option ℤ

pub data PresentationEventKind : Type 0 where
  started stopped : PresentationEventKind

pub data StopReason : Type 0 where
  preempted lease_expired cancelled generation_advanced disconnected adapter_failure : StopReason

pub record PresentationEvent : Type 0 where
  pub sequence : ℕ
  pub kind : PresentationEventKind
  pub cue : PresentationCue
  pub occurred_at : ℤ
  pub reason : Option StopReason
  pub replaced_by : Option ℕ

pub data ScheduleStatus : Type 0 where
  start_accepted pending_audio rejected_stale_generation rejected_future_generation : ScheduleStatus
  rejected_expired rejected_duplicate rejected_priority rejected_cooldown : ScheduleStatus
  rejected_rate_limit rejected_queue_full rejected_disconnected : ScheduleStatus

-- A result without its text for people (`detail`).
pub record ScheduleResult : Type 0 where
  pub status : ScheduleStatus
  pub cue : PresentationCue
  pub events : List PresentationEvent

-- The key of a marker, and of what a cue waits for.
abbrev pub same_option : Option ℕ → Option ℕ → Bool
same_option none none = true
same_option (some a) (some b) = a == b
same_option _ _ = false

pub record AudioKey : Type 0 where
  pub utterance_id : ℕ
  pub anchor : AudioAnchor
  pub marker_id : Option ℕ

abbrev pub marker_key : AudioTimelineMarker → AudioKey
marker_key m = record { utterance_id = m.utterance_id; anchor = m.anchor; marker_id = m.marker_id }

abbrev pub same_key : AudioKey → AudioKey → Bool
same_key a b =
    (a.utterance_id == b.utterance_id)
    && (same_anchor a.anchor b.anchor && same_option a.marker_id b.marker_id)
