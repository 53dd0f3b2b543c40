-- ===== src/Media/Vad/State.antt =====
-- src/eeveetuber/media/vad.py: the configuration, the events and the state of the energy voice
-- activity detector, and the methods that only read or reset it.
use eeveetuber.Common.{
  ℕ, ◌+◌, ◌-◌, ◌*◌, ◌/◌, Bool, ◌&&◌, Option, none, some, List, [], ◌∷◌, length, ltb, leb,
  if◌then◌else◌, is_some,
}
use eeveetuber.Common.Result.{Result, ok, err}
use eeveetuber.Media.Types.{PcmFormat, PcmFrame, PcmUtterance, UtteranceEndReason, MediaError}

pub record EnergyVadConfig : Type 0 where
  pub speech_start_threshold : ℕ
  pub speech_end_threshold : ℕ
  pub speech_start_frames : ℕ
  pub speech_end_frames : ℕ
  pub pre_roll_frames : ℕ
  pub max_utterance_duration_ms : ℕ
  pub max_utterance_bytes : ℕ

abbrev is_between : ℕ → ℕ → ℕ → Bool
is_between low high n = leb low n && leb n high

-- `EnergyVadConfig.__post_init__`: does the constructor accept the values?
unfoldable pub is_config : EnergyVadConfig → Bool
is_config c =
    is_between 1 32767 c.speech_start_threshold
    && (is_between 1 32767 c.speech_end_threshold
        && (leb 1 c.speech_start_frames
            && (leb 1 c.speech_end_frames
                && (leb 1 c.max_utterance_duration_ms
                    && (leb 2 c.max_utterance_bytes
                        && leb c.speech_end_threshold c.speech_start_threshold)))))

abbrev pub max_utterance_duration_ns : EnergyVadConfig → ℕ
max_utterance_duration_ns c = c.max_utterance_duration_ms * 1000000

pub record VadSpeechStarted : Type 0 where
  pub stream_id : ℕ
  pub utterance_id : ℕ
  pub at_monotonic_ns : ℕ
  pub trigger_sequence : ℕ
  pub pre_roll_frame_count : ℕ

pub record VadSpeechEnded : Type 0 where
  pub stream_id : ℕ
  pub utterance_id : ℕ
  pub at_monotonic_ns : ℕ
  pub reason : UtteranceEndReason
  pub utterance : PcmUtterance

pub data VadEvent : Type 0 where
  started : VadSpeechStarted → VadEvent
  ended : VadSpeechEnded → VadEvent

pub data VadError : Type 0 where
  -- Frames that `_validate_stream_frame` refuses.
  frame_too_large frame_too_long mixed_streams format_changed stale_sequence overlapping : VadError
  -- The `RuntimeError`s of the `_require_…` methods, and `popleft` of an empty deque.
  no_stream no_format no_utterance no_utterance_id no_speech_start : VadError
  no_candidate no_candidate_sequence empty_history : VadError
  media_error : MediaError → VadError

pub record Vad : Type 0 where
  pub stream_id : Option ℕ
  pub format : Option PcmFormat
  pub last_sequence : Option ℕ
  pub last_end_ns : Option ℕ
  pub history : List PcmFrame
  pub history_bytes : ℕ
  pub history_duration_ns : ℕ
  pub candidate_count : ℕ
  pub candidate_bytes : ℕ
  pub candidate_duration_ns : ℕ
  pub candidate_start_ns : Option ℕ
  pub candidate_start_sequence : Option ℕ
  pub active_frames : Option (List PcmFrame)
  pub active_bytes : ℕ
  pub active_duration_ns : ℕ
  pub utterance_id : Option ℕ
  pub speech_started_at_ns : Option ℕ
  pub silence_count : ℕ
  pub silence_started_at_ns : Option ℕ

-- `EnergyVoiceActivityDetector.__init__`
abbrev pub initial : Vad
initial = record {
  stream_id = none;
  format = none;
  last_sequence = none;
  last_end_ns = none;
  history = [];
  history_bytes = 0;
  history_duration_ns = 0;
  candidate_count = 0;
  candidate_bytes = 0;
  candidate_duration_ns = 0;
  candidate_start_ns = none;
  candidate_start_sequence = none;
  active_frames = none;
  active_bytes = 0;
  active_duration_ns = 0;
  utterance_id = none;
  speech_started_at_ns = none;
  silence_count = 0;
  silence_started_at_ns = none;
}

abbrev pub speech_active : Vad → Bool
speech_active s = is_some s.active_frames

abbrev pub buffered_bytes : Vad → ℕ
buffered_bytes s = if speech_active s then s.active_bytes else s.history_bytes

abbrev pub reset_candidate : Vad → Vad
reset_candidate s = record s {
  candidate_count = 0;
  candidate_bytes = 0;
  candidate_duration_ns = 0;
  candidate_start_ns = none;
  candidate_start_sequence = none;
}

-- `_clear_utterance`
abbrev pub clear_utterance : Vad → Vad
clear_utterance s = reset_candidate (record s {
  active_frames = none;
  active_bytes = 0;
  active_duration_ns = 0;
  utterance_id = none;
  speech_started_at_ns = none;
  silence_count = 0;
  silence_started_at_ns = none;
})

abbrev pub clear_stream : Vad → Vad
clear_stream s = record (clear_utterance s) {
  history = [];
  history_bytes = 0;
  history_duration_ns = 0;
  stream_id = none;
  format = none;
  last_sequence = none;
  last_end_ns = none;
}

-- The square of a little-endian signed sample.
abbrev sample_square : ℕ → ℕ → ℕ
sample_square low high =
    let n = low + 256 * high in if ltb n 32768 then n * n else (65536 - n) * (65536 - n)

unfoldable pub square_sum : List ℕ → ℕ
square_sum [] = 0
square_sum (low ∷ []) = 0
square_sum (low ∷ high ∷ rest) = sample_square low high + square_sum rest

-- `_is_above`
unfoldable pub is_above : PcmFrame → ℕ → Bool
unfolding square_sum
is_above frame threshold =
    leb (threshold * threshold * (length frame.pcm / 2)) (square_sum frame.pcm)

-- `_require_…`
unfoldable pub require : {A : Type 0} → Option A → VadError → Result VadError A
require none e = err e
require (some a) e = ok a
