-- ===== src/Media/Vad/Phases.antt =====
-- The two phases of the detector (src/eeveetuber/media/vad.py) within one stream, and how an
-- utterance ends.
use eeveetuber.Common.{ℕ, ◌≤◌, ◌≡◌, refl, Option, none, some, List, [], ◌∷◌, ◌++◌, arith, length}
use eeveetuber.Common.Result.{ok}
use eeveetuber.Media.Types.{
  PcmFormat, PcmFrame, PcmUtterance, UtteranceEndReason, silence, captured_end, check_utterance,
}
use eeveetuber.Media.Vad.State.{
  EnergyVadConfig, max_utterance_duration_ns, Vad, VadSpeechEnded, VadEvent, started, ended,
  clear_utterance, require,
}
use eeveetuber.Media.Vad.{finish_utterance, speech_end, exceeds}
use eeveetuber.Media.Vad.Capture.{Stored, IsWithin, check_utterance_lem, Stored-empty}
use eeveetuber.Media.Vad.Retention.{total_bytes, total_ns, Fits}

-- The candidate's recorded start is that of its first frame.
abbrev pub StartsAt : List PcmFrame → Option ℕ → Option ℕ → Type 0
StartsAt [] at sequence = Unit
StartsAt (f ∷ fs) at sequence =
    (at ≡ some f.captured_at_monotonic_ns) × (sequence ≡ some f.sequence)

-- A silence that may yet end the utterance began after the speech.
abbrev pub SilenceAfter : ℕ → List PcmFrame → Option ℕ → Type 0
SilenceAfter start frames none = Unit
SilenceAfter start frames (some t) = (start ≤ t) × (t ≤ captured_end 0 frames)

module _ (c : EnergyVadConfig) where
  -- Within both limits of an utterance.
  abbrev pub IsBounded : List PcmFrame → Type 0
  IsBounded fs =
      (total_bytes fs ≤ c.max_utterance_bytes) × (total_ns fs ≤ max_utterance_duration_ns c)

  -- The utterance passes its constructor's checks and both limits.
  abbrev pub IsSound : VadSpeechEnded → Type 0
  IsSound e = (check_utterance e.utterance ≡ ok tt) × IsBounded e.utterance.frames

  abbrev pub IsSoundEvent : VadEvent → Type 0
  IsSoundEvent (started e) = Unit
  IsSoundEvent (ended e) = IsSound e

  pub Fits-IsBounded : (fs : List PcmFrame) → Fits c fs → IsBounded fs
  unfolding exceeds
  Fits-IsBounded fs h = (ground arith, ground arith)

  -- `last` is what the detector remembers of the last frame: its number and its end.
  module _ (stream : ℕ) (format : PcmFormat) (last : Option ℕ × Option ℕ) where
    -- Idle: the history is a bounded capture, and the candidate is its end.
    pub record IsListening (next at : ℕ) (s : Vad) : Type 0 where
      pub stream_known : s.stream_id ≡ some stream
      pub format_known : s.format ≡ some format
      pub marked : (s.last_sequence ≡ last.0) × (s.last_end_ns ≡ last.1)
      pub inactive : s.active_frames ≡ none
      pub pre : List PcmFrame
      pub candidate : List PcmFrame
      pub split : s.history ≡ pre ++ candidate
      pub stored : Stored stream format next at (pre ++ candidate)
      pub bytes : s.history_bytes ≡ total_bytes (pre ++ candidate)
      pub duration : s.history_duration_ns ≡ total_ns (pre ++ candidate)
      pub small : Fits c (pre ++ candidate)
      pub count : s.candidate_count ≡ length candidate
      pub candidate_size : s.candidate_bytes ≡ total_bytes candidate
      pub candidate_time : s.candidate_duration_ns ≡ total_ns candidate
      pub starts : StartsAt candidate s.candidate_start_ns s.candidate_start_sequence

    -- Active: the utterance is a bounded capture that holds its start, and the history is empty.
    pub record IsSpeaking (next at : ℕ) (s : Vad) : Type 0 where
      pub stream_known : s.stream_id ≡ some stream
      pub format_known : s.format ≡ some format
      pub marked : (s.last_sequence ≡ last.0) × (s.last_end_ns ≡ last.1)
      pub frames : List PcmFrame
      pub active : s.active_frames ≡ some frames
      pub stored : Stored stream format next at frames
      pub bytes : s.active_bytes ≡ total_bytes frames
      pub duration : s.active_duration_ns ≡ total_ns frames
      pub bounded : IsBounded frames
      pub identifier : ℕ
      pub identified : s.utterance_id ≡ some identifier
      pub start : ℕ
      pub start_known : s.speech_started_at_ns ≡ some start
      pub within : IsWithin frames start
      pub silence_after : SilenceAfter start frames s.silence_started_at_ns
      pub no_history : (s.history ≡ []) × (s.history_bytes ≡ 0) × (s.history_duration_ns ≡ 0)

    pub clear-IsListening :
        (next at next' at' : ℕ) (s : Vad)
        → IsSpeaking next at s
        → IsListening next' at' (clear_utterance s)
    unfolding exceeds
    clear-IsListening next at next' at' s h = record {
      stream_known = h.stream_known;
      format_known = h.format_known;
      marked = h.marked;
      inactive = refl;
      pre = [];
      candidate = [];
      split = h.no_history.0;
      stored = Stored-empty stream format next' at';
      bytes = h.no_history.1;
      duration = h.no_history.2;
      small = ground arith;
      count = refl;
      candidate_size = refl;
      candidate_time = refl;
      starts = tt;
    }

    speech_end_lem :
        (reason : UtteranceEndReason) (start : ℕ) (silent : Option ℕ) (fs : List PcmFrame)
        → start ≤ captured_end 0 fs
        → SilenceAfter start fs silent
        → (start ≤ speech_end reason silent fs) × (speech_end reason silent fs ≤ captured_end 0 fs)
    unfolding speech_end
    speech_end_lem silence start (some t) fs h k = k
    speech_end_lem silence start none fs h k = (h, omega arith)
    speech_end_lem _ start silent fs h k = (h, omega arith)

    pub within_end : (fs : List PcmFrame) (t : ℕ) → IsWithin fs t → t ≤ captured_end 0 fs
    within_end [] t h = absurd h
    within_end (f ∷ fs) t h = h.1

    -- Ending an utterance never fails, makes a sound event, and leaves an idle detector.
    pub finish_utterance_lem :
        (reason : UtteranceEndReason) (next at : ℕ) (s : Vad)
        → IsSpeaking next at s
        → (e : VadSpeechEnded) × (finish_utterance c reason s ≡ (clear_utterance s, ok e))
          × IsSound e
    unfolding finish_utterance require
    finish_utterance_lem reason next at s h =
        let finish = speech_end reason s.silence_started_at_ns h.frames in
        let (after, before) =
          speech_end_lem reason h.start s.silence_started_at_ns h.frames
            (within_end h.frames h.start h.within) h.silence_after in
        let utterance : PcmUtterance = record {
          utterance_id = h.identifier;
          stream_id = stream;
          format = format;
          frames = h.frames;
          speech_started_at_monotonic_ns = h.start;
          speech_ended_at_monotonic_ns = finish;
          end_reason = reason;
        } in
        let valid = check_utterance_lem utterance h.stored.0 h.within after before in
        (
          record {
            stream_id = stream;
            utterance_id = h.identifier;
            at_monotonic_ns = finish;
            reason = reason;
            utterance = utterance;
          },
          rw (h.active, h.stream_known, h.format_known, h.identified, h.start_known, valid) refl,
          (valid, h.bounded),
        )
