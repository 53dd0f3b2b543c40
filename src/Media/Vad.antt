-- ===== src/Media/Vad.antt =====
-- src/eeveetuber/media/vad.py: the energy voice activity detector.
-- A method is an `Action` on the detector's state: an error leaves what was written before it. The
-- derivation of an utterance's identifier (`uuid5`) is a parameter.
pub mod State
pub mod Capture
pub mod Retention
pub mod Phases
pub mod Steps
pub mod Extension
pub mod Totality
pub mod Validation
pub mod Runs
pub mod Life
use eeveetuber.Common.{
  ℕ, ◌+◌, ◌-◌, ◌*◌, ◌<◌, Bool, true, false, not, ◌&&◌, ◌||◌, Option, none, some, List, [], ◌∷◌,
  ◌++◌, length, ltb, leb, ◌==◌, if◌then◌else◌,
}
use eeveetuber.Common.Result.{Result, ok, err}
use eeveetuber.Common.Action.{
  Action, ◌>>=◌, ◌>>◌, pure, gets, modify, lift, raise_if, map_error, continue,
}
use eeveetuber.Media.Types.{
  PcmFormat, PcmFrame, PcmUtterance, UtteranceEndReason, silence, max_duration, max_bytes,
  stream_ended, MediaError, same_format, byte_size, duration_ns, end_monotonic_ns, check_utterance,
  captured_end,
}
use eeveetuber.Media.Vad.State.{
  EnergyVadConfig, max_utterance_duration_ns, VadSpeechStarted, VadSpeechEnded, VadEvent, started,
  ended, VadError, Vad, speech_active, reset_candidate, clear_utterance, clear_stream, is_above,
  require, frame_too_large, frame_too_long, mixed_streams, format_changed, stale_sequence,
  overlapping, no_stream, no_format, no_utterance, no_utterance_id, no_speech_start, no_candidate,
  no_candidate_sequence, empty_history, media_error,
}

-- `self._format` is not the frame's; there is none before the first frame.
abbrev pub differs : Option PcmFormat → PcmFormat → Bool
differs none format = true
differs (some known) format = not (same_format format known)

-- The first frame sets the stream's identity and format, and a later one must have them.
unfoldable pub adopt_stream : Option ℕ → PcmFrame → Action Vad VadError (Unit {0})
adopt_stream none frame =
    modify (λ s. record s { stream_id = some frame.stream_id; format = some frame.format })
adopt_stream (some own) frame = do
  s ← gets (λ s. s)
  raise_if (not (frame.stream_id == own)) mixed_streams
  raise_if (differs s.format frame.format) format_changed

-- Is there a mark, and does the value fail `allowed` against it?
abbrev pub violates : (ℕ → Bool) → Option ℕ → Bool
violates bad none = false
violates bad (some mark) = bad mark

-- `sum(frame.sequence < start for frame in history)`
unfoldable pub count_before : ℕ → List PcmFrame → ℕ
count_before start [] = 0
count_before start (f ∷ fs) =
    let rest = count_before start fs in if ltb f.sequence start then rest + 1 else rest

abbrev last_end : List PcmFrame → ℕ
last_end fs = captured_end 0 fs

-- The end of speech: the start of the silence that ended it, or the end of the last frame.
unfoldable pub speech_end : UtteranceEndReason → Option ℕ → List PcmFrame → ℕ
speech_end silence (some at) frames = at
speech_end _ _ frames = last_end frames

module _ (c : EnergyVadConfig) where
  unfoldable pub validate_stream_frame : PcmFrame → Action Vad VadError (Unit {0})
  unfolding adopt_stream
  validate_stream_frame frame = do
    raise_if (ltb c.max_utterance_bytes (byte_size frame)) frame_too_large
    raise_if (ltb (max_utterance_duration_ns c) (duration_ns frame)) frame_too_long
    known ← gets (λ s. s.stream_id)
    adopt_stream known frame
    s ← gets (λ s. s)
    raise_if (violates (λ last. leb frame.sequence last) s.last_sequence) stale_sequence
    raise_if (violates (λ last. ltb frame.captured_at_monotonic_ns last) s.last_end_ns) overlapping

  -- The test of the loop in `_remember_idle_frame`.
  unfoldable pub exceeds : List PcmFrame → ℕ → ℕ → Bool
  exceeds frames bytes duration =
      ltb (c.pre_roll_frames + c.speech_start_frames) (length frames)
      || (ltb c.max_utterance_bytes bytes || ltb (max_utterance_duration_ns c) duration)

  -- The loop of `_remember_idle_frame`: frames leave at the front; `none` is `popleft` of nothing.
  unfoldable pub trim : List PcmFrame → ℕ → ℕ → Option (List PcmFrame × ℕ × ℕ)
  unfolding exceeds
  trim [] bytes duration = if exceeds [] bytes duration then none else some ([], bytes, duration)
  trim (f ∷ fs) bytes duration =
      let rest = trim fs (bytes - byte_size f) (duration - duration_ns f) in
      if exceeds (f ∷ fs) bytes duration then rest else some (f ∷ fs, bytes, duration)

  unfoldable pub remember_idle_frame : PcmFrame → Action Vad VadError (Unit {0})
  unfolding trim
  remember_idle_frame frame = do
    s ← gets (λ s. s)
    let bytes = s.history_bytes + byte_size frame
    let duration = s.history_duration_ns + duration_ns frame
    (frames, bytes', duration') ←
        lift (require (trim (s.history ++ frame ∷ []) bytes duration) empty_history)
    modify (λ s. record s {
      history = frames;
      history_bytes = bytes';
      history_duration_ns = duration';
    })

  -- The candidate's update for one idle frame.
  unfoldable pub extend_candidate : PcmFrame → Vad → Vad
  extend_candidate frame s =
      let bytes = s.candidate_bytes + byte_size frame in
      let duration = s.candidate_duration_ns + duration_ns frame in
      let s₁ =
        if ltb c.max_utterance_bytes bytes || ltb (max_utterance_duration_ns c) duration
        then reset_candidate s
        else s in
      let fresh = s₁.candidate_count == 0 in
      record s₁ {
        candidate_start_ns =
            if fresh then some frame.captured_at_monotonic_ns else s₁.candidate_start_ns;
        candidate_start_sequence =
            if fresh then some frame.sequence else s₁.candidate_start_sequence;
        candidate_count = s₁.candidate_count + 1;
        candidate_bytes = s₁.candidate_bytes + byte_size frame;
        candidate_duration_ns = s₁.candidate_duration_ns + duration_ns frame;
      }

  unfoldable pub track_candidate : PcmFrame → Vad → Vad
  unfolding extend_candidate
  track_candidate frame s =
      if is_above frame c.speech_start_threshold
      then extend_candidate frame s
      else reset_candidate s

  unfoldable pub reached_limit_reason : Vad → Option UtteranceEndReason
  reached_limit_reason s =
      if leb (max_utterance_duration_ns c) s.active_duration_ns
      then some max_duration
      else (if leb c.max_utterance_bytes s.active_bytes then some max_bytes else none)

  -- The history becomes the utterance.
  unfoldable pub activate : ℕ → ℕ → Vad → Vad
  activate identifier start s = record (reset_candidate s) {
    active_frames = some s.history;
    active_bytes = s.history_bytes;
    active_duration_ns = s.history_duration_ns;
    utterance_id = some identifier;
    speech_started_at_ns = some start;
    history = [];
    history_bytes = 0;
    history_duration_ns = 0;
    silence_count = 0;
    silence_started_at_ns = none;
  }

  unfoldable pub finish_utterance : UtteranceEndReason → Action Vad VadError VadSpeechEnded
  finish_utterance reason = do
    s ← gets (λ s. s)
    frames ← lift (require s.active_frames no_utterance)
    stream ← lift (require s.stream_id no_stream)
    pcm_format ← lift (require s.format no_format)
    identifier ← lift (require s.utterance_id no_utterance_id)
    start ← lift (require s.speech_started_at_ns no_speech_start)
    let at = speech_end reason s.silence_started_at_ns frames
    let utterance : PcmUtterance = record {
      utterance_id = identifier;
      stream_id = stream;
      format = pcm_format;
      frames = frames;
      speech_started_at_monotonic_ns = start;
      speech_ended_at_monotonic_ns = at;
      end_reason = reason;
    }
    lift (map_error media_error (check_utterance utterance))
    modify clear_utterance
    pure (record {
      stream_id = stream;
      utterance_id = identifier;
      at_monotonic_ns = at;
      reason = reason;
      utterance = utterance;
    })

  module _ (speech_identifier : ℕ → ℕ → ℕ) where
    -- `_start_utterance`; `speech_identifier` is `uuid5` of the stream and the first sequence.
    unfoldable pub start_utterance : PcmFrame → Action Vad VadError VadSpeechStarted
    unfolding count_before activate
    start_utterance trigger = do
      s ← gets (λ s. s)
      stream ← lift (require s.stream_id no_stream)
      start ← lift (require s.candidate_start_ns no_candidate)
      first ← lift (require s.candidate_start_sequence no_candidate_sequence)
      modify (activate (speech_identifier stream first) start)
      pure (record {
        stream_id = stream;
        utterance_id = speech_identifier stream first;
        at_monotonic_ns = start;
        trigger_sequence = trigger.sequence;
        pre_roll_frame_count = count_before first s.history;
      })

    -- `(started,)`, or both events where a limit is reached already.
    unfoldable pub finish_if_limited :
        VadSpeechStarted → Option UtteranceEndReason → Action Vad VadError (List VadEvent)
    unfolding finish_utterance
    finish_if_limited s none = pure (started s ∷ [])
    finish_if_limited s (some reason) = do
      e ← finish_utterance reason
      pure (started s ∷ ended e ∷ [])

    unfoldable pub confirm_speech : PcmFrame → Action Vad VadError (List VadEvent)
    unfolding start_utterance finish_if_limited reached_limit_reason
    confirm_speech frame = do
      first ← start_utterance frame
      reason ← gets (λ s. reached_limit_reason s)
      finish_if_limited first reason

    unfoldable pub process_idle : PcmFrame → Action Vad VadError (List VadEvent)
    unfolding remember_idle_frame track_candidate confirm_speech
    process_idle frame = do
      remember_idle_frame frame
      modify (track_candidate frame)
      count ← gets (λ s. s.candidate_count)
      if ltb count c.speech_start_frames then pure [] else confirm_speech frame

    -- A frame that does not fit ends the utterance and is the first idle one.
    unfoldable pub cut_utterance :
        UtteranceEndReason → PcmFrame → Action Vad VadError (List VadEvent)
    unfolding finish_utterance process_idle
    cut_utterance reason frame = do
      e ← finish_utterance reason
      events ← process_idle frame
      pure (ended e ∷ events)

    -- The frame joins the utterance, and the count of silent frames is brought up to date.
    unfoldable pub extend_utterance : PcmFrame → List PcmFrame → Vad → Vad
    extend_utterance frame frames s =
        let s₁ : Vad = record s {
          active_frames = some (frames ++ frame ∷ []);
          active_bytes = s.active_bytes + byte_size frame;
          active_duration_ns = s.active_duration_ns + duration_ns frame;
        } in
        if is_above frame c.speech_end_threshold
        then record s₁ { silence_count = 0; silence_started_at_ns = none }
        else record s₁ {
          silence_started_at_ns =
              if s₁.silence_count == 0
              then some frame.captured_at_monotonic_ns
              else s₁.silence_started_at_ns;
          silence_count = s₁.silence_count + 1;
        }

    -- Why the utterance ends now, if it does.
    unfoldable pub end_reason : Vad → Option UtteranceEndReason
    unfolding reached_limit_reason
    end_reason s = elim (reached_limit_reason s) [
      | some reason ↦ some reason
      | none ↦ if leb c.speech_end_frames s.silence_count then some silence else none
    ]

    unfoldable pub finish_if : Option UtteranceEndReason → Action Vad VadError (List VadEvent)
    unfolding finish_utterance
    finish_if none = pure []
    finish_if (some reason) = do e ← finish_utterance reason; pure (ended e ∷ [])

    unfoldable pub append_active : PcmFrame → Action Vad VadError (List VadEvent)
    unfolding extend_utterance end_reason finish_if
    append_active frame = do
      s ← gets (λ s. s)
      frames ← lift (require s.active_frames no_utterance)
      modify (extend_utterance frame frames)
      reason ← gets (λ s. end_reason s)
      finish_if reason

    unfoldable pub process_active : PcmFrame → Action Vad VadError (List VadEvent)
    unfolding cut_utterance append_active
    process_active frame = do
      s ← gets (λ s. s)
      if ltb c.max_utterance_bytes (s.active_bytes + byte_size frame)
          then cut_utterance max_bytes frame
          else (if ltb (max_utterance_duration_ns c) (s.active_duration_ns + duration_ns frame)
              then cut_utterance max_duration frame
              else append_active frame)

    unfoldable pub process : PcmFrame → Action Vad VadError (List VadEvent)
    unfolding validate_stream_frame process_active process_idle
    process frame = do
      validate_stream_frame frame
      modify (λ s. record s {
        last_sequence = some frame.sequence;
        last_end_ns = some (end_monotonic_ns frame);
      })
      active ← gets speech_active
      if active then process_active frame else process_idle frame

    unfoldable pub finish_stream : Action Vad VadError (Option VadSpeechEnded)
    unfolding finish_utterance
    finish_stream = do
      active ← gets speech_active
      event ← if active then (finish_utterance stream_ended >>= λ e. pure (some e)) else pure none
      modify clear_stream
      pure event
