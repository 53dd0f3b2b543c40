-- ===== src/Media/Vad/Totality.antt =====
-- One frame through the detector (src/eeveetuber/media/vad.py): once the frame is let in, nothing
-- can fail.
use eeveetuber.Common.{
  ℕ, ◌+◌, ◌≤◌, ◌<◌, ◌≡◌, ◌⊎◌, ap, subst, sym, refl, inl, inr, Option, none, some, List, [], ◌∷◌,
  ◌++◌, arith, Bool-cases, length, All, ltb,
}
use eeveetuber.Common.Result.{Result, ok}
use eeveetuber.Media.Types.{
  PcmFormat, PcmFrame, UtteranceEndReason, max_duration, max_bytes, byte_size, duration_ns,
  end_monotonic_ns,
}
use eeveetuber.Media.Vad.State.{
  EnergyVadConfig, max_utterance_duration_ns, Vad, VadSpeechStarted, VadEvent, VadError, require,
  clear_utterance,
}
use eeveetuber.Media.Vad.{
  count_before, track_candidate, activate, start_utterance, finish_if_limited, confirm_speech,
  process_idle, cut_utterance, finish_if, append_active, process_active,
}
use eeveetuber.Media.Vad.Capture.{IsCapture, IsWithin, IsWithin-captured}
use eeveetuber.Media.Vad.Phases.{
  StartsAt, IsListening, IsSpeaking, IsSoundEvent, Fits-IsBounded, clear-IsListening,
  finish_utterance_lem,
}
use eeveetuber.Media.Vad.Extension.{extend-IsSpeaking}
use eeveetuber.Media.Vad.Steps.{IsNext, idle_frame_lem}

non_empty :
    (xs : List PcmFrame) → 0 < length xs → (x : PcmFrame) × (rest : List PcmFrame) × (xs ≡ x ∷ rest)
non_empty [] h = absurd (omega arith)
non_empty (x ∷ xs) h = (x, xs, refl)

module _ (c : EnergyVadConfig) (stream : ℕ) (format : PcmFormat) (last : Option ℕ × Option ℕ)
    (identify : ℕ → ℕ → ℕ) where
  -- Between two frames: idle with too few loud frames in a row, or within an utterance.
  abbrev pub Resting : ℕ → ℕ → Vad → Type 0
  Resting next at s =
      (IsListening c stream format last next at s × (s.candidate_count < c.speech_start_frames))
      ⊎ IsSpeaking c stream format last next at s

  -- The call returned sound events and left the detector in one of its phases.
  abbrev pub IsDone : ℕ → ℕ → Vad × Result VadError (List VadEvent) → Type 0
  IsDone next at r =
      (events : List VadEvent) × (r.1 ≡ ok events)
      × All (IsSoundEvent c) events
      × Resting next at r.0

  finish_if_limited_lem :
      (next at : ℕ) (st : VadSpeechStarted) (reason : Option UtteranceEndReason) (s : Vad)
      → 0 < c.speech_start_frames
      → IsSpeaking c stream format last next at s
      → IsDone next at (finish_if_limited c identify st reason s)
  unfolding finish_if_limited
  finish_if_limited_lem next at st none s some_frames h = (_, refl, (tt, tt), inr h)
  finish_if_limited_lem next at st (some reason) s some_frames h =
      let (e, same, sound) = finish_utterance_lem c stream format last reason next at s h in
      rw same (
        _,
        refl,
        (tt, (sound, tt)),
        inl (clear-IsListening c stream format last next at next at s h, some_frames),
      )

  activate-IsSpeaking :
      (next at : ℕ) (s : Vad) (g : PcmFrame) (gs : List PcmFrame) (identifier : ℕ)
      (h : IsListening c stream format last next at s)
      → h.candidate ≡ g ∷ gs
      → IsSpeaking c stream format last next at (activate c identifier g.captured_at_monotonic_ns s)
  unfolding activate
  activate-IsSpeaking next at s g gs identifier h e = record {
    stream_known = h.stream_known;
    format_known = h.format_known;
    marked = h.marked;
    frames = h.pre ++ h.candidate;
    active = ap some h.split;
    stored = h.stored;
    bytes = h.bytes;
    duration = h.duration;
    bounded = Fits-IsBounded c (h.pre ++ h.candidate) h.small;
    identifier = identifier;
    identified = refl;
    start = g.captured_at_monotonic_ns;
    start_known = refl;
    within =
        subst (λ l. IsWithin (h.pre ++ l) g.captured_at_monotonic_ns) (sym e)
          (IsWithin-captured stream format h.pre gs g
            (subst (λ l. IsCapture stream format 0 0 (h.pre ++ l)) e h.stored.0));
    silence_after = tt;
    no_history = (refl, refl, refl);
  }

  start_utterance_lem :
      (f : PcmFrame) (own at first : ℕ) (s : Vad)
      → s.stream_id ≡ some own
      → s.candidate_start_ns ≡ some at
      → s.candidate_start_sequence ≡ some first
      → (st : VadSpeechStarted) × (start_utterance c identify f s
          ≡ (activate c (identify own first) at s, ok st))
  unfolding start_utterance require
  start_utterance_lem f own at first s h k l = (
    record {
      stream_id = own;
      utterance_id = identify own first;
      at_monotonic_ns = at;
      trigger_sequence = f.sequence;
      pre_roll_frame_count = count_before first s.history;
    },
    rw (h, k, l) refl,
  )

  confirm_speech_lem :
      (next at : ℕ) (f : PcmFrame) (s : Vad)
      → 0 < c.speech_start_frames
      → IsListening c stream format last next at s
      → c.speech_start_frames ≤ s.candidate_count
      → IsDone next at (confirm_speech c identify f s)
  unfolding confirm_speech
  confirm_speech_lem next at f s some_frames h enough =
      let (g, gs, e) = non_empty h.candidate (omega (arith, h.count)) in
      let starts =
        subst (λ l. StartsAt l s.candidate_start_ns s.candidate_start_sequence) e h.starts in
      let (st, same) =
        start_utterance_lem f stream g.captured_at_monotonic_ns g.sequence s h.stream_known starts.0
          starts.1 in
      rw same (
        finish_if_limited_lem next at st _ _ some_frames
          (activate-IsSpeaking next at s g gs (identify stream g.sequence) h e))

  pub process_idle_lem :
      (next at : ℕ) (f : PcmFrame) (s : Vad)
      → 0 < c.speech_start_frames
      → IsListening c stream format last next at s
      → s.candidate_count < c.speech_start_frames
      → IsNext c stream format last next at f
      → IsDone (f.sequence + 1) (end_monotonic_ns f) (process_idle c identify f s)
  unfolding process_idle
  process_idle_lem next at f s some_frames h few n =
      let (s', same, listening) = idle_frame_lem c stream format last next at f s h few n in
      let after = track_candidate c f s' in
      elim (Bool-cases (ltb after.candidate_count c.speech_start_frames)) [
        | inl short ↦ rw (same, short) (_, refl, tt, inl (listening, ground arith))
        | inr enough ↦
            rw (same, enough) (confirm_speech_lem _ _ f after some_frames listening (ground arith))
      ]

  finish_if_lem :
      (next at : ℕ) (reason : Option UtteranceEndReason) (s : Vad)
      → 0 < c.speech_start_frames
      → IsSpeaking c stream format last next at s
      → IsDone next at (finish_if c identify reason s)
  unfolding finish_if
  finish_if_lem next at none s some_frames h = (_, refl, tt, inr h)
  finish_if_lem next at (some reason) s some_frames h =
      let (e, same, sound) = finish_utterance_lem c stream format last reason next at s h in
      rw same (
        _,
        refl,
        (sound, tt),
        inl (clear-IsListening c stream format last next at next at s h, some_frames),
      )

  cut_utterance_lem :
      (next at : ℕ) (reason : UtteranceEndReason) (f : PcmFrame) (s : Vad)
      → 0 < c.speech_start_frames
      → IsSpeaking c stream format last next at s
      → IsNext c stream format last next at f
      → IsDone (f.sequence + 1) (end_monotonic_ns f) (cut_utterance c identify reason f s)
  unfolding cut_utterance
  cut_utterance_lem next at reason f s some_frames h n =
      let (e, same, sound) = finish_utterance_lem c stream format last reason next at s h in
      let (events, returned, all_sound, resting) =
        process_idle_lem next at f (clear_utterance s) some_frames
          (clear-IsListening c stream format last next at next at s h) some_frames n in
      rw (same, returned) (_, refl, (sound, all_sound), resting)

  append_active_lem :
      (next at : ℕ) (f : PcmFrame) (s : Vad)
      → 0 < c.speech_start_frames
      → IsSpeaking c stream format last next at s
      → IsNext c stream format last next at f
      → s.active_bytes + byte_size f ≤ c.max_utterance_bytes
      → s.active_duration_ns + duration_ns f ≤ max_utterance_duration_ns c
      → IsDone (f.sequence + 1) (end_monotonic_ns f) (append_active c identify f s)
  unfolding append_active require
  append_active_lem next at f s some_frames h n bytes time = rw h.active (
      finish_if_lem _ _ _ _ some_frames
        (extend-IsSpeaking c stream format last identify next at f s h n bytes time))

  pub process_active_lem :
      (next at : ℕ) (f : PcmFrame) (s : Vad)
      → 0 < c.speech_start_frames
      → IsSpeaking c stream format last next at s
      → IsNext c stream format last next at f
      → IsDone (f.sequence + 1) (end_monotonic_ns f) (process_active c identify f s)
  unfolding process_active
  process_active_lem next at f s some_frames h n =
      elim (Bool-cases (ltb c.max_utterance_bytes (s.active_bytes + byte_size f))) [
        | inl large ↦ rw large (cut_utterance_lem next at max_bytes f s some_frames h n)
        | inr small ↦
            elim (Bool-cases
              (ltb (max_utterance_duration_ns c) (s.active_duration_ns + duration_ns f))) [
                | inl long ↦
                    rw (small, long) (cut_utterance_lem next at max_duration f s some_frames h n)
                | inr short ↦
                    rw (small, short)
                      (append_active_lem next at f s some_frames h n (ground arith) (ground arith))
              ]
      ]
