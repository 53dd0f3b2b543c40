-- ===== src/Media/Vad/Extension.antt =====
-- A frame that joins the utterance (src/eeveetuber/media/vad.py, `_process_active`): the utterance
-- stays a bounded capture that holds its start and its silence.
use eeveetuber.Common.{
  ℕ, ◌+◌, ◌≤◌, ◌≡◌, refl, inl, inr, Option, none, some, List, [], ◌∷◌, ◌++◌, arith, Bool-cases,
  sum_of-append, ◌==◌,
}
use eeveetuber.Media.Types.{
  PcmFormat, PcmFrame, captured_end, byte_size, duration_ns, end_monotonic_ns,
}
use eeveetuber.Media.Vad.State.{EnergyVadConfig, max_utterance_duration_ns, Vad, is_above}
use eeveetuber.Media.Vad.{extend_utterance}
use eeveetuber.Media.Vad.Capture.{Stored-append, IsWithin, captured_end-append}
use eeveetuber.Media.Vad.Retention.{total_bytes, total_ns}
use eeveetuber.Media.Vad.Phases.{SilenceAfter, IsSpeaking, within_end}
use eeveetuber.Media.Vad.Steps.{IsNext}

module _ (c : EnergyVadConfig) (stream : ℕ) (format : PcmFormat) (last : Option ℕ × Option ℕ)
    (identify : ℕ → ℕ → ℕ) where
  IsWithin-append :
      (next at start : ℕ) (fs : List PcmFrame) (f : PcmFrame)
      → IsWithin fs start
      → captured_end 0 fs ≤ f.captured_at_monotonic_ns
      → IsWithin (fs ++ f ∷ []) start
  IsWithin-append next at start [] f h k = absurd h
  IsWithin-append next at start (g ∷ gs) f (low, high) k =
      (low, omega (arith, captured_end-append 0 (g ∷ gs) f))

  silence_append :
      (start : ℕ) (fs : List PcmFrame) (f : PcmFrame) (silent : Option ℕ)
      → captured_end 0 fs ≤ f.captured_at_monotonic_ns
      → SilenceAfter start fs silent
      → SilenceAfter start (fs ++ f ∷ []) silent
  silence_append start fs f none k h = tt
  silence_append start fs f (some t) k h = (h.0, omega (arith, captured_end-append 0 fs f, h.1))

  grown-IsSpeaking :
      (next at : ℕ) (f : PcmFrame) (s : Vad) (h : IsSpeaking c stream format last next at s)
      (silent : Option ℕ) (count : ℕ)
      → IsNext c stream format last next at f
      → s.active_bytes + byte_size f ≤ c.max_utterance_bytes
      → s.active_duration_ns + duration_ns f ≤ max_utterance_duration_ns c
      → SilenceAfter h.start (h.frames ++ f ∷ []) silent
      → IsSpeaking c stream format last (f.sequence + 1) (end_monotonic_ns f) (record s {
        active_frames = some (h.frames ++ f ∷ []);
        active_bytes = s.active_bytes + byte_size f;
        active_duration_ns = s.active_duration_ns + duration_ns f;
        silence_count = count;
        silence_started_at_ns = silent;
      })
  grown-IsSpeaking next at f s h silent count n bytes time after =
      let size : s.active_bytes + byte_size f ≡ total_bytes (h.frames ++ f ∷ []) =
        omega (arith, h.bytes, sum_of-append byte_size h.frames (f ∷ [])) in
      let length : s.active_duration_ns + duration_ns f ≡ total_ns (h.frames ++ f ∷ []) =
        omega (arith, h.duration, sum_of-append duration_ns h.frames (f ∷ [])) in
      record {
        stream_known = h.stream_known;
        format_known = h.format_known;
        marked = h.marked;
        frames = h.frames ++ f ∷ [];
        active = refl;
        stored = Stored-append stream format next at f h.frames n.belongs n.later n.after h.stored;
        bytes = size;
        duration = length;
        bounded = (omega arith, omega arith);
        identifier = h.identifier;
        identified = h.identified;
        start = h.start;
        start_known = h.start_known;
        within =
            IsWithin-append next at h.start h.frames f h.within
              (omega (arith, n.after, h.stored.2));
        silence_after = after;
        no_history = h.no_history;
      }

  pub extend-IsSpeaking :
      (next at : ℕ) (f : PcmFrame) (s : Vad) (h : IsSpeaking c stream format last next at s)
      → IsNext c stream format last next at f
      → s.active_bytes + byte_size f ≤ c.max_utterance_bytes
      → s.active_duration_ns + duration_ns f ≤ max_utterance_duration_ns c
      → IsSpeaking c stream format last
          (f.sequence + 1)
          (end_monotonic_ns f)
          (extend_utterance c identify f h.frames s)
  unfolding extend_utterance
  extend-IsSpeaking next at f s h n bytes time =
      let reached = within_end c stream format last h.frames h.start h.within in
      elim (Bool-cases (is_above f c.speech_end_threshold)) [
        | inl loud ↦ rw loud (grown-IsSpeaking next at f s h none 0 n bytes time tt)
        | inr quiet ↦ elim (Bool-cases (s.silence_count == 0)) [
          | inl first ↦
              rw (quiet, first)
                (grown-IsSpeaking next at f s h (some f.captured_at_monotonic_ns)
                  (s.silence_count + 1) n bytes time
                  (
                    omega (arith, n.after, h.stored.2),
                    omega (arith, captured_end-append 0 h.frames f),
                  ))
          | inr later ↦
              rw (quiet, later)
                (grown-IsSpeaking next at f s h s.silence_started_at_ns (s.silence_count + 1) n
                  bytes time
                  (silence_append h.start h.frames f s.silence_started_at_ns
                    (omega (arith, n.after, h.stored.2)) h.silence_after))
        ]
      ]
