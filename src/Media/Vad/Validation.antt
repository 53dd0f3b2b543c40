-- ===== src/Media/Vad/Validation.antt =====
-- Which frames the detector lets in (src/eeveetuber/media/vad.py, `_validate_stream_frame`).
use eeveetuber.Common.{
  ℕ, ◌+◌, ◌≤◌, ◌<◌, ◌≡◌, ◌⊎◌, refl, inl, inr, false, Option, none, some, [], ◌∷◌, arith, Bool-cases,
  ltb, leb, ◌==◌,
}
use eeveetuber.Common.Result.{ok, err}
use eeveetuber.Media.Types.{PcmFormat, PcmFrame, same_format, byte_size, duration_ns}
use eeveetuber.Media.Vad.State.{
  EnergyVadConfig, max_utterance_duration_ns, Vad, VadError, initial, frame_too_large,
  frame_too_long, mixed_streams, format_changed, stale_sequence, overlapping,
}
use eeveetuber.Media.Vad.{validate_stream_frame, adopt_stream, violates, exceeds}
use eeveetuber.Media.Vad.Steps.{IsNext}

-- The six refusals of a frame, as opposed to an internal error.
abbrev pub IsRefusal : VadError → Type 0
IsRefusal frame_too_large = Unit
IsRefusal frame_too_long = Unit
IsRefusal mixed_streams = Unit
IsRefusal format_changed = Unit
IsRefusal stale_sequence = Unit
IsRefusal overlapping = Unit
IsRefusal _ = ⊥

abbrev pub next_mark : Option ℕ → ℕ
next_mark none = 0
next_mark (some sequence) = sequence + 1

abbrev pub end_mark : Option ℕ → ℕ
end_mark none = 0
end_mark (some at) = at

later_lem :
    (f : PcmFrame) (last : Option ℕ)
    → violates (λ mark. leb f.sequence mark) last ≡ false
    → next_mark last ≤ f.sequence
later_lem f none h = omega arith
later_lem f (some mark) h = ground arith

after_lem :
    (f : PcmFrame) (last : Option ℕ)
    → violates (λ mark. ltb f.captured_at_monotonic_ns mark) last ≡ false
    → end_mark last ≤ f.captured_at_monotonic_ns
after_lem f none h = omega arith
after_lem f (some mark) h = ground arith

module _ (c : EnergyVadConfig) where
  fits_lem :
      (f : PcmFrame)
      → 0 < c.speech_start_frames
      → ltb c.max_utterance_bytes (byte_size f) ≡ false
      → ltb (max_utterance_duration_ns c) (duration_ns f) ≡ false
      → exceeds c (f ∷ []) (byte_size f + 0) (duration_ns f + 0) ≡ false
  unfolding exceeds
  fits_lem f some_frames size time = ground arith

  -- A frame of a stream that is known: it is refused and changes nothing, or it is the next one.
  pub validate_known :
      (f : PcmFrame) (stream : ℕ) (format : PcmFormat) (s : Vad)
      → 0 < c.speech_start_frames
      → s.stream_id ≡ some stream
      → s.format ≡ some format
      → ((e : VadError) × (validate_stream_frame c f s ≡ (s, err e)) × IsRefusal e)
        ⊎ ((validate_stream_frame c f s ≡ (s, ok tt))
            × IsNext c stream format
                (s.last_sequence, s.last_end_ns)
                (next_mark s.last_sequence)
                (end_mark s.last_end_ns)
                f)
  unfolding validate_stream_frame adopt_stream
  validate_known f stream format s some_frames known same =
      elim (Bool-cases (ltb c.max_utterance_bytes (byte_size f))) [
        | inl size ↦ inl (frame_too_large, rw size refl, tt)
        | inr size ↦ elim (Bool-cases (ltb (max_utterance_duration_ns c) (duration_ns f))) [
          | inl time ↦ inl (frame_too_long, rw (size, time) refl, tt)
          | inr time ↦ elim (Bool-cases (f.stream_id == stream)) [
            | inr mixed ↦ inl (mixed_streams, rw (size, time, known, mixed) refl, tt)
            | inl own ↦ elim (Bool-cases (same_format f.format format)) [
              | inr changed ↦
                  inl (format_changed, rw (size, time, known, own, same, changed) refl, tt)
              | inl alike ↦
                  elim (Bool-cases (violates (λ mark. leb f.sequence mark) s.last_sequence)) [
                    | inl stale ↦
                        inl
                          (stale_sequence, rw (size, time, known, own, same, alike, stale) refl, tt)
                    | inr later ↦
                        elim (Bool-cases
                          (violates (λ mark. ltb f.captured_at_monotonic_ns mark) s.last_end_ns)) [
                            | inl early ↦ inl (
                              overlapping,
                              rw (size, time, known, own, same, alike, later, early) refl,
                              tt,
                            )
                            | inr after ↦ inr (
                              rw (size, time, known, own, same, alike, later, after) refl,
                              record {
                                belongs = (ground arith, alike);
                                later = later_lem f s.last_sequence later;
                                after = after_lem f s.last_end_ns after;
                                fits = fits_lem f some_frames size time;
                              },
                            )
                          ]
                  ]
            ]
          ]
        ]
      ]

  -- The state that knows the stream of its first frame.
  abbrev pub adopted : PcmFrame → Vad
  adopted f = record initial { stream_id = some f.stream_id; format = some f.format }

  -- The first frame: it is refused and changes nothing, or it names the stream.
  pub validate_first :
      (f : PcmFrame)
      → 0 < c.speech_start_frames
      → ((e : VadError) × (validate_stream_frame c f initial ≡ (initial, err e)) × IsRefusal e)
        ⊎ ((validate_stream_frame c f initial ≡ (adopted f, ok tt))
            × IsNext c f.stream_id f.format (none, none) 0 0 f)
  unfolding validate_stream_frame adopt_stream
  validate_first f some_frames = elim (Bool-cases (ltb c.max_utterance_bytes (byte_size f))) [
    | inl size ↦ inl (frame_too_large, rw size refl, tt)
    | inr size ↦ elim (Bool-cases (ltb (max_utterance_duration_ns c) (duration_ns f))) [
      | inl time ↦ inl (frame_too_long, rw (size, time) refl, tt)
      | inr time ↦ inr (
        rw (size, time) refl,
        record {
          belongs = (refl, ground arith);
          later = omega arith;
          after = omega arith;
          fits = fits_lem f some_frames size time;
        },
      )
    ]
  ]
