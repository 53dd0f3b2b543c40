-- ===== src/Media/Vad/Runs.antt =====
-- The life of a detector (src/eeveetuber/media/vad.py): any frames and any ends of streams, in any
-- order.
use eeveetuber.Common.{
  ℕ, ◌<◌, ◌≡◌, ◌⊎◌, refl, inl, inr, Bool, true, false, Option, none, some, List, [], arith, All,
  subst, sym, is_some, if◌then◌else◌, ap,
}
use eeveetuber.Common.Result.{Result, ok, err}
use eeveetuber.Media.Types.{PcmFormat, PcmFrame, stream_ended, end_monotonic_ns}
use eeveetuber.Media.Vad.State.{
  EnergyVadConfig, is_config, Vad, VadError, VadEvent, VadSpeechEnded, initial, speech_active,
  clear_utterance,
}
use eeveetuber.Media.Vad.{
  process, finish_stream, validate_stream_frame, process_idle, process_active, finish_utterance,
  exceeds,
}
use eeveetuber.Media.Vad.Capture.{Stored-empty}
use eeveetuber.Media.Vad.Phases.{
  IsListening, IsSpeaking, IsSound, IsSoundEvent, finish_utterance_lem,
}
use eeveetuber.Media.Vad.Totality.{Resting, process_idle_lem, process_active_lem}
use eeveetuber.Media.Vad.Validation.{
  IsRefusal, next_mark, end_mark, validate_known, adopted, validate_first,
}
use eeveetuber.Media.Vad.Steps.{IsNext}

pub config_lem : (c : EnergyVadConfig) → is_config c ≡ true → 0 < c.speech_start_frames
unfolding is_config
config_lem c h = ground arith

module _ (c : EnergyVadConfig) (identify : ℕ → ℕ → ℕ) where
  -- New, or in one of the phases of the stream that it knows.
  abbrev pub IsValid : Vad → Type 0
  IsValid s =
      (s ≡ initial)
      ⊎ ((stream : ℕ) × (format : PcmFormat) × (last : Option ℕ × Option ℕ) × Resting c stream
            format last identify (next_mark last.0) (end_mark last.1) s)

  -- The marks of the frame that was let in.
  abbrev marked : PcmFrame → Vad → Vad
  marked f s = record s { last_sequence = some f.sequence; last_end_ns = some (end_monotonic_ns f) }

  mark-IsListening :
      (stream : ℕ) (format : PcmFormat) (last : Option ℕ × Option ℕ) (next at : ℕ) (f : PcmFrame)
      (s : Vad)
      → IsListening c stream format last next at s
      → IsListening c stream format
          (some f.sequence, some (end_monotonic_ns f))
          next
          at
          (marked f s)
  mark-IsListening stream format last next at f s h = record {
    stream_known = h.stream_known;
    format_known = h.format_known;
    marked = (refl, refl);
    inactive = h.inactive;
    pre = h.pre;
    candidate = h.candidate;
    split = h.split;
    stored = h.stored;
    bytes = h.bytes;
    duration = h.duration;
    small = h.small;
    count = h.count;
    candidate_size = h.candidate_size;
    candidate_time = h.candidate_time;
    starts = h.starts;
  }

  mark-IsSpeaking :
      (stream : ℕ) (format : PcmFormat) (last : Option ℕ × Option ℕ) (next at : ℕ) (f : PcmFrame)
      (s : Vad)
      → IsSpeaking c stream format last next at s
      → IsSpeaking c stream format (some f.sequence, some (end_monotonic_ns f)) next at (marked f s)
  mark-IsSpeaking stream format last next at f s h = record {
    stream_known = h.stream_known;
    format_known = h.format_known;
    marked = (refl, refl);
    frames = h.frames;
    active = h.active;
    stored = h.stored;
    bytes = h.bytes;
    duration = h.duration;
    bounded = h.bounded;
    identifier = h.identifier;
    identified = h.identified;
    start = h.start;
    start_known = h.start_known;
    within = h.within;
    silence_after = h.silence_after;
    no_history = h.no_history;
  }

  adopted-IsListening :
      (f : PcmFrame) → IsListening c f.stream_id f.format (none, none) 0 0 (adopted c f)
  unfolding exceeds
  adopted-IsListening f = record {
    stream_known = refl;
    format_known = refl;
    marked = (refl, refl);
    inactive = refl;
    pre = [];
    candidate = [];
    split = refl;
    stored = Stored-empty f.stream_id f.format 0 0;
    bytes = refl;
    duration = refl;
    small = ground arith;
    count = refl;
    candidate_size = refl;
    candidate_time = refl;
    starts = tt;
  }

  identity :
      (stream : ℕ) (format : PcmFormat) (last : Option ℕ × Option ℕ) (next at : ℕ) (s : Vad)
      → Resting c stream format last identify next at s
      → (s.stream_id ≡ some stream)
        × (s.format ≡ some format)
        × ((s.last_sequence, s.last_end_ns) ≡ last)
  identity stream format last next at s (inl (h, few)) = (h.stream_known, h.format_known, cc)
  identity stream format last next at s (inr h) = (h.stream_known, h.format_known, cc)

  -- A call that returned sound events and left a valid detector.
  abbrev pub Continues : Vad × Result VadError (List VadEvent) → Type 0
  Continues r =
      (events : List VadEvent) × (r.1 ≡ ok events) × All (IsSoundEvent c) events × IsValid r.0

  -- The branch of `process` once a frame was let in.
  branch : Bool → PcmFrame → Vad → Vad × Result VadError (List VadEvent)
  branch active f s = if active then process_active c identify f s else process_idle c identify f s

  process-branch :
      (f : PcmFrame) (s s' : Vad) (active : Bool)
      → validate_stream_frame c f s ≡ (s', ok tt)
      → speech_active s' ≡ active
      → process c identify f s ≡ branch active f (marked f s')
  unfolding process branch
  process-branch f s s' true same a = rw (same, a) refl
  process-branch f s s' false same a = rw (same, a) refl

  process-Resting :
      (stream : ℕ) (format : PcmFormat) (last : Option ℕ × Option ℕ) (f : PcmFrame) (s s' : Vad)
      → 0 < c.speech_start_frames
      → validate_stream_frame c f s ≡ (s', ok tt)
      → IsNext c stream format last (next_mark last.0) (end_mark last.1) f
      → Resting c stream format last identify (next_mark last.0) (end_mark last.1) s'
      → Continues (process c identify f s)
  unfolding branch
  process-Resting stream format last f s s' some_frames same n resting =
      let seen : Option ℕ × Option ℕ = (some f.sequence, some (end_monotonic_ns f)) in
      let next = next_mark last.0 in
      let at = end_mark last.1 in
      let follows : IsNext c stream format seen next at f = record {
        belongs = n.belongs;
        later = n.later;
        after = n.after;
        fits = n.fits;
      } in
      elim resting [
        | inl (listening, few) ↦
            let idle = mark-IsListening stream format last next at f s' listening in
            let (events, returned, sound, rests) =
              process_idle_lem c stream format seen identify next at f (marked f s') some_frames
                idle few follows in
            subst Continues (sym (process-branch f s s' false same (ap is_some listening.inactive)))
              (events, returned, sound, inr (stream, format, seen, rests))
        | inr speaking ↦
            let (events, returned, sound, rests) =
              process_active_lem c stream format seen identify next at f (marked f s') some_frames
                (mark-IsSpeaking stream format last next at f s' speaking) follows in
            subst Continues (sym (process-branch f s s' true same (ap is_some speaking.active)))
              (events, returned, sound, inr (stream, format, seen, rests))
      ]

  process_refused :
      (f : PcmFrame) (s : Vad) (e : VadError)
      → validate_stream_frame c f s ≡ (s, err e)
      → process c identify f s ≡ (s, err e)
  unfolding process
  process_refused f s e same = rw same refl

  -- One frame: refused without any change, or taken in.
  pub process_valid :
      (f : PcmFrame) (s : Vad)
      → 0 < c.speech_start_frames
      → IsValid s
      → ((e : VadError) × (process c identify f s ≡ (s, err e)) × IsRefusal e)
        ⊎ Continues (process c identify f s)
  process_valid f s some_frames (inl new) =
      subst
        (λ t.
          ((e : VadError) × (process c identify f t ≡ (t, err e)) × IsRefusal e)
          ⊎ Continues (process c identify f t))
        (sym new)
        (elim (validate_first c f some_frames) [
          | inl (e, same, refusal) ↦ inl (e, process_refused f initial e same, refusal)
          | inr (same, n) ↦ inr (
              process-Resting f.stream_id f.format (none, none) f initial (adopted c f) some_frames
                same n (inl (adopted-IsListening f, some_frames)))
        ])
  process_valid f s some_frames (inr (stream, format, last, resting)) =
      let (known, form, marks) = identity stream format last _ _ s resting in
      elim (validate_known c f stream format s some_frames known form) [
        | inl (e, same, refusal) ↦ inl (e, process_refused f s e same, refusal)
        | inr (same, n) ↦ inr (
            process-Resting stream format last f s s some_frames same
              (subst (λ m. IsNext c stream format m (next_mark m.0) (end_mark m.1) f) marks n)
              resting)
      ]

  abbrev pub Finishes : Vad × Result VadError (Option VadSpeechEnded) → Type 0
  Finishes r =
      (r.0 ≡ initial)
      × ((r.1 ≡ ok none) ⊎ ((e : VadSpeechEnded) × (r.1 ≡ ok (some e)) × IsSound c e))

  finish_stream_idle :
      (s : Vad) → s.active_frames ≡ none → finish_stream c identify s ≡ (initial, ok none)
  unfolding finish_stream
  finish_stream_idle s h = let idle : speech_active s ≡ false = ap is_some h in rw idle refl

  finish_stream_active :
      (s : Vad) (e : VadSpeechEnded)
      → speech_active s ≡ true
      → finish_utterance c stream_ended s ≡ (clear_utterance s, ok e)
      → finish_stream c identify s ≡ (initial, ok (some e))
  unfolding finish_stream
  finish_stream_active s e active same = rw (active, same) refl

  pub finish_valid : (s : Vad) → IsValid s → Finishes (finish_stream c identify s)
  finish_valid s (inl new) =
      let done = finish_stream_idle s (ap (λ (t : Vad). t.active_frames) new) in
      subst Finishes (sym done) (refl, inl refl)
  finish_valid s (inr (stream, format, last, inl (h, few))) =
      subst Finishes (sym (finish_stream_idle s h.inactive)) (refl, inl refl)
  finish_valid s (inr (stream, format, last, inr h)) =
      let (e, same, sound) = finish_utterance_lem c stream format last stream_ended _ _ s h in
      subst Finishes (sym (finish_stream_active s e (ap is_some h.active) same))
        (refl, inr (e, refl, sound))
