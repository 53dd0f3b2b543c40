-- ===== src/Media/Vad/Steps.antt =====
-- One idle frame (src/eeveetuber/media/vad.py, `_process_idle`): the history, the candidate and the
-- start of speech.
use eeveetuber.Common.{
  ℕ, ◌+◌, ◌≤◌, ◌<◌, ◌≡◌, ◌∙◌, ap, subst, sym, refl, inl, inr, false, ◌||◌, Option, some, List, [],
  ◌∷◌, ◌++◌, arith, Bool-cases, length, length-append, sum_of-append, if◌then◌else◌, ltb, ◌==◌,
}
use eeveetuber.Common.Result.{ok}
use mathlib.Core.List.{append_assoc, append-nil}
use eeveetuber.Media.Types.{PcmFormat, PcmFrame, byte_size, duration_ns, end_monotonic_ns}
use eeveetuber.Media.Vad.State.{EnergyVadConfig, max_utterance_duration_ns, Vad, is_above, require}
use eeveetuber.Media.Vad.{exceeds, trim, remember_idle_frame, extend_candidate, track_candidate}
use eeveetuber.Media.Vad.Capture.{Belongs, Stored, Stored-append, Stored-shrink}
use eeveetuber.Media.Vad.Retention.{total_bytes, total_ns, Fits, trim_lem}
use eeveetuber.Media.Vad.Phases.{StartsAt, IsListening}

-- The candidate's marks, brought up to date for one more frame.
starts_lem :
    (candidate : List PcmFrame) (f : PcmFrame) (count : ℕ) (at sequence : Option ℕ)
    → count ≡ length candidate
    → StartsAt candidate at sequence
    → StartsAt
        (candidate ++ f ∷ [])
        (if count == 0 then some f.captured_at_monotonic_ns else at)
        (if count == 0 then some f.sequence else sequence)
starts_lem [] f count at sequence e h = rw e (refl, refl)
starts_lem (g ∷ gs) f count at sequence e h = (ground (arith, h.0), ground (arith, h.1))

module _ (c : EnergyVadConfig) (stream : ℕ) (format : PcmFormat) (last : Option ℕ × Option ℕ) where
  -- A frame that follows the marks and is within the limits by itself.
  pub record IsNext (next at : ℕ) (f : PcmFrame) : Type 0 where
    pub belongs : Belongs stream format f
    pub later : next ≤ f.sequence
    pub after : at ≤ f.captured_at_monotonic_ns
    pub fits : Fits c (f ∷ [])

  -- The history after one more frame: some of the old frames may have left, but none of the given
  -- last ones, if these fit together with the new frame.
  remember_lem :
      (next at : ℕ) (f : PcmFrame) (s : Vad) (front recent : List PcmFrame)
      → IsNext next at f
      → s.history ≡ front ++ recent
      → Stored stream format next at (front ++ recent)
      → s.history_bytes ≡ total_bytes (front ++ recent)
      → s.history_duration_ns ≡ total_ns (front ++ recent)
      → Fits c (recent ++ f ∷ [])
      → (kept : List PcmFrame) × (remember_idle_frame c f s ≡ (
        record s {
          history = kept ++ (recent ++ f ∷ []);
          history_bytes = total_bytes (kept ++ (recent ++ f ∷ []));
          history_duration_ns = total_ns (kept ++ (recent ++ f ∷ []));
        },
        ok tt,
      ))
        × Stored stream format (f.sequence + 1) (end_monotonic_ns f) (kept ++ (recent ++ f ∷ []))
        × Fits c (kept ++ (recent ++ f ∷ []))
  unfolding remember_idle_frame require
  remember_lem next at f s front recent n split stored bytes duration fits =
      let assoc : (front ++ recent) ++ f ∷ [] ≡ front ++ (recent ++ f ∷ []) =
        append_assoc front recent (f ∷ []) in
      let longer = subst (Stored stream format (f.sequence + 1) (end_monotonic_ns f)) assoc (
        Stored-append stream format next at f (front ++ recent) n.belongs n.later n.after stored) in
      let (kept, same, q, small) =
        trim_lem c (Stored stream format (f.sequence + 1) (end_monotonic_ns f)) (recent ++ f ∷ [])
          (Stored-shrink stream format _ _) fits front longer in
      let frames : s.history ++ f ∷ [] ≡ front ++ (recent ++ f ∷ []) =
        ap (λ l. l ++ f ∷ []) split ∙ assoc in
      let size : s.history_bytes + byte_size f ≡ total_bytes (front ++ (recent ++ f ∷ [])) =
        omega (
          arith,
          bytes,
          sum_of-append byte_size (front ++ recent) (f ∷ []),
          ap total_bytes assoc,
        ) in
      let time : s.history_duration_ns + duration_ns f ≡ total_ns (front ++ (recent ++ f ∷ [])) =
        omega (
          arith,
          duration,
          sum_of-append duration_ns (front ++ recent) (f ∷ []),
          ap total_ns assoc,
        ) in
      let trimmed : trim c (s.history ++ f ∷ []) (s.history_bytes + byte_size f)
            (s.history_duration_ns + duration_ns f)
          ≡ some (
            kept ++ (recent ++ f ∷ []),
            total_bytes (kept ++ (recent ++ f ∷ [])),
            total_ns (kept ++ (recent ++ f ∷ [])),
          ) =
        rw (frames, size, time) same in
      (kept, rw trimmed refl, q, small)

  -- After a loud frame that the candidate has room for.
  abbrev Grown : Vad → PcmFrame → Type 0
  Grown s f =
      (ltb c.max_utterance_bytes (s.candidate_bytes + byte_size f)
        || ltb (max_utterance_duration_ns c) (s.candidate_duration_ns + duration_ns f))
      ≡ false

  Grown-Fits :
      (next at : ℕ) (f : PcmFrame) (s : Vad) (h : IsListening c stream format last next at s)
      → Grown s f
      → s.candidate_count < c.speech_start_frames
      → Fits c (h.candidate ++ f ∷ [])
  unfolding exceeds
  Grown-Fits next at f s h room few =
      let size = sum_of-append byte_size h.candidate (f ∷ []) in
      let time = sum_of-append duration_ns h.candidate (f ∷ []) in
      let len = length-append h.candidate (f ∷ []) in
      ground (arith, size, time, len, h.count, h.candidate_size, h.candidate_time)

  -- The history after a frame with which no candidate is kept together.
  remember_alone :
      (next at : ℕ) (f : PcmFrame) (s : Vad)
      → IsListening c stream format last next at s
      → IsNext next at f
      → (kept : List PcmFrame) × (remember_idle_frame c f s ≡ (
        record s {
          history = kept ++ f ∷ [];
          history_bytes = total_bytes (kept ++ f ∷ []);
          history_duration_ns = total_ns (kept ++ f ∷ []);
        },
        ok tt,
      ))
        × Stored stream format (f.sequence + 1) (end_monotonic_ns f) (kept ++ f ∷ [])
        × Fits c (kept ++ f ∷ [])
  remember_alone next at f s h n =
      let same = sym (append-nil (h.pre ++ h.candidate)) in
      remember_lem next at f s (h.pre ++ h.candidate) [] n (h.split ∙ same)
        (subst (Stored stream format next at) same h.stored) (h.bytes ∙ ap total_bytes same)
        (h.duration ∙ ap total_ns same) n.fits

  -- One idle frame: the history takes it, and the candidate grows by it, restarts with it, or ends.
  pub idle_frame_lem :
      (next at : ℕ) (f : PcmFrame) (s : Vad)
      → IsListening c stream format last next at s
      → s.candidate_count < c.speech_start_frames
      → IsNext next at f
      → (s' : Vad) × (remember_idle_frame c f s ≡ (s', ok tt))
        × IsListening c stream format last
            (f.sequence + 1)
            (end_monotonic_ns f)
            (track_candidate c f s')
  unfolding track_candidate extend_candidate
  idle_frame_lem next at f s h few n = elim (Bool-cases (is_above f c.speech_start_threshold)) [
    | inr quiet ↦
        let (kept, same, stored, small) = remember_alone next at f s h n in
        (
          _,
          same,
          rw quiet (record {
            stream_known = h.stream_known;
            format_known = h.format_known;
            marked = h.marked;
            inactive = h.inactive;
            pre = kept ++ f ∷ [];
            candidate = [];
            split = sym (append-nil (kept ++ f ∷ []));
            stored = subst (Stored stream format _ _) (sym (append-nil (kept ++ f ∷ []))) stored;
            bytes = ap total_bytes (sym (append-nil (kept ++ f ∷ [])));
            duration = ap total_ns (sym (append-nil (kept ++ f ∷ [])));
            small = subst (Fits c) (sym (append-nil (kept ++ f ∷ []))) small;
            count = refl;
            candidate_size = refl;
            candidate_time = refl;
            starts = tt;
          }),
        )
    | inl loud ↦
        elim (Bool-cases (
          ltb c.max_utterance_bytes (s.candidate_bytes + byte_size f)
          || ltb (max_utterance_duration_ns c) (s.candidate_duration_ns + duration_ns f))) [
            | inl over ↦
                let (kept, same, stored, small) = remember_alone next at f s h n in
                (
                  _,
                  same,
                  rw (loud, over)
                      (record {
                        stream_known = h.stream_known;
                        format_known = h.format_known;
                        marked = h.marked;
                        inactive = h.inactive;
                        pre = kept;
                        candidate = f ∷ [];
                        split = refl;
                        stored = stored;
                        bytes = refl;
                        duration = refl;
                        small = small;
                        count = refl;
                        candidate_size = omega arith;
                        candidate_time = omega arith;
                        starts = (refl, refl);
                      }),
                )
            | inr room ↦
                let (kept, same, stored, small) =
                  remember_lem next at f s h.pre h.candidate n h.split h.stored h.bytes h.duration
                    (Grown-Fits next at f s h room few) in
                (
                  _,
                  same,
                  rw (loud, room)
                      (record {
                        stream_known = h.stream_known;
                        format_known = h.format_known;
                        marked = h.marked;
                        inactive = h.inactive;
                        pre = kept;
                        candidate = h.candidate ++ f ∷ [];
                        split = refl;
                        stored = stored;
                        bytes = refl;
                        duration = refl;
                        small = small;
                        count = omega (arith, length-append h.candidate (f ∷ []), h.count);
                        candidate_size =
                            omega (
                              arith,
                              sum_of-append byte_size h.candidate (f ∷ []),
                              h.candidate_size,
                            );
                        candidate_time = omega (
                          arith,
                          sum_of-append duration_ns h.candidate (f ∷ []),
                          h.candidate_time,
                        );
                        starts =
                            starts_lem h.candidate f s.candidate_count s.candidate_start_ns
                              s.candidate_start_sequence h.count h.starts;
                      }),
                )
          ]
  ]
