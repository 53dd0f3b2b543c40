-- ===== src/Media/Vad/Capture.antt =====
-- Runs of frames that follow one another in one stream (src/eeveetuber/media/types.py), as the
-- detector of src/eeveetuber/media/vad.py collects them.
use eeveetuber.Common.{ℕ, ◌+◌, ◌≤◌, ◌≡◌, refl, true, none, some, List, [], ◌∷◌, ◌++◌, arith}
use eeveetuber.Common.Result.{ok}
use eeveetuber.Media.Types.{
  PcmFormat, PcmFrame, PcmUtterance, same_format, end_monotonic_ns, check_frames, captured_end,
  check_utterance_frames, check_utterance,
}

-- The sequence number from which the next frame is acceptable.
pub next_sequence : ℕ → List PcmFrame → ℕ
next_sequence before [] = before
next_sequence before (f ∷ fs) = next_sequence (f.sequence + 1) fs

module _ (stream : ℕ) (format : PcmFormat) where
  abbrev pub Belongs : PcmFrame → Type 0
  Belongs f = (f.stream_id ≡ stream) × (same_format f.format format ≡ true)

  -- Frames of the stream, each with a later sequence number and no overlap with the one before.
  abbrev pub IsCapture : ℕ → ℕ → List PcmFrame → Type 0
  IsCapture next at [] = Unit
  IsCapture next at (f ∷ fs) =
      Belongs f
      × (next ≤ f.sequence)
      × (at ≤ f.captured_at_monotonic_ns)
      × IsCapture (f.sequence + 1) (end_monotonic_ns f) fs

  pub IsCapture-weaken :
      (n n' t t' : ℕ) (fs : List PcmFrame) → n' ≤ n → t' ≤ t → IsCapture n t fs → IsCapture n' t' fs
  IsCapture-weaken n n' t t' [] hn ht h = tt
  IsCapture-weaken n n' t t' (f ∷ fs) hn ht (b, hs, hc, rest) = (b, omega arith, omega arith, rest)

  pub IsCapture-append :
      (n t : ℕ) (fs : List PcmFrame) (f : PcmFrame)
      → IsCapture n t fs
      → Belongs f
      → next_sequence n fs ≤ f.sequence
      → captured_end t fs ≤ f.captured_at_monotonic_ns
      → IsCapture n t (fs ++ f ∷ [])
  unfolding next_sequence captured_end
  IsCapture-append n t [] f h b hs hc = (b, hs, hc, tt)
  IsCapture-append n t (g ∷ gs) f (b', ls, lc, rest) b hs hc =
      (b', ls, lc, IsCapture-append (g.sequence + 1) (end_monotonic_ns g) gs f rest b hs hc)

  -- Time does not run backwards along a capture.
  pub le-captured_end : (n t : ℕ) (fs : List PcmFrame) → IsCapture n t fs → t ≤ captured_end t fs
  unfolding captured_end
  le-captured_end n t [] h = omega arith
  le-captured_end n t (f ∷ fs) (b, hs, hc, rest) =
      omega (arith, hc, le-captured_end (f.sequence + 1) (end_monotonic_ns f) fs rest)

  -- A frame in the middle is captured after what stands before, and before the end.
  pub captured_within :
      (n t : ℕ) (pre rest : List PcmFrame) (f : PcmFrame)
      → IsCapture n t (pre ++ f ∷ rest)
      → (t ≤ f.captured_at_monotonic_ns)
        × (f.captured_at_monotonic_ns ≤ captured_end t (pre ++ f ∷ rest))
  unfolding captured_end
  captured_within n t [] rest f (b, hs, hc, h) =
      (hc, omega (arith, le-captured_end (f.sequence + 1) (end_monotonic_ns f) rest h))
  captured_within n t (g ∷ gs) rest f (b, hs, hc, h) =
      let (low, high) = captured_within (g.sequence + 1) (end_monotonic_ns g) gs rest f h in
      (omega arith, high)

  check_frames_after :
      (p : PcmFrame) (fs : List PcmFrame)
      → IsCapture (p.sequence + 1) (end_monotonic_ns p) fs
      → check_frames stream format (some p) fs ≡ ok tt
  unfolding check_frames
  check_frames_after p [] h = refl
  check_frames_after p (f ∷ fs) (b, hs, hc, rest) =
      ground (arith, b.0, b.1, check_frames_after f fs rest)

  pub check_frames_lem :
      (fs : List PcmFrame) → IsCapture 0 0 fs → check_frames stream format none fs ≡ ok tt
  unfolding check_frames
  check_frames_lem [] h = refl
  check_frames_lem (f ∷ fs) (b, hs, hc, rest) =
      ground (arith, b.0, b.1, check_frames_after f fs rest)

pub captured_end-append :
    (t : ℕ) (fs : List PcmFrame) (f : PcmFrame) → captured_end t (fs ++ f ∷ []) ≡ end_monotonic_ns f
unfolding captured_end
captured_end-append t [] f = refl
captured_end-append t (g ∷ gs) f = captured_end-append (end_monotonic_ns g) gs f

pub next_sequence-append :
    (n : ℕ) (fs : List PcmFrame) (f : PcmFrame) → next_sequence n (fs ++ f ∷ []) ≡ f.sequence + 1
unfolding next_sequence
next_sequence-append n [] f = refl
next_sequence-append n (g ∷ gs) f = next_sequence-append (g.sequence + 1) gs f

-- A moment between the capture of the first frame and the end of the last one.
abbrev pub IsWithin : List PcmFrame → ℕ → Type 0
IsWithin [] t = ⊥
IsWithin (f ∷ fs) t = (f.captured_at_monotonic_ns ≤ t) × (t ≤ captured_end 0 (f ∷ fs))

pub IsWithin-captured :
    (stream : ℕ) (format : PcmFormat) (pre rest : List PcmFrame) (f : PcmFrame)
    → IsCapture stream format 0 0 (pre ++ f ∷ rest)
    → IsWithin (pre ++ f ∷ rest) f.captured_at_monotonic_ns
IsWithin-captured stream format [] rest f h =
    (omega arith, (captured_within stream format 0 0 [] rest f h).1)
IsWithin-captured stream format (g ∷ gs) rest f h =
    let (_, _, _, later) = h in
    let (low, _) =
      captured_within stream format (g.sequence + 1) (end_monotonic_ns g) gs rest f later in
    (omega arith, (captured_within stream format 0 0 (g ∷ gs) rest f h).1)

check_utterance_frames_lem :
    (u : PcmUtterance) (fs : List PcmFrame)
    → IsCapture u.stream_id u.format 0 0 fs
    → IsWithin fs u.speech_started_at_monotonic_ns
    → u.speech_started_at_monotonic_ns ≤ u.speech_ended_at_monotonic_ns
    → u.speech_ended_at_monotonic_ns ≤ captured_end 0 fs
    → check_utterance_frames u fs ≡ ok tt
unfolding check_utterance_frames
check_utterance_frames_lem u [] capture within ordered inside = absurd within
check_utterance_frames_lem u (f ∷ fs) capture (low, high) ordered inside =
    ground (arith, check_frames_lem u.stream_id u.format (f ∷ fs) capture)

-- Speech that starts and ends within a capture makes a valid utterance.
pub check_utterance_lem :
    (u : PcmUtterance)
    → IsCapture u.stream_id u.format 0 0 u.frames
    → IsWithin u.frames u.speech_started_at_monotonic_ns
    → u.speech_started_at_monotonic_ns ≤ u.speech_ended_at_monotonic_ns
    → u.speech_ended_at_monotonic_ns ≤ captured_end 0 u.frames
    → check_utterance u ≡ ok tt
unfolding check_utterance
check_utterance_lem u = check_utterance_frames_lem u u.frames

pub le-next_sequence :
    (n m : ℕ) (fs : List PcmFrame) → n ≤ m → next_sequence n fs ≤ next_sequence m fs
unfolding next_sequence
le-next_sequence n m [] h = h
le-next_sequence n m (f ∷ fs) h = omega arith

pub le-captured_end_of :
    (t u : ℕ) (fs : List PcmFrame) → t ≤ u → captured_end t fs ≤ captured_end u fs
unfolding captured_end
le-captured_end_of t u [] h = h
le-captured_end_of t u (f ∷ fs) h = omega arith

-- A capture that ends before the given marks.
abbrev pub Stored : ℕ → PcmFormat → ℕ → ℕ → List PcmFrame → Type 0
Stored stream format next at fs =
    IsCapture stream format 0 0 fs × (next_sequence 0 fs ≤ next) × (captured_end 0 fs ≤ at)

pub Stored-shrink :
    (stream : ℕ) (format : PcmFormat) (next at : ℕ) (f : PcmFrame) (fs : List PcmFrame)
    → Stored stream format next at (f ∷ fs)
    → Stored stream format next at fs
unfolding next_sequence captured_end
Stored-shrink stream format next at f fs ((b, hs, hc, rest), n, t) = (
  IsCapture-weaken stream format _ 0 _ 0 fs (omega arith) (omega arith) rest,
  omega (arith, le-next_sequence 0 (f.sequence + 1) fs (omega arith), n),
  omega (arith, le-captured_end_of 0 (end_monotonic_ns f) fs (omega arith), t),
)

-- The next frame joins.
pub Stored-append :
    (stream : ℕ) (format : PcmFormat) (next at : ℕ) (f : PcmFrame) (fs : List PcmFrame)
    → Belongs stream format f
    → next ≤ f.sequence
    → at ≤ f.captured_at_monotonic_ns
    → Stored stream format next at fs
    → Stored stream format (f.sequence + 1) (end_monotonic_ns f) (fs ++ f ∷ [])
Stored-append stream format next at f fs b hs hc (capture, n, t) = (
  IsCapture-append stream format 0 0 fs f capture b (omega arith) (omega arith),
  omega (arith, next_sequence-append 0 fs f),
  omega (arith, captured_end-append 0 fs f),
)

pub Stored-empty : (stream : ℕ) (format : PcmFormat) (next at : ℕ) → Stored stream format next at []
unfolding next_sequence captured_end
Stored-empty stream format next at = (tt, omega arith, omega arith)
