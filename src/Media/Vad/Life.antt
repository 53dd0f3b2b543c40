-- ===== src/Media/Vad/Life.antt =====
-- What a detector (src/eeveetuber/media/vad.py) guarantees after any calls.
use eeveetuber.Common.{
  ℕ, ◌≤◌, ◌<◌, ◌≡◌, ◌⊎◌, refl, inl, inr, true, false, List, [], ◌∷◌, ◌++◌, arith, All, subst, sym,
  ap, is_some, Option, none, some,
}
use eeveetuber.Common.Result.{ok, err}
use mathlib.Core.List.{append-nil}
use eeveetuber.Media.Types.{PcmFrame}
use eeveetuber.Media.Vad.State.{
  EnergyVadConfig, is_config, Vad, VadError, VadEvent, initial, buffered_bytes, speech_active,
}
use eeveetuber.Media.Vad.{process, finish_stream}
use eeveetuber.Media.Vad.Phases.{IsSoundEvent, Fits-IsBounded}
use eeveetuber.Media.Vad.Retention.{total_bytes}
use eeveetuber.Media.Vad.Validation.{IsRefusal}
use eeveetuber.Media.Vad.Runs.{IsValid, Finishes, process_valid, finish_valid, config_lem}

abbrev frames_of : Option (List PcmFrame) → List PcmFrame
frames_of none = []
frames_of (some frames) = frames

-- All the frames that a detector holds.
abbrev pub retained_frames : Vad → List PcmFrame
retained_frames s = s.history ++ frames_of s.active_frames

-- A call that changes the detector.
pub data Call : Type 0 where
  frame_call : PcmFrame → Call
  finish_call : Call

module _ (c : EnergyVadConfig) (identify : ℕ → ℕ → ℕ) where
  unfoldable pub perform : Call → Vad → Vad
  perform (frame_call f) s = (process c identify f s).0
  perform finish_call s = (finish_stream c identify s).0

  unfoldable pub perform_all : List Call → Vad → Vad
  unfolding perform
  perform_all [] s = s
  perform_all (k ∷ ks) s = perform_all ks (perform k s)

  perform-IsValid :
      (k : Call) (s : Vad)
      → 0 < c.speech_start_frames
      → IsValid c identify s
      → IsValid c identify (perform k s)
  unfolding perform
  perform-IsValid finish_call s some_frames v = inl ((finish_valid c identify s v).0)
  perform-IsValid (frame_call f) s some_frames v =
      elim (process_valid c identify f s some_frames v) [
        | inl (e, same, refusal) ↦ subst (λ r. IsValid c identify r.0) (sym same) v
        | inr (events, returned, sound, valid) ↦ valid
      ]

  perform_all-IsValid :
      (ks : List Call) (s : Vad)
      → 0 < c.speech_start_frames
      → IsValid c identify s
      → IsValid c identify (perform_all ks s)
  unfolding perform_all
  perform_all-IsValid [] s some_frames v = v
  perform_all-IsValid (k ∷ ks) s some_frames v =
      perform_all-IsValid ks (perform k s) some_frames (perform-IsValid k s some_frames v)

  reached-IsValid :
      (ks : List Call) → is_config c ≡ true → IsValid c identify (perform_all ks initial)
  reached-IsValid ks config = perform_all-IsValid ks initial (config_lem c config) (inl refl)

  -- The two ways in which `process` ends: the frame is refused and nothing changes, or the events
  -- are sound.
  abbrev pub IsTotal : PcmFrame → Vad → Type 0
  IsTotal f s =
      ((e : VadError) × (process c identify f s ≡ (s, err e)) × IsRefusal e)
      ⊎ ((events : List VadEvent) × ((process c identify f s).1 ≡ ok events)
          × All (IsSoundEvent c) events)

  -- With an accepted configuration, after any calls, a frame is either refused by one of the six
  -- documented checks, and then the detector is exactly as it was, or it is processed without an
  -- error. No internal error (a missing field, an empty history, an invalid utterance) can arise, and
  -- every utterance that an event carries passes its constructor's checks and both limits.
  pub process-IsTotal :
      (ks : List Call) (f : PcmFrame) → is_config c ≡ true → IsTotal f (perform_all ks initial)
  process-IsTotal ks f config =
      elim (process_valid c identify f (perform_all ks initial) (config_lem c config)
        (reached-IsValid ks config)) [
          | inl refused ↦ inl refused
          | inr (events, returned, sound, _) ↦ inr (events, returned, sound)
        ]

  abbrev pub AreCounted : Vad → Type 0
  AreCounted s =
      (buffered_bytes s ≡ total_bytes (retained_frames s))
      × (total_bytes (retained_frames s) ≤ c.max_utterance_bytes)

  counted_lem : (s : Vad) → IsValid c identify s → AreCounted s
  counted_lem s (inl new) = subst AreCounted (sym new) (refl, omega arith)
  counted_lem s (inr (stream, format, last, inl (h, few))) =
      let size = h.pre ++ h.candidate in
      let idle : speech_active s ≡ false = ap is_some h.inactive in
      let frames : retained_frames s ≡ size = rw (h.inactive, h.split) (append-nil size) in
      rw (idle, frames) (h.bytes, (Fits-IsBounded c size h.small).0)
  counted_lem s (inr (stream, format, last, inr h)) =
      let active : speech_active s ≡ true = ap is_some h.active in
      let frames : retained_frames s ≡ h.frames = rw (h.active, h.no_history.0) refl in
      rw (active, frames) (h.bytes, h.bounded.0)

  -- With an accepted configuration, whatever calls a detector received, the reported number of
  -- buffered bytes is the size of all the frames that it retains, those of its history and those of
  -- an active utterance, and this size does not exceed the configured number of bytes.
  pub buffered_bytes-le-max :
      (ks : List Call)
      → is_config c ≡ true
      → (buffered_bytes (perform_all ks initial)
          ≡ total_bytes (retained_frames (perform_all ks initial)))
        × (total_bytes (retained_frames (perform_all ks initial)) ≤ c.max_utterance_bytes)
  buffered_bytes-le-max ks config = counted_lem (perform_all ks initial) (reached-IsValid ks config)

  -- With an accepted configuration, after any calls, ending the stream never fails: it leaves the
  -- detector as new, and returns nothing or an utterance that passes its constructor's checks and
  -- both limits.
  pub finish_stream_resets :
      (ks : List Call)
      → is_config c ≡ true
      → Finishes c identify (finish_stream c identify (perform_all ks initial))
  finish_stream_resets ks config =
      finish_valid c identify (perform_all ks initial) (reached-IsValid ks config)
