-- ===== src/Media/Types.antt =====
-- src/eeveetuber/media/types.py: PCM formats, frames and utterances.
-- An identifier is a number, `bytes` a list of numbers below 256. The integers that the constructors
-- refuse when negative are natural numbers here, and what has the wrong Python type does not arise.
use eeveetuber.Common.{
  ℕ, ◌+◌, ◌*◌, ◌/◌, ◌%◌, Bool, not, ◌&&◌, Option, none, some, List, [], ◌∷◌, length, sum_of, ltb,
  leb, ◌==◌,
}
use eeveetuber.Common.Result.{Result, ok, err, ◌>>◌, raise_if}

pub data PcmEncoding : Type 0 where
  s16_le : PcmEncoding

pub record PcmFormat : Type 0 where
  pub sample_rate_hz : ℕ
  pub channels : ℕ
  pub encoding : PcmEncoding

pub data MediaError : Type 0 where
  bad_sample_rate bad_channels empty_frame incomplete_sample : MediaError
  no_frames foreign_frame mixed_format unordered_sequence overlapping_frames : MediaError
  start_outside end_before_start end_outside : MediaError

-- `PcmFormat.__post_init__`; there is no other encoding to refuse.
unfoldable pub check_format : PcmFormat → Result MediaError (Unit {0})
check_format f = do
  raise_if (not (leb 8000 f.sample_rate_hz && leb f.sample_rate_hz 192000)) bad_sample_rate
  raise_if (not (leb 1 f.channels && leb f.channels 8)) bad_channels

abbrev pub bytes_per_sample_frame : PcmFormat → ℕ
bytes_per_sample_frame f = f.channels * 2

-- `==` of formats.
abbrev pub same_format : PcmFormat → PcmFormat → Bool
same_format a b = (a.sample_rate_hz == b.sample_rate_hz) && (a.channels == b.channels)

pub record PcmFrame : Type 0 where
  pub stream_id : ℕ
  pub sequence : ℕ
  pub captured_at_monotonic_ns : ℕ
  pub format : PcmFormat
  pub pcm : List ℕ

-- `PcmFrame.__post_init__`
unfoldable pub check_frame : PcmFrame → Result MediaError (Unit {0})
check_frame f = do
  raise_if (length f.pcm == 0) empty_frame
  raise_if (not ((length f.pcm % bytes_per_sample_frame f.format) == 0)) incomplete_sample

abbrev pub byte_size : PcmFrame → ℕ
byte_size f = length f.pcm

abbrev pub sample_frame_count : PcmFrame → ℕ
sample_frame_count f = length f.pcm / bytes_per_sample_frame f.format

unfoldable pub duration_ns : PcmFrame → ℕ
duration_ns f = (sample_frame_count f * 1000000000) / f.format.sample_rate_hz

abbrev pub end_monotonic_ns : PcmFrame → ℕ
end_monotonic_ns f = f.captured_at_monotonic_ns + duration_ns f

pub data UtteranceEndReason : Type 0 where
  silence max_duration max_bytes stream_ended : UtteranceEndReason

pub record PcmUtterance : Type 0 where
  pub utterance_id : ℕ
  pub stream_id : ℕ
  pub format : PcmFormat
  pub frames : List PcmFrame
  pub speech_started_at_monotonic_ns : ℕ
  pub speech_ended_at_monotonic_ns : ℕ
  pub end_reason : UtteranceEndReason

-- The two comparisons with the frame before, if there is one.
abbrev pub check_follows : Option PcmFrame → PcmFrame → Result MediaError (Unit {0})
check_follows none f = ok tt
check_follows (some previous) f = do
  raise_if (leb f.sequence previous.sequence) unordered_sequence
  raise_if (ltb f.captured_at_monotonic_ns (end_monotonic_ns previous)) overlapping_frames

-- The loop of `PcmUtterance.__post_init__` over the frames, with `previous`.
unfoldable pub check_frames :
    ℕ → PcmFormat → Option PcmFrame → List PcmFrame → Result MediaError (Unit {0})
check_frames stream format previous [] = ok tt
check_frames stream format previous (f ∷ fs) = do
  raise_if (not (f.stream_id == stream)) foreign_frame
  raise_if (not (same_format f.format format)) mixed_format
  check_follows previous f
  check_frames stream format (some f) fs

-- `frames[-1].end_monotonic_ns`, with the end before the list for an empty one.
unfoldable pub captured_end : ℕ → List PcmFrame → ℕ
captured_end before [] = before
captured_end before (f ∷ fs) = captured_end (end_monotonic_ns f) fs

-- `PcmUtterance.__post_init__`
unfoldable pub check_utterance_frames : PcmUtterance → List PcmFrame → Result MediaError (Unit {0})
unfolding check_frames captured_end
check_utterance_frames u [] = err no_frames
check_utterance_frames u (first ∷ rest) = do
  check_frames u.stream_id u.format none (first ∷ rest)
  raise_if
      (not (
        leb first.captured_at_monotonic_ns u.speech_started_at_monotonic_ns
        && leb u.speech_started_at_monotonic_ns (captured_end 0 (first ∷ rest))))
      start_outside
  raise_if (not (leb u.speech_started_at_monotonic_ns u.speech_ended_at_monotonic_ns))
      end_before_start
  raise_if (ltb (captured_end 0 (first ∷ rest)) u.speech_ended_at_monotonic_ns) end_outside

unfoldable pub check_utterance : PcmUtterance → Result MediaError (Unit {0})
unfolding check_utterance_frames
check_utterance u = check_utterance_frames u u.frames

abbrev pub byte_count : PcmUtterance → ℕ
byte_count u = sum_of byte_size u.frames

abbrev pub audio_duration_ns : PcmUtterance → ℕ
audio_duration_ns u = sum_of duration_ns u.frames
