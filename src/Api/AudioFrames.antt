-- ===== src/Api/AudioFrames.antt =====
-- src/eeveetuber/api/audio_frames.py: the EVAF frames of synthesized audio.
-- `bytes` is a list of numbers below 256, a UUID a number below 2^128, a flag set a number. The limit of
-- the payload is a natural number, since a negative one is refused.
pub mod Wire
use eeveetuber.Common.{
  ℕ, ◌+◌, Bool, true, false, not, ◌&&◌, ◌||◌, Option, none, some, List, [], ◌∷◌, ◌++◌, length, take,
  drop, ltb, leb, ◌==◌, any, if◌then◌else◌,
}
use eeveetuber.Common.Text.{Str, codes, is_space}
use eeveetuber.Common.Result.{Result, ok, err, ◌>>=◌, ◌>>◌, raise_if}
use eeveetuber.Api.InputAudioFrames.{max_u32, max_u64, same_bytes}
use eeveetuber.Api.InputAudioFrames.Bytes.{pack, read}

-- `AudioFrame`: the flags are the sum of `FINAL_CHUNK` (1), `END_UTTERANCE` (2) and `DISCONTINUITY` (4).
pub record AudioFrame : Type 0 where
  pub session_id : ℕ
  pub event_id : ℕ
  pub correlation_id : ℕ
  pub turn_id : ℕ
  pub segment_id : ℕ
  pub generation : ℕ
  pub event_sequence : ℕ
  pub segment_sequence : ℕ
  pub chunk_index : ℕ
  pub sample_rate_hz : ℕ
  pub channels : ℕ
  pub media_type : Str
  pub audio : List ℕ
  pub duration_ms : Option ℕ
  pub flags : ℕ

pub data AudioFrameError : Type 0 where
  header_too_short wrong_magic wrong_version unknown_flags wrong_header_length : AudioFrameError
  payload_over_limit wrong_length not_ascii wrong_metadata : AudioFrameError

abbrev pub max_u16 : ℕ
max_u16 = 65535

abbrev pub max_audio_payload_bytes : ℕ
max_audio_payload_bytes = 16777216

-- The header's size, and the flags that are known.
abbrev pub fixed_header_bytes : ℕ
fixed_header_bytes = 124

abbrev pub has_known_flags : ℕ → Bool
has_known_flags flags = ltb flags 8

-- "EVAF"
abbrev pub audio_magic : List ℕ
audio_magic = 69 ∷ 86 ∷ 65 ∷ 70 ∷ []

-- `_validate_uint`
abbrev pub is_uint : ℕ → ℕ → ℕ → Bool
is_uint value maximum minimum = leb minimum value && leb value maximum

abbrev pub is_duration : Option ℕ → Bool
is_duration none = true
is_duration (some duration) = ltb duration max_u32

abbrev pub is_ascii : Str → Bool
is_ascii text = not (any (λ c. leb 128 c) text)

-- `startswith`
abbrev pub starts_with : Str → Str → Bool
starts_with [] text = true
starts_with (p ∷ prefix) [] = false
starts_with (p ∷ prefix) (c ∷ text) = (p == c) && starts_with prefix text

unfoldable pub is_media_type : Str → Bool
unfolding is_space
is_media_type text =
    is_ascii text
    && (ltb 0 (length text)
        && (leb (length text) max_u16
            && (starts_with (codes "audio/") text && not (any is_space text))))

-- `AudioFrame.__post_init__`: does it accept the values?
unfoldable pub is_audio_frame : AudioFrame → Bool
unfolding is_media_type
is_audio_frame f =
    is_uint f.generation max_u32 0
    && (is_uint f.event_sequence max_u64 0
        && (is_uint f.segment_sequence max_u32 0
            && (is_uint f.chunk_index max_u32 0
                && (is_uint f.sample_rate_hz max_u32 1
                    && (is_uint f.channels max_u16 1
                        && (is_duration f.duration_ms
                            && (has_known_flags f.flags
                                && (is_media_type f.media_type
                                    && leb (length f.audio) max_audio_payload_bytes))))))))

-- `_UNKNOWN_DURATION` stands for no duration.
abbrev pub raw_duration_of : Option ℕ → ℕ
raw_duration_of none = max_u32
raw_duration_of (some duration) = duration

abbrev pub duration_of : ℕ → Option ℕ
duration_of raw_duration = if raw_duration == max_u32 then none else some raw_duration

-- `encode_audio_frame`: `_HEADER.pack`, the media type and the audio. `pack` keeps the low bytes of a
-- number that does not fit its field, where the `Struct` of the source raises an error.
unfoldable pub encode_audio_frame : AudioFrame → List ℕ
encode_audio_frame f =
    audio_magic
    ++ (pack 1 1
        ++ (pack 1 f.flags
            ++ (pack 2 (fixed_header_bytes + length f.media_type)
                ++ (pack 16 f.session_id
                    ++ (pack 16 f.event_id
                        ++ (pack 16 f.correlation_id
                            ++ (pack 16 f.turn_id
                                ++ (pack 16 f.segment_id
                                    ++ (pack 4 f.generation
                                        ++ (pack 8 f.event_sequence
                                            ++ (pack 4 f.segment_sequence
                                                ++ (pack 4 f.chunk_index
                                                    ++ (pack 4 f.sample_rate_hz
                                                        ++ (pack 2 f.channels
                                                            ++ (pack 2 (length f.media_type)
                                                            ++ (pack 4
                                                            (raw_duration_of f.duration_ms)
                                                            ++ (pack 4 (length f.audio)
                                                            ++ (f.media_type
                                                            ++ f.audio))))))))))))))))))

-- What `_HEADER.unpack_from` returns.
pub record AudioHeader : Type 0 where
  pub magic_bytes : List ℕ
  pub version : ℕ
  pub raw_flags : ℕ
  pub header_bytes : ℕ
  pub session_id : ℕ
  pub event_id : ℕ
  pub correlation_id : ℕ
  pub turn_id : ℕ
  pub segment_id : ℕ
  pub generation : ℕ
  pub event_sequence : ℕ
  pub segment_sequence : ℕ
  pub chunk_index : ℕ
  pub sample_rate_hz : ℕ
  pub channels : ℕ
  pub media_type_bytes : ℕ
  pub raw_duration : ℕ
  pub payload_bytes : ℕ

-- The header, and the bytes after it.
unfoldable pub unpack_header : List ℕ → AudioHeader × List ℕ
unpack_header view =
    let (version, rest₁) = read 1 (drop 4 view) in
    let (raw_flags, rest₂) = read 1 rest₁ in
    let (header_bytes, rest₃) = read 2 rest₂ in
    let (session_id, rest₄) = read 16 rest₃ in
    let (event_id, rest₅) = read 16 rest₄ in
    let (correlation_id, rest₆) = read 16 rest₅ in
    let (turn_id, rest₇) = read 16 rest₆ in
    let (segment_id, rest₈) = read 16 rest₇ in
    let (generation, rest₉) = read 4 rest₈ in
    let (event_sequence, rest₁₀) = read 8 rest₉ in
    let (segment_sequence, rest₁₁) = read 4 rest₁₀ in
    let (chunk_index, rest₁₂) = read 4 rest₁₁ in
    let (sample_rate_hz, rest₁₃) = read 4 rest₁₂ in
    let (channels, rest₁₄) = read 2 rest₁₃ in
    let (media_type_bytes, rest₁₅) = read 2 rest₁₄ in
    let (raw_duration, rest₁₆) = read 4 rest₁₅ in
    let (payload_bytes, rest₁₇) = read 4 rest₁₆ in
    (
      record {
        magic_bytes = take 4 view;
        version = version;
        raw_flags = raw_flags;
        header_bytes = header_bytes;
        session_id = session_id;
        event_id = event_id;
        correlation_id = correlation_id;
        turn_id = turn_id;
        segment_id = segment_id;
        generation = generation;
        event_sequence = event_sequence;
        segment_sequence = segment_sequence;
        chunk_index = chunk_index;
        sample_rate_hz = sample_rate_hz;
        channels = channels;
        media_type_bytes = media_type_bytes;
        raw_duration = raw_duration;
        payload_bytes = payload_bytes;
      },
      rest₁₇,
    )

-- The checks of the header and of the packet's size, in their order.
unfoldable pub check_audio_header : ℕ → ℕ → AudioHeader → Result AudioFrameError (Unit {0})
check_audio_header limit size h = do
  raise_if (not (same_bytes h.magic_bytes audio_magic)) wrong_magic
  raise_if (not (h.version == 1)) wrong_version
  raise_if (not (has_known_flags h.raw_flags)) unknown_flags
  raise_if (not (h.header_bytes == fixed_header_bytes + h.media_type_bytes)) wrong_header_length
  raise_if (ltb limit h.payload_bytes) payload_over_limit
  raise_if (not (size == h.header_bytes + h.payload_bytes)) wrong_length

abbrev pub audio_frame_of : AudioHeader → Str → List ℕ → AudioFrame
audio_frame_of h media_type audio = record {
  session_id = h.session_id;
  event_id = h.event_id;
  correlation_id = h.correlation_id;
  turn_id = h.turn_id;
  segment_id = h.segment_id;
  generation = h.generation;
  event_sequence = h.event_sequence;
  segment_sequence = h.segment_sequence;
  chunk_index = h.chunk_index;
  sample_rate_hz = h.sample_rate_hz;
  channels = h.channels;
  media_type = media_type;
  audio = audio;
  duration_ms = duration_of h.raw_duration;
  flags = h.raw_flags;
}

-- The decoding of the media type, and the construction of the frame; a refusal of the latter is
-- `wrong_metadata`.
abbrev pub accept : Bool → AudioFrame → Result AudioFrameError AudioFrame
accept ascii f = do
  raise_if (not ascii) not_ascii
  raise_if (not (is_audio_frame f)) wrong_metadata
  ok f

-- The decoding, by the size of the packet, its header and what follows the header.
unfoldable pub decode_parts : ℕ → ℕ → AudioHeader → List ℕ → Result AudioFrameError AudioFrame
unfolding check_audio_header is_audio_frame
decode_parts limit size h body = do
  raise_if (ltb size fixed_header_bytes) header_too_short
  check_audio_header limit size h
  let media_type = take h.media_type_bytes body
  accept (is_ascii media_type) (audio_frame_of h media_type (drop h.media_type_bytes body))

-- `decode_audio_frame`
unfoldable pub decode_audio_frame : ℕ → List ℕ → Result AudioFrameError AudioFrame
unfolding unpack_header decode_parts
decode_audio_frame limit packet =
    decode_parts limit (length packet) (unpack_header packet).0 (drop fixed_header_bytes packet)
