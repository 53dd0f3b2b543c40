-- ===== src/Api/InputAudioFrames.antt =====
-- src/eeveetuber/api/input_audio_frames.py: the EVIF frames of live microphone input.
-- `bytes` is a list of numbers below 256, a UUID a number below 2^128.
pub mod Bytes
pub mod Laws
pub mod Handover
use eeveetuber.Common.{
  ℕ, ◌+◌, ◌*◌, ◌%◌, Bool, true, false, not, ◌&&◌, List, [], ◌∷◌, ◌++◌, length, take, drop, ltb, leb,
  ◌==◌,
}
use eeveetuber.Common.Result.{Result, ok, err, ◌>>=◌, ◌>>◌, raise_if}
use eeveetuber.Media.Types.{
  PcmFormat, s16_le, bytes_per_sample_frame, check_format, MediaError, PcmFrame,
}
use eeveetuber.Api.InputAudioFrames.Bytes.{pack, from_bytes, read}

pub record VoiceInputFrame : Type 0 where
  pub stream_id : ℕ
  pub sequence : ℕ
  pub captured_at_monotonic_ns : ℕ
  pub format : PcmFormat
  pub pcm : List ℕ

pub data VoiceInputFrameError : Type 0 where
  bad_limit too_short bad_magic bad_version bad_flags bad_header_length bad_encoding :
      VoiceInputFrameError
  bad_reserved empty_payload over_limit truncated trailing bad_metadata : VoiceInputFrameError

abbrev pub max_u32 : ℕ
max_u32 = 4294967295

abbrev pub max_u64 : ℕ
max_u64 = 18446744073709551615

-- `VoiceInputFrame.__post_init__`: does it accept the values?
unfoldable pub is_frame : VoiceInputFrame → Bool
is_frame f =
    leb f.sequence max_u64
    && (leb f.captured_at_monotonic_ns max_u64
        && (not (length f.pcm == 0)
            && (leb (length f.pcm) max_u32
                && ((length f.pcm % bytes_per_sample_frame f.format) == 0))))

-- `to_pcm_frame`, before the checks of `PcmFrame`
unfoldable pub to_pcm_frame : VoiceInputFrame → PcmFrame
to_pcm_frame f = record {
  stream_id = f.stream_id;
  sequence = f.sequence;
  captured_at_monotonic_ns = f.captured_at_monotonic_ns;
  format = f.format;
  pcm = f.pcm;
}

-- "EVIF"
abbrev pub magic : List ℕ
magic = 69 ∷ 86 ∷ 73 ∷ 70 ∷ []

-- `encode_voice_input_frame`: `_HEADER.pack` and the payload.
unfoldable pub encode_voice_input_frame : VoiceInputFrame → List ℕ
encode_voice_input_frame f =
    magic
    ++ (pack 1 1
        ++ (pack 1 0
            ++ (pack 2 52
                ++ (pack 16 f.stream_id
                    ++ (pack 8 f.sequence
                        ++ (pack 8 f.captured_at_monotonic_ns
                            ++ (pack 4 f.format.sample_rate_hz
                                ++ (pack 2 f.format.channels
                                    ++ (pack 1 1
                                        ++ (pack 1 0 ++ (pack 4 (length f.pcm) ++ f.pcm)))))))))))

-- What `_HEADER.unpack_from` returns.
pub record Header : Type 0 where
  pub magic_bytes : List ℕ
  pub version : ℕ
  pub flags : ℕ
  pub header_bytes : ℕ
  pub stream_id : ℕ
  pub sequence : ℕ
  pub captured_at_monotonic_ns : ℕ
  pub sample_rate_hz : ℕ
  pub channels : ℕ
  pub encoding : ℕ
  pub reserved : ℕ
  pub payload_bytes : ℕ

-- The header, and the bytes after it.
unfoldable pub unpack : List ℕ → Header × List ℕ
unpack view =
    let rest₀ = drop 4 view in
    let (version, rest₁) = read 1 rest₀ in
    let (flags, rest₂) = read 1 rest₁ in
    let (header_bytes, rest₃) = read 2 rest₂ in
    let (stream_id, rest₄) = read 16 rest₃ in
    let (sequence, rest₅) = read 8 rest₄ in
    let (captured, rest₆) = read 8 rest₅ in
    let (rate, rest₇) = read 4 rest₆ in
    let (channels, rest₈) = read 2 rest₇ in
    let (encoding, rest₉) = read 1 rest₈ in
    let (reserved, rest₁₀) = read 1 rest₉ in
    let (payload, rest₁₁) = read 4 rest₁₀ in
    (
      record {
        magic_bytes = take 4 view;
        version = version;
        flags = flags;
        header_bytes = header_bytes;
        stream_id = stream_id;
        sequence = sequence;
        captured_at_monotonic_ns = captured;
        sample_rate_hz = rate;
        channels = channels;
        encoding = encoding;
        reserved = reserved;
        payload_bytes = payload;
      },
      rest₁₁,
    )

-- `!=` of byte strings.
abbrev pub same_bytes : List ℕ → List ℕ → Bool
same_bytes [] [] = true
same_bytes (a ∷ first) (b ∷ second) = (a == b) && same_bytes first second
same_bytes _ _ = false

-- The checks of the header, in their order.
unfoldable pub check_header : ℕ → ℕ → Header → Result VoiceInputFrameError (Unit {0})
check_header limit size h = do
  raise_if (not (same_bytes h.magic_bytes magic)) bad_magic
  raise_if (not (h.version == 1)) bad_version
  raise_if (not (h.flags == 0)) bad_flags
  raise_if (not (h.header_bytes == 52)) bad_header_length
  raise_if (not (h.encoding == 1)) bad_encoding
  raise_if (not (h.reserved == 0)) bad_reserved
  raise_if (h.payload_bytes == 0) empty_payload
  raise_if (ltb limit h.payload_bytes) over_limit
  raise_if (ltb size (52 + h.payload_bytes)) truncated
  raise_if (ltb (52 + h.payload_bytes) size) trailing

abbrev pub frame_of : Header → List ℕ → VoiceInputFrame
frame_of h pcm = record {
  stream_id = h.stream_id;
  sequence = h.sequence;
  captured_at_monotonic_ns = h.captured_at_monotonic_ns;
  format = record { sample_rate_hz = h.sample_rate_hz; channels = h.channels; encoding = s16_le };
  pcm = pcm;
}

-- The construction of the format and the frame; any refusal of theirs is `bad_metadata`.
abbrev pub build :
    Result MediaError (Unit {0}) → VoiceInputFrame → Result VoiceInputFrameError VoiceInputFrame
build (err e) f = err bad_metadata
build (ok _) f = do raise_if (not (is_frame f)) bad_metadata; ok f

-- The decoding, by the size of the message, its header and what follows the header.
unfoldable pub decode_view : ℕ → ℕ → Header → List ℕ → Result VoiceInputFrameError VoiceInputFrame
unfolding check_header is_frame check_format
decode_view limit size header pcm = do
  raise_if (ltb max_u32 limit) bad_limit
  raise_if (ltb size 52) too_short
  check_header limit size header
  let f = frame_of header pcm
  build (check_format f.format) f

unfoldable pub decode_voice_input_frame : ℕ → List ℕ → Result VoiceInputFrameError VoiceInputFrame
unfolding unpack decode_view
decode_voice_input_frame limit raw = decode_view limit (length raw) (unpack raw).0 (drop 52 raw)
