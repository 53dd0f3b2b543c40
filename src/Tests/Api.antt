-- ===== src/Tests/Api.antt =====
-- Concrete frames on the wire: a microphone's (src/eeveetuber/api/input_audio_frames.py), and a
-- synthesized one (src/eeveetuber/api/audio_frames.py).
use eeveetuber.Common.{◌+◌, ◌≤◌, ◌≡◌, refl, true, none, [], ◌∷◌, length, arith}
use eeveetuber.Common.Text.{codes}
use eeveetuber.Common.Result.{ok}
use eeveetuber.Api.AudioFrames.{AudioFrame, is_audio_frame, encode_audio_frame, decode_audio_frame}
use eeveetuber.Api.AudioFrames.Wire.{HasUuids, decode_audio_frame-encode_audio_frame}
use eeveetuber.Media.Types.{s16_le, check_format, check_frame, byte_size}
use eeveetuber.Api.InputAudioFrames.{
  VoiceInputFrame, is_frame, to_pcm_frame, encode_voice_input_frame, decode_voice_input_frame,
}
use eeveetuber.Api.InputAudioFrames.Handover.{check_frame-to_pcm_frame}
use eeveetuber.Api.InputAudioFrames.Laws.{decode-encode, decode-bounds}

abbrev frame : VoiceInputFrame
frame = record {
  stream_id = 7;
  sequence = 3;
  captured_at_monotonic_ns = 5;
  format = record { sample_rate_hz = 16000; channels = 1; encoding = s16_le };
  pcm = 1 ∷ 2 ∷ [];
}

decode-encode_example : decode_voice_input_frame 100 (encode_voice_input_frame frame) ≡ ok frame
unfolding check_format is_frame
decode-encode_example = decode-encode 100 frame (omega arith) refl refl (omega arith) (omega arith)

decode-bounds_example :
    (length (encode_voice_input_frame frame) ≡ 52 + 2)
    × (2 ≤ 100)
    × (check_format frame.format ≡ ok tt)
    × (is_frame frame ≡ true)
decode-bounds_example =
    decode-bounds 100 (encode_voice_input_frame frame) frame decode-encode_example

check_frame-to_pcm_frame_example :
    (check_frame (to_pcm_frame frame) ≡ ok tt) × (byte_size (to_pcm_frame frame) ≤ 100)
check_frame-to_pcm_frame_example =
    check_frame-to_pcm_frame 100 (encode_voice_input_frame frame) frame decode-encode_example

abbrev tone : AudioFrame
tone = record {
  session_id = 1;
  event_id = 2;
  correlation_id = 3;
  turn_id = 4;
  segment_id = 5;
  generation = 6;
  event_sequence = 7;
  segment_sequence = 8;
  chunk_index = 9;
  sample_rate_hz = 24000;
  channels = 1;
  media_type = codes "audio/pcm";
  audio = 1 ∷ 2 ∷ 3 ∷ [];
  duration_ms = none;
  flags = 3;
}

tone_valid : is_audio_frame tone ≡ true
unfolding is_audio_frame
tone_valid = refl

tone-HasUuids : HasUuids tone
tone-HasUuids = record {
  session = omega arith;
  event = omega arith;
  correlation = omega arith;
  turn = omega arith;
  segment = omega arith;
}

decode_audio_frame-encode_audio_frame_example :
    decode_audio_frame 100 (encode_audio_frame tone) ≡ ok tone
decode_audio_frame-encode_audio_frame_example =
    decode_audio_frame-encode_audio_frame 100 tone tone-HasUuids tone_valid (omega arith)
      (omega arith)
