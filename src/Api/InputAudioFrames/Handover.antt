-- ===== src/Api/InputAudioFrames/Handover.antt =====
-- The hand-over from the wire (src/eeveetuber/api/input_audio_frames.py, `to_pcm_frame`) to the media
-- values (src/eeveetuber/media/types.py).
use eeveetuber.Common.{ℕ, ◌≤◌, ◌≡◌, refl, true, List, arith, length}
use eeveetuber.Common.Result.{ok}
use eeveetuber.Media.Types.{check_frame, byte_size}
use eeveetuber.Api.InputAudioFrames.{
  VoiceInputFrame, is_frame, to_pcm_frame, decode_voice_input_frame,
}
use eeveetuber.Api.InputAudioFrames.Laws.{decode-bounds}

frame_checks : (f : VoiceInputFrame) → is_frame f ≡ true → check_frame (to_pcm_frame f) ≡ ok tt
unfolding is_frame check_frame to_pcm_frame
frame_checks f valid = ground arith

same_size : (f : VoiceInputFrame) → byte_size (to_pcm_frame f) ≡ length f.pcm
unfolding to_pcm_frame
same_size f = refl

-- Whatever bytes arrive, the media frame made of a decoded message passes the checks of its
-- constructor, and holds no more bytes than the limit of the decoder.
pub check_frame-to_pcm_frame :
    (limit : ℕ) (raw : List ℕ) (f : VoiceInputFrame)
    → decode_voice_input_frame limit raw ≡ ok f
    → (check_frame (to_pcm_frame f) ≡ ok tt) × (byte_size (to_pcm_frame f) ≤ limit)
check_frame-to_pcm_frame limit raw f decoded =
    let (_, small, _, valid) = decode-bounds limit raw f decoded in
    (frame_checks f valid, omega (arith, same_size f))
