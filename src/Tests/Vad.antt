-- ===== src/Tests/Vad.antt =====
-- A detector with small limits on concrete frames (src/eeveetuber/media/vad.py).
use eeveetuber.Common.{ℕ, ◌+◌, ◌*◌, ◌≡◌, ◌≤◌, refl, List, [], ◌∷◌}
use eeveetuber.Media.Types.{s16_le, PcmFrame}
use eeveetuber.Media.Vad.State.{EnergyVadConfig, is_config, initial, buffered_bytes}
use eeveetuber.Media.Vad.{finish_stream}
use eeveetuber.Media.Vad.Retention.{total_bytes}
use eeveetuber.Media.Vad.Runs.{Finishes}
use eeveetuber.Media.Vad.Life.{
  Call, frame_call, finish_call, perform_all, IsTotal, process-IsTotal, buffered_bytes-le-max,
  retained_frames, finish_stream_resets,
}

abbrev config : EnergyVadConfig
config = record {
  speech_start_threshold = 1200;
  speech_end_threshold = 700;
  speech_start_frames = 1;
  speech_end_frames = 1;
  pre_roll_frames = 2;
  max_utterance_duration_ms = 1000;
  max_utterance_bytes = 8;
}

abbrev identify : ℕ → ℕ → ℕ
identify stream sequence = stream + sequence

-- Two samples each, the loud ones near the greatest amplitude.
abbrev frame : ℕ → List ℕ → PcmFrame
frame sequence pcm = record {
  stream_id = 7;
  sequence = sequence;
  captured_at_monotonic_ns = sequence * 1000000;
  format = record { sample_rate_hz = 8000; channels = 1; encoding = s16_le };
  pcm = pcm;
}

abbrev quiet : List ℕ
quiet = 1 ∷ 0 ∷ 1 ∷ 0 ∷ []

abbrev loud : List ℕ
loud = 255 ∷ 127 ∷ 1 ∷ 128 ∷ []

abbrev calls : List Call
calls =
    frame_call (frame 1 quiet)
    ∷ frame_call (frame 2 loud)
    ∷ frame_call (frame 2 loud)
    ∷ frame_call (frame 3 quiet)
    ∷ finish_call
    ∷ frame_call (frame 1 loud)
    ∷ []

process-IsTotal_example :
    IsTotal config identify (frame 4 loud) (perform_all config identify calls initial)
unfolding is_config
process-IsTotal_example = process-IsTotal config identify calls (frame 4 loud) refl

buffered_bytes-le-max_example :
    (buffered_bytes (perform_all config identify calls initial)
      ≡ total_bytes (retained_frames (perform_all config identify calls initial)))
    × (total_bytes (retained_frames (perform_all config identify calls initial)) ≤ 8)
unfolding is_config
buffered_bytes-le-max_example = buffered_bytes-le-max config identify calls refl

finish_stream_resets_example :
    Finishes config identify
      (finish_stream config identify (perform_all config identify calls initial))
unfolding is_config
finish_stream_resets_example = finish_stream_resets config identify calls refl
