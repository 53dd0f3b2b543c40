-- ===== src/Api.antt =====
-- The `eeveetuber.api` package: the binary frames of live microphone input and of synthesized
-- audio.
pub mod InputAudioFrames
pub mod AudioFrames
