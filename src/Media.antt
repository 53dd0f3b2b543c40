-- ===== src/Media.antt =====
-- The `eeveetuber.media` package: PCM values and the voice activity detector.
pub mod Types
pub mod Vad
