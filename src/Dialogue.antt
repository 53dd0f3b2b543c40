-- ===== src/Dialogue.antt =====
-- The `eeveetuber.dialogue` package: how a model's text becomes speech segments.
pub mod Assembler
