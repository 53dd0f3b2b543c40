-- ===== src/Memory.antt =====
-- The `eeveetuber.memory` package: which memory candidates are promoted, and the
-- context that a turn is given.
pub mod Promotion
pub mod Context
