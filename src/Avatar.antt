-- ===== src/Avatar.antt =====
-- The `eeveetuber.avatar` package: presentation cues and their scheduler.
pub mod Presentation
pub mod Scheduler
