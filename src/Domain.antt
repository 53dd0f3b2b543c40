-- ===== src/Domain.antt =====
-- The `eeveetuber.domain` package: the interaction state machine and the event envelope.
pub mod Interaction
pub mod Events
