-- ===== src/Application.antt =====
-- The `eeveetuber.application` package: the recent conversation as prompt data.
pub mod ConversationHistory
