-- ===== src/Tests.antt =====
-- The theorems of the development applied to concrete inputs of src/eeveetuber.
mod Domain
mod Cancellation
mod Mailbox
mod Session
mod Vad
mod Api
mod Memory
mod Context
mod Dialogue
mod History
mod Avatar
