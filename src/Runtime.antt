-- ===== src/Runtime.antt =====
-- The `eeveetuber.runtime` package: cancellation generations, the priority mailbox, the session
-- actor and the supervisor of the sessions.
pub mod Cancellation
pub mod Mailbox
pub mod Session
pub mod Supervisor
