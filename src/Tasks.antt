-- ===== src/Tasks.antt =====
-- src/infrastructure/queue/tasks: the background tasks.
pub mod World
pub mod Sending
pub mod Outcomes
pub mod SendDocument
pub mod ProcessDlq
pub mod ProcessWebhook
pub mod Background
pub mod Cleanup
