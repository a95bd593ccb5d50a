-- ===== src/Events.antt =====
-- app/static/js/events.js: live updates from the server, their queue, and the stream that brings them.
pub mod Stream
pub mod Queue
pub mod Sequence
pub mod Batch
pub mod Backoff
pub mod Reconcile
