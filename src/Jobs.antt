-- ===== src/Jobs.antt =====
-- app/services/jobs.py: the persistent operation queue.
pub mod Target
pub mod Queue
pub mod Dispatch
pub mod Execute
pub mod Lifecycle
mod Tests
