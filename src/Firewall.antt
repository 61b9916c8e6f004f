-- ===== src/Firewall.antt =====
-- app/services/firewall.py: the firewall compiler, its plans, and the check of their results.
pub mod Words
pub mod Change
mod Tests
pub mod Normalize
pub mod Plan
pub mod Compile
pub mod Verify
pub mod Review
pub mod Execute
pub mod Apply
pub mod Snapshot
pub mod Risk
pub mod Commands
