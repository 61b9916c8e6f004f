-- ===== src/Automation.antt =====
-- app/services/automation.py: operations that Ansible carries out.
pub mod Operation
pub mod Artifacts
pub mod Untrusted
mod Tests
