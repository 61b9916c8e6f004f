-- ===== src/Scheduling.antt =====
-- app/services/scheduling.py and app/schedules_api.py: calendar rules, scheduled tasks and requests.
pub mod Rule
pub mod Definition
pub mod Dispatch
pub mod Tick
pub mod Define
pub mod Requests
mod Tests
