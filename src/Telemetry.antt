-- ===== src/Telemetry.antt =====
-- app/services/telemetry.py: samples of devices that readers share, and rates from counters.
pub mod Samples
pub mod Rates
mod Tests
