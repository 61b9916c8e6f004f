-- ===== src/Api.antt =====
-- app/api.py: the requests of the HTTP API, each as one transaction on the tables.
pub mod Records
pub mod Users
pub mod Devices
pub mod Credentials
pub mod Candidates
pub mod Inventory
pub mod Runs
mod Tests
