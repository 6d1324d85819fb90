-- ===== src/Banking.antt =====
-- src/contexts/banking: running the bank scripts and recording what they report.
pub mod Session
pub mod Monitor
pub mod Trail
pub mod Failure
pub mod Alerts
pub mod Recorder
pub mod Ingest
pub mod Otp
pub mod Notify
pub mod Scrape
mod Tests
