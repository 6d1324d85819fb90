-- ===== src/Conciliation.antt =====
-- src/contexts/conciliation: matching pending orders with bank transactions.
pub mod Candidate
pub mod Fuzzy
pub mod Engine
pub mod Request
pub mod Tables
pub mod Moves
pub mod Run
pub mod Incoming
pub mod Poll
pub mod Expire
pub mod System
mod Tests
