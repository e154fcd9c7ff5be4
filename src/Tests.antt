-- ===== src/Tests.antt =====
-- Runs of the definitions on small data, and the theorems at that data.
pub mod Data
pub mod Store
pub mod Pages
pub mod Routes
pub mod Calls
pub mod Maps
pub mod Times
pub mod Tables
pub mod Services
