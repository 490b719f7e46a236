-- ===== src/Db.antt =====
-- The package db (db/db.go, db/settings.go).
pub mod Schema
pub mod Monad
pub mod Rows
pub mod Settings
pub mod Cards
pub mod Keeps
pub mod Hoare
pub mod Payments
pub mod CardWrites
pub mod Receipts
pub mod Approvals
pub mod Totals
pub mod Authorize
pub mod Calls
pub mod Runs
pub mod Claims
pub mod Limits
pub mod Timeless
