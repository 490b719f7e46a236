-- ===== src/Service.antt =====
-- The handlers and the goroutines of the service together: what they do to the database is a history
-- of the calls of db/db.go.
pub mod Api
pub mod Events
pub mod Refines
pub mod Node
pub mod Pays
pub mod Requests
