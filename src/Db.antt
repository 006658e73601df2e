-- ===== src/Db.antt =====
-- The database: tables, a connection with its transaction, and the statements that the services
-- send, with the constraints of migrations/versions/0001_initial_schema.py.
pub mod Tables
pub mod Actions
pub mod Checks
pub mod Statements
pub mod Rules
pub mod Gives
pub mod Inversion
