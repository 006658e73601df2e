-- ===== src/Tests.antt =====
-- Sample data, tests of the definitions, and the theorems at concrete inputs.
mod Samples
mod LedgerTests
mod TransferTests
mod RequestTests
mod AuthTests
mod StatementTests
mod SchemaTests
mod ApiTests
mod SystemTests
mod CursorTests
mod RetryTests
