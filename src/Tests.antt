-- ===== src/Tests.antt =====
-- Test data, runs at concrete inputs, and the theorems at concrete inputs.
mod Pages
mod Sessions
mod Tables
mod Manager
mod Recovery
mod Logs
mod Transactions
mod Locks
mod Parsing
mod Wire
mod Items
mod Index
mod Creation
