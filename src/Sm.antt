-- ===== src/Sm.antt =====
-- main/backend/sm: transactions, versions and locks.
pub mod Transaction
pub mod Visibility
pub mod Entry
pub mod LockTable
pub mod Manager
