-- ===== src/Tbm.antt =====
-- main/backend/tbm: tables, their fields, and the values of rows.
pub mod Access
pub mod Creation
pub mod Field
pub mod Manager
pub mod Stored
pub mod Table
