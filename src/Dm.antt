-- ===== src/Dm.antt =====
-- main/backend/dm: pages, data items, the log and the data manager.
pub mod Address
pub mod Page
pub mod Dataitem
pub mod Logger
pub mod Recovery
pub mod DataManager
pub mod PageX
pub mod Pindex
pub mod Page1
