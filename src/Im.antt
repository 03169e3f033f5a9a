-- ===== src/Im.antt =====
-- main/backend/im: the B+ trees of the indices.
pub mod Node
pub mod Store
pub mod Tree
