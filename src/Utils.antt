-- ===== src/Utils.antt =====
-- main/backend/utils: integers and texts as bytes.
pub mod IntEncoding
pub mod StrEncoding
