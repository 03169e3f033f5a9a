-- ===== src/Parser.antt =====
-- main/backend/parser: from the bytes of a statement to its tokens and its syntax tree.
pub mod Tokener
pub mod Monad
pub mod Statement
pub mod Words
pub mod Clauses
pub mod Statements
pub mod Select
pub mod Parse
