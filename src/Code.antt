-- ===== src/Code.antt =====
-- The output of code: code.cpp.
pub mod Statements
pub mod Strings
pub mod Files
mod Tests
