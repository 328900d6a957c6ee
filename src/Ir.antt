-- ===== src/Ir.antt =====
-- The parts of the intermediate representation (ir.cpp, ir.h).
pub mod Life
pub mod Allocator
pub mod Propagate
mod Tests
