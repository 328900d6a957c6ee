-- ===== src/Vm.antt =====
-- The virtual machine of exec.cpp (`qc_program` of gmqcc.h).
pub mod State
pub mod Words
pub mod Entities
pub mod Strings
pub mod Frames
pub mod Opcodes
pub mod Step
pub mod Access
pub mod Control
pub mod Exec
pub mod Samples
mod Tests
