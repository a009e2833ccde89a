-- ===== src/ExecutionState.antt =====
-- S2EExecutionState of include/s2e/S2EExecutionState.h and src/s2e/S2EExecutionState.cpp: one path of
-- the symbolic execution, with its guest memory and CPU state.
pub mod Klee
pub mod Memory
pub mod Ram
pub mod Access
pub mod Registers
mod Example
mod Tests
