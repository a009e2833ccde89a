-- ===== src/Instance.antt =====
-- The S2E object of include/s2e/S2E.h and src/s2e/S2E.cpp.
pub mod Processes
pub mod Plugins
