-- ===== src/Array.antt =====
-- vm/src/value/lpc_array.cpp: arrays with room for eight elements in place.
pub mod Storage
pub mod Refines
pub mod Pushing
pub mod Runs
pub mod Instance
pub mod Fields
mod Tests
