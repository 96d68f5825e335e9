-- ===== src/Verifier.antt =====
-- compiler/src/frontend/verifier.cpp: the checker of mid-level code, and its theorems.
pub mod Tables
pub mod Check
pub mod Loop
pub mod Graph
pub mod Depths
pub mod Enqueue
pub mod Invariant
pub mod Walk
pub mod Operands
pub mod Run
pub mod Edges
pub mod Sound
pub mod Module
pub mod NetEffect
mod Tests
