-- ===== src/Optimizer.antt =====
-- compiler/src/frontend/mir_opt.cpp: the optimiser of mid-level code, and its theorems.
pub mod OpEq
pub mod Words
pub mod Base
pub mod Folding
pub mod ConstFold
pub mod FloatFold
pub mod Rewrites
pub mod ConstProp
pub mod Compact
pub mod Unreachable
pub mod DeadStore
pub mod Peephole
pub mod Pipeline
pub mod Marks
pub mod Search
pub mod Rank
pub mod Flow
pub mod Moved
pub mod Control
pub mod Retarget
pub mod Targets
mod Tests
