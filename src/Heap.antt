-- ===== src/Heap.antt =====
-- The heap of the machine: vm/src/runtime/vm_gc.cpp and vm/src/runtime/vm_alloc.cpp.
pub mod Pools
pub mod Mark
pub mod Marked
pub mod Setting
pub mod Reach
pub mod Traced
pub mod Reachable
pub mod Refers
pub mod Holds
pub mod Slots
pub mod Strings
pub mod Sweep
pub mod Alloc
pub mod Sound
pub mod Sweeping
pub mod Allocating
pub mod Texts
pub mod Interning
pub mod Adding
pub mod State
pub mod Swept
pub mod Collect
pub mod Again
pub mod InRange
pub mod Leading
pub mod Handing
mod Tests
