-- ===== src/Heap/Collect.antt =====
-- `CollectGarbage` of vm/src/runtime/vm_gc.cpp keeps what the program can get at and frees the rest.
use lpc_interpreter.Prelude.{ℕ, ◌<◌, ◌≡◌}
use lpc_interpreter.Heap.Pools.{Heap, Kind, Slot, size}
use lpc_interpreter.Heap.Mark.{Roots}
use lpc_interpreter.Heap.Reachable.{Reachable}
use lpc_interpreter.Heap.State.{IsSoundHeap, IsUsed, IsFree, IsCleared, Same}

-- Heap h' after a collection of heap h with roots r.
pub record Collected (h : Heap) (r : Roots) (h' : Heap) : Type 0 where
  pub sound : IsSoundHeap h'
  pub sizes : (k : Kind) → size h' k ≡ size h k
  pub keeps : (s : Slot) → Reachable h r s → IsUsed h s → IsUsed h' s × Same h h' s
  pub frees : (k : Kind) (i : ℕ) → ¬ Reachable h r (k, i) → i < size h k → IsFree h' (k, i)
  pub clears : (s : Slot) → ¬ Reachable h r s → IsUsed h s → IsCleared h' s
