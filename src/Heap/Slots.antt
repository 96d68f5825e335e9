-- ===== src/Heap/Slots.antt =====
-- The list of free slots of a pool in vm/src/runtime/vm_alloc.cpp, and one slot in
-- vm/src/runtime/vm_gc.cpp.
use lpc_interpreter.Prelude.{
  ℕ, zero, suc, Bool, true, false, not, ◌&&◌, List, [], ◌∷◌, ◌++◌, if◌then◌else◌, length, get_or,
  set,
}
use lpc_interpreter.Heap.Pools.{Pool}

-- The entry at an index is changed.
unfoldable pub update {ℓ} : {A : Type ℓ} → (A → A) → List A → ℕ → List A
update f [] i = []
update f (x ∷ xs) zero = f x ∷ xs
update f (x ∷ xs) (suc i) = x ∷ update f xs i

-- `AllocateArrayHandle` and its like, by the free list: the pool and the index.
unfoldable pub allocate_with : {A : Type 0} → Pool A → A → List ℕ → Pool A × ℕ
allocate_with p x (idx ∷ rest) =
    (record { items = set p.items idx x; free = rest; slot_free = set p.slot_free idx false }, idx)
allocate_with p x [] =
    (record p { items = p.items ++ x ∷ []; slot_free = p.slot_free ++ false ∷ [] }, length p.items)

unfoldable pub allocate : {A : Type 0} → Pool A → A → Pool A × ℕ
unfolding allocate_with
allocate p x = allocate_with p x p.free

-- One round of a loop of `Sweep`, with what it does to the entry of a slot that it frees.
unfoldable pub sweep_slot : {A : Type 0} → (A → A) → List Bool → ℕ → Pool A → Pool A
unfolding update
sweep_slot clear marks i p =
    if not (get_or marks i false) && not (get_or p.slot_free i false)
    then record {
      items = update clear p.items i;
      free = i ∷ p.free;
      slot_free = set p.slot_free i true;
    }
    else p

-- The loop, with the rounds left.
unfoldable pub sweep_slots : {A : Type 0} → (A → A) → List Bool → ℕ → ℕ → Pool A → Pool A
unfolding sweep_slot
sweep_slots clear marks zero i p = p
sweep_slots clear marks (suc left) i p =
    sweep_slots clear marks left (suc i) (sweep_slot clear marks i p)
