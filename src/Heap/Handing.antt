-- ===== src/Heap/Handing.antt =====
-- The handles that vm/src/runtime/vm_alloc.cpp gives out lead to the new entries.
use lpc_interpreter.Prelude.{
  ℕ, ◌+◌, ◌-◌, ◌^◌, ◌<◌, ◌≡◌, ◌∙◌, refl, List, some, get_elem?, length, arith,
}
use lpc_interpreter.Value.Word.{Value}
use lpc_interpreter.Value.Handles.{
  mapping_base, object_base, make_mapping_handle, make_object_handle,
}
use lpc_interpreter.Heap.Pools.{LpcObject, Heap, Kind, Slot, size, target}
use lpc_interpreter.Heap.Slots.{allocate}
use lpc_interpreter.Heap.Allocating.{allocate-Allocated}
use lpc_interpreter.Heap.State.{IsSoundHeap, IsUsed, Same}
use lpc_interpreter.Heap.Alloc.{allocate_mapping_handle, allocate_object_handle}
use lpc_interpreter.Heap.Leading.{slot_of_id_suc, ref-mapping, ref-object, target-from_obj}

-- Value v refers to a slot of the heap h' that heap h did not use, and that holds what `Holds` says;
-- every other entry is as it was.
pub record Given (h : Heap) (k : Kind) (Holds : ℕ → Type 0) (h' : Heap) (v : Value) : Type 0 where
  pub index : ℕ
  pub refers : target h' v ≡ some (k, index)
  pub new : ¬ IsUsed h (k, index)
  pub used : IsUsed h' (k, index)
  pub found : Holds index
  pub sound : IsSoundHeap h'
  pub still : (s : Slot) → IsUsed h s → IsUsed h' s × Same h h' s

module _ (h : Heap) (s : IsSoundHeap h) where
  -- `AllocateMappingHandle`, in the same way.
  pub allocate_mapping_handle-Given :
      (x : List (Value × Value))
      → length h.mappings.items < 2 ^ 32 - 2
      → Given h Kind.mappings
          (λ i. get_elem? (allocate_mapping_handle h x).0.mappings.items i ≡ some x)
          (allocate_mapping_handle h x).0
          (allocate_mapping_handle h x).1
  unfolding allocate_mapping_handle make_mapping_handle size
  allocate_mapping_handle-Given x room =
      let a = allocate-Allocated h.mappings x s.mappings in
      let h' = (allocate_mapping_handle h x).0 in
      let idx = (allocate h.mappings x).1 in
      record {
        index = idx;
        refers =
            target-from_obj h' (mapping_base + (idx + 1)) (omega (arith, a.bound))
            ∙ ref-mapping h' (idx + 1) (omega (arith, a.bound))
            ∙ slot_of_id_suc h' Kind.mappings idx a.used.0;
        new = a.new;
        used = a.used;
        found = a.found;
        sound = record {
          strings = s.strings;
          arrays = s.arrays;
          mappings = a.sound;
          classes = s.classes;
          objects = s.objects;
          closures = s.closures;
          boxed_ints = s.boxed_ints;
        };
        still = λ (k, i). elim k as (λ k. IsUsed h (k, i) → IsUsed h' (k, i) × Same h h' (k, i)) [
          | Kind.mappings ↦ a.still i
          | Kind.strings ↦ λ u. (u, refl)
          | Kind.arrays ↦ λ u. (u, refl)
          | Kind.classes ↦ λ u. (u, refl)
          | Kind.objects ↦ λ u. (u, refl)
          | Kind.closures ↦ λ u. (u, refl)
          | Kind.boxed_ints ↦ λ u. (u, refl)
        ];
      }

  -- `AllocateObjectHandle`, in the same way.
  pub allocate_object_handle-Given :
      (x : LpcObject)
      → length h.objects.items < 2 ^ 46
      → Given h Kind.objects
          (λ i. get_elem? (allocate_object_handle h x).0.objects.items i ≡ some x)
          (allocate_object_handle h x).0
          (allocate_object_handle h x).1
  unfolding allocate_object_handle make_object_handle size
  allocate_object_handle-Given x room =
      let a = allocate-Allocated h.objects x s.objects in
      let h' = (allocate_object_handle h x).0 in
      let idx = (allocate h.objects x).1 in
      record {
        index = idx;
        refers =
            target-from_obj h' (object_base + (idx + 1)) (omega (arith, a.bound))
            ∙ ref-object h' (idx + 1)
            ∙ slot_of_id_suc h' Kind.objects idx a.used.0;
        new = a.new;
        used = a.used;
        found = a.found;
        sound = record {
          strings = s.strings;
          arrays = s.arrays;
          mappings = s.mappings;
          classes = s.classes;
          objects = a.sound;
          closures = s.closures;
          boxed_ints = s.boxed_ints;
        };
        still = λ (k, i). elim k as (λ k. IsUsed h (k, i) → IsUsed h' (k, i) × Same h h' (k, i)) [
          | Kind.objects ↦ a.still i
          | Kind.strings ↦ λ u. (u, refl)
          | Kind.arrays ↦ λ u. (u, refl)
          | Kind.mappings ↦ λ u. (u, refl)
          | Kind.classes ↦ λ u. (u, refl)
          | Kind.closures ↦ λ u. (u, refl)
          | Kind.boxed_ints ↦ λ u. (u, refl)
        ];
      }
