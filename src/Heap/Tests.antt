-- ===== src/Heap/Tests.antt =====
-- A small heap that the operations build, and the theorems at it.
use lpc_interpreter.Prelude.{
  inl, ℕ, ◌≡◌, ◌↔◌, refl, List, false, [], ◌∷◌, Option, none, some, arith,
}
use lpc_interpreter.Value.Word.{
  nil_value, tag, is_tagged, is_obj_ref, is_closure, is_boxed_int, as_obj, from_obj,
}
use lpc_interpreter.Value.Handles.{make_array_handle, is_array_obj_ref, decode_array_id}
use lpc_interpreter.Heap.Pools.{
  Pool, StringPool, Heap, Kind, Slot, size, refs, slot_at, slot_of_id, slot_of_ref, target,
  LpcClosure,
}
use lpc_interpreter.Value.Boxes.{sweep_boxes}
use lpc_interpreter.Heap.Slots.{update, sweep_slot, sweep_slots}
use lpc_interpreter.Heap.Mark.{
  Marks, Roots, has_mark, set_mark, mark_values, mark_unless, mark_target, mark_value, mark_frames,
  mark_timers, no_marks, slots, mark_from_roots,
}
use lpc_interpreter.Heap.Marked.{On}
use lpc_interpreter.Heap.Reachable.{Starts, done, step, Reachable, mark_from_roots-exact}
use lpc_interpreter.Heap.Strings.{sweep_strings}
use lpc_interpreter.Heap.Sweep.{clear_list, sweep_heap, collect_garbage}

abbrev empty_pool : {A : Type 0} → Pool A
empty_pool = record { items = []; free = []; slot_free = [] }

abbrev no_texts : StringPool
no_texts = record { texts = []; free = []; intern = [] }

abbrev empty_heap : Heap
empty_heap = record {
  strings = no_texts;
  arrays = empty_pool;
  mappings = empty_pool;
  classes = empty_pool;
  objects = empty_pool;
  closures = empty_pool;
  boxed_ints = record { ints = []; free = []; slot_free = [] };
  alloc_count = 0;
}

-- Two arrays that refer to each other, and one more.
abbrev looped : Heap
looped = record empty_heap {
  arrays = record {
    items =
        (make_array_handle 2 ∷ []) ∷ (make_array_handle 1 ∷ []) ∷ (make_array_handle 1 ∷ []) ∷ [];
    free = [];
    slot_free = false ∷ false ∷ false ∷ [];
  };
}

abbrev on_stack : Roots
on_stack = record {
  stack = make_array_handle 1 ∷ [];
  frames = [];
  timers = [];
  last_result = nil_value;
  current_object_id = 0;
}

mark_from_roots-exact_example :
    (m : Marks) × (mark_from_roots looped on_stack ≡ some m)
    × ((s : Slot) → On m s ↔ Reachable looped on_stack s)
mark_from_roots-exact_example = mark_from_roots-exact looped on_stack

abbrev freed : Option Heap → List ℕ
freed none = []
freed (some h) = h.arrays.free

-- The third array is freed.
looped_collected : freed (collect_garbage looped on_stack) ≡ 2 ∷ []
unfolding collect_garbage mark_from_roots mark_values mark_value mark_target target is_obj_ref
    make_array_handle from_obj slot_of_ref as_obj slot_of_id size mark_unless has_mark no_marks refs
    slots mark_frames mark_timers set_mark slot_at sweep_slot sweep_slots update sweep_strings
    clear_list sweep_heap sweep_boxes is_boxed_int is_closure is_tagged tag
looped_collected = refl

abbrev plain_closure : LpcClosure
plain_closure = record { func_id = 1; module_version_id = 0; upvalues = nil_value ∷ [] }

-- The array on the stack can be got at, and by its element the second one.
looped-Reachable :
    Reachable looped on_stack (Kind.arrays, 0) × Reachable looped on_stack (Kind.arrays, 1)
unfolding is_array_obj_ref decode_array_id is_obj_ref make_array_handle from_obj as_obj is_tagged
    tag
looped-Reachable =
    let start : Starts looped on_stack (Kind.arrays, 0) =
      inl (make_array_handle 1, (0, refl), (refl, refl, omega arith)) in
    (
      ((Kind.arrays, 0), start, done),
      (
        (Kind.arrays, 0),
        start,
        step (make_array_handle 2) (make_array_handle 2 ∷ [], refl, (0, refl))
            (refl, refl, omega arith) done,
      ),
    )
