-- ===== src/Heap/Alloc.antt =====
-- The `Allocate` functions of vm/src/runtime/vm_alloc.cpp that take the new entry whole.
use lpc_interpreter.Prelude.{suc, ◌+◌, ◌%◌, ◌^◌, List}
use lpc_interpreter.Value.Word.{Value, from_closure}
use lpc_interpreter.Value.Handles.{make_array_handle, make_mapping_handle, make_object_handle}
use lpc_interpreter.Heap.Pools.{LpcClosure, LpcObject, Heap}
use lpc_interpreter.Heap.Slots.{allocate}

-- `AllocateArrayHandle`.
unfoldable pub allocate_array_handle : Heap → List Value → Heap × Value
allocate_array_handle h x =
    let (q, idx) = allocate h.arrays x in
    (record h { arrays = q; alloc_count = suc h.alloc_count }, make_array_handle (idx + 1))

-- `AllocateMappingHandle`.
unfoldable pub allocate_mapping_handle : Heap → List (Value × Value) → Heap × Value
allocate_mapping_handle h x =
    let (q, idx) = allocate h.mappings x in
    (record h { mappings = q; alloc_count = suc h.alloc_count }, make_mapping_handle (idx + 1))

-- `AllocateClosureHandle`, with the cast to 32 bits.
unfoldable pub allocate_closure_handle : Heap → LpcClosure → Heap × Value
allocate_closure_handle h x =
    let (q, idx) = allocate h.closures x in
    (record h { closures = q; alloc_count = suc h.alloc_count }, from_closure ((idx + 1) % 2 ^ 32))

-- `AllocateObjectHandle`.
unfoldable pub allocate_object_handle : Heap → LpcObject → Heap × Value
allocate_object_handle h x =
    let (q, idx) = allocate h.objects x in
    (record h { objects = q; alloc_count = suc h.alloc_count }, make_object_handle (idx + 1))
