-- ===== src/Heap/Strings.antt =====
-- The pool of texts: `InternString` of vm/include/vm/runtime/vm.h, and its loop in `Sweep` of
-- vm/src/runtime/vm_gc.cpp.
use lpc_interpreter.Prelude.{
  ℕ, zero, suc, Bool, true, false, not, ◌&&◌, ◌==◌, List, [], ◌∷◌, ◌++◌, Option, none, some,
  if◌then◌else◌, length, get_or, set,
}
use lpc_interpreter.Value.Word.{Value, nil_value}
use lpc_interpreter.Value.Handles.{make_heap_string_handle}
use lpc_interpreter.Chunk.Reader.{Bytes}
use lpc_interpreter.Heap.Pools.{StringPool}

unfoldable pub same_text : Bytes → Bytes → Bool
same_text [] [] = true
same_text [] (b ∷ bs) = false
same_text (a ∷ l) [] = false
same_text (a ∷ l) (b ∷ bs) = (a == b) && same_text l bs

unfoldable pub is_empty : Bytes → Bool
is_empty [] = true
is_empty (b ∷ bs) = false

-- `find` and `erase` of `string_intern_`, in which a key stands once.
unfoldable pub find : List (Bytes × Value) → Bytes → Option Value
find [] s = none
find ((t, v) ∷ es) s = if same_text t s then some v else find es s

unfoldable pub erase : List (Bytes × Value) → Bytes → List (Bytes × Value)
erase [] s = []
erase ((t, v) ∷ es) s = let rest = erase es s in if same_text t s then rest else (t, v) ∷ rest

-- `InternString` for a text that is not there yet, by the free list.
unfoldable pub add_string : StringPool → Bytes → List ℕ → StringPool × Value
add_string p s (idx ∷ rest) =
    let out = make_heap_string_handle idx in
    (record { texts = set p.texts idx s; free = rest; intern = (s, out) ∷ p.intern }, out)
add_string p s [] =
    let out = make_heap_string_handle (length p.texts) in
    (record { texts = p.texts ++ s ∷ []; free = []; intern = (s, out) ∷ p.intern }, out)

unfoldable pub intern_found : StringPool → Bytes → Option Value → StringPool × Value
intern_found p s (some v) = (p, v)
intern_found p s none = add_string p s p.free

-- `InternString`, on the pool alone: the count of allocations is not part of it.
unfoldable pub intern_string : StringPool → Bytes → StringPool × Value
intern_string p s = if is_empty s then (p, nil_value) else intern_found p s (find p.intern s)

-- One round of the loop in `Sweep`.
unfoldable pub sweep_string : List Bool → ℕ → StringPool → StringPool
sweep_string marks i p =
    let text = get_or p.texts i [] in
    if not (get_or marks i false) && not (is_empty text)
    then record { texts = set p.texts i []; free = i ∷ p.free; intern = erase p.intern text }
    else p

-- The loop, with the rounds left.
unfoldable pub sweep_strings : List Bool → ℕ → ℕ → StringPool → StringPool
sweep_strings marks zero i p = p
sweep_strings marks (suc left) i p = sweep_strings marks left (suc i) (sweep_string marks i p)
