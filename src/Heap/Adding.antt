-- ===== src/Heap/Adding.antt =====
-- `InternString` of vm/include/vm/runtime/vm.h gives each text one handle.
use lpc_interpreter.Prelude.{ℕ, ◌<◌, ◌≡◌, false, Option, length}
use lpc_interpreter.Value.Word.{Value}
use lpc_interpreter.Value.Handles.{make_heap_string_handle}
use lpc_interpreter.Chunk.Reader.{Bytes}
use lpc_interpreter.Heap.Pools.{StringPool}
use lpc_interpreter.Heap.Strings.{is_empty}
use lpc_interpreter.Heap.Texts.{text, IsIndexed}

-- The pool q and the handle v that text t has in it, after pool p.
pub record Interned (p : StringPool) (t : Bytes) (q : StringPool) (v : Value) : Type 0 where
  pub indexed : IsIndexed q
  pub slot : (i : ℕ) × (v ≡ make_heap_string_handle i) × (i < length q.texts) × (text q i ≡ t)
  pub only : (j : ℕ) → text q j ≡ t → v ≡ make_heap_string_handle j
  pub still : (j : ℕ) → is_empty (text p j) ≡ false → text q j ≡ text p j
