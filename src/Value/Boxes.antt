-- ===== src/Value/Boxes.antt =====
-- The pool of the integers that no word has room for: `MakeI64` and `GetI64` of
-- vm/include/vm/runtime/vm.h, and the loop over the pool in `Sweep` of vm/src/runtime/vm_gc.cpp.
use lpc_interpreter.Prelude.{
  ℕ, zero, suc, ◌^◌, Bool, true, false, not, ◌&&◌, List, [], ◌∷◌, ◌++◌, ltb, if◌then◌else◌, length,
  get_or, set,
}
use lpc_interpreter.Prelude.Int.{ℤ, pos, negsuc}
use lpc_interpreter.Value.Word.{
  ValueTag, Value, tag, as_i64, boxed_int_idx, from_i64, from_boxed_int,
}

-- `boxed_ints_`, `boxed_int_free_` with its back first, and `boxed_int_slot_free_`.
pub record BoxedInts : Type 0 where
  pub ints : List ℤ
  pub free : List ℕ
  pub slot_free : List Bool

-- `kIntMinInline <= i && i <= kIntMaxInline`
abbrev pub is_inline : ℤ → Bool
is_inline (pos n) = ltb n (2 ^ 46)
is_inline (negsuc n) = ltb n (2 ^ 46)

-- `MakeI64` where the integer is boxed, by the free list.
unfoldable pub box_with : BoxedInts → ℤ → List ℕ → BoxedInts × ℕ
box_with p i (idx ∷ rest) =
    (record { ints = set p.ints idx i; free = rest; slot_free = set p.slot_free idx false }, idx)
box_with p i [] =
    (record p { ints = p.ints ++ i ∷ []; slot_free = p.slot_free ++ false ∷ [] }, length p.ints)

unfoldable pub box_int : BoxedInts → ℤ → BoxedInts × ℕ
unfolding box_with
box_int p i = box_with p i p.free

-- `MakeI64`.
unfoldable pub make_i64 : BoxedInts → ℤ → BoxedInts × Value
unfolding box_int
make_i64 p i =
    if is_inline i then (p, from_i64 i) else (let (q, idx) = box_int p i in (q, from_boxed_int idx))

-- The boxed case of `GetI64`.
unfoldable pub unbox : BoxedInts → ℕ → ℤ
unbox p idx =
    if ltb idx (length p.ints) && not (get_or p.slot_free idx false)
    then get_or p.ints idx (pos 0)
    else pos 0

unfoldable pub get_as : BoxedInts → Value → ValueTag → ℤ
unfolding unbox
get_as p v ValueTag.int64 = as_i64 v
get_as p v ValueTag.boxed_int = unbox p (boxed_int_idx v)
get_as p v _ = pos 0

-- `GetI64`.
unfoldable pub get_i64 : BoxedInts → Value → ℤ
unfolding get_as
get_i64 p v = get_as p v (tag v)

-- One round of the loop in `Sweep`.
unfoldable pub sweep_box : List Bool → ℕ → BoxedInts → BoxedInts
sweep_box marks i p =
    if not (get_or marks i false) && not (get_or p.slot_free i false)
    then record {
      ints = set p.ints i (pos 0);
      free = i ∷ p.free;
      slot_free = set p.slot_free i true;
    }
    else p

-- The loop, with the rounds left.
unfoldable pub sweep_boxes : List Bool → ℕ → ℕ → BoxedInts → BoxedInts
unfolding sweep_box
sweep_boxes marks zero i p = p
sweep_boxes marks (suc left) i p = sweep_boxes marks left (suc i) (sweep_box marks i p)
