-- ===== src/Value/Handles.antt =====
-- Handles to the heap of the virtual machine, of vm/include/vm/value/objref.h: a reference whose
-- payload says by its range which pool it indexes.
use lpc_interpreter.Prelude.{
  ℕ, ◌+◌, ◌-◌, ◌*◌, ◌/◌, ◌%◌, ◌^◌, Bool, not, ◌&&◌, ◌||◌, ltb, leb, ◌==◌, if◌then◌else◌,
}
use Prim.Native.Nat
use lpc_interpreter.Value.Word.{Value, is_obj_ref, as_obj, from_obj}

abbrev pub func_base : ℕ
func_base = 0x0_8000_0000

abbrev pub array_base : ℕ
array_base = 0x1_0000_0000

abbrev pub mapping_base : ℕ
mapping_base = 0x2_0000_0000

abbrev pub class_base : ℕ
class_base = 0x3_0000_0000

abbrev pub object_base : ℕ
object_base = 0x4_0000_0000

unfoldable pub is_s_const_string_raw : ℕ → Bool
is_s_const_string_raw raw = Nat.bit_and raw 1 == 1

-- A cast to 32 bits, and a subtraction in them.
unfoldable pub decode_string_index : ℕ → ℕ
decode_string_index raw = (raw / 2 % 2 ^ 32 + 2 ^ 32 - 1) % 2 ^ 32

unfoldable pub make_s_const_handle : ℕ → Value
make_s_const_handle idx = from_obj (Nat.bit_or ((idx + 1) * 2) 1)

unfoldable pub make_heap_string_handle : ℕ → Value
make_heap_string_handle idx = from_obj (Nat.bit_or ((idx + 1) * 2) 0)

unfoldable pub is_string_obj_ref : Value → Bool
is_string_obj_ref v = is_obj_ref v && (ltb 0 (as_obj v) && ltb (as_obj v) func_base)

unfoldable pub is_func_obj_ref : Value → Bool
is_func_obj_ref v = is_obj_ref v && (leb func_base (as_obj v) && ltb (as_obj v) array_base)

unfoldable pub is_array_obj_ref : Value → Bool
is_array_obj_ref v = is_obj_ref v && (leb array_base (as_obj v) && ltb (as_obj v) mapping_base)

unfoldable pub is_mapping_obj_ref : Value → Bool
is_mapping_obj_ref v = is_obj_ref v && (leb mapping_base (as_obj v) && ltb (as_obj v) class_base)

unfoldable pub is_class_obj_ref : Value → Bool
is_class_obj_ref v = is_obj_ref v && (leb class_base (as_obj v) && ltb (as_obj v) object_base)

unfoldable pub is_object_obj_ref : Value → Bool
is_object_obj_ref v = is_obj_ref v && leb object_base (as_obj v)

unfoldable pub decode_func_id : Value → ℕ
decode_func_id v =
    if not (is_obj_ref v)
    then 0
    else if ltb (as_obj v) func_base || leb array_base (as_obj v)
    then 0
    else as_obj v - func_base

unfoldable pub make_func_handle : ℕ → Value
make_func_handle id = from_obj (func_base + id)

unfoldable pub decode_array_id : Value → ℕ
decode_array_id v =
    if not (is_obj_ref v)
    then 0
    else if ltb (as_obj v) array_base || leb mapping_base (as_obj v)
    then 0
    else as_obj v - array_base

unfoldable pub make_array_handle : ℕ → Value
make_array_handle id = from_obj (array_base + id)

unfoldable pub decode_mapping_id : Value → ℕ
decode_mapping_id v =
    if not (is_obj_ref v)
    then 0
    else if ltb (as_obj v) mapping_base || leb class_base (as_obj v)
    then 0
    else as_obj v - mapping_base

unfoldable pub make_mapping_handle : ℕ → Value
make_mapping_handle id = from_obj (mapping_base + id)

unfoldable pub decode_class_id : Value → ℕ
decode_class_id v =
    if not (is_obj_ref v)
    then 0
    else if ltb (as_obj v) class_base || leb object_base (as_obj v)
    then 0
    else as_obj v - class_base

unfoldable pub make_class_handle : ℕ → Value
make_class_handle id = from_obj (class_base + id)

unfoldable pub decode_object_id : Value → ℕ
decode_object_id v =
    if not (is_obj_ref v)
    then 0
    else if ltb (as_obj v) object_base
    then 0
    else as_obj v - object_base

unfoldable pub make_object_handle : ℕ → Value
make_object_handle id = from_obj (object_base + id)
