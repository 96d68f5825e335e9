-- ===== src/Value/Pools.antt =====
-- What a handle of vm/include/vm/value/objref.h names, and that it is found again.
use Prim.Native.Nat
use lpc_interpreter.Prelude.{
  ℕ, ◌+◌, ◌-◌, ◌*◌, ◌%◌, ◌^◌, ◌<◌, ◌≡◌, ◌∙◌, ap, refl, Bool, true, false, Option, none, some,
  if◌then◌else◌, ◌==◌, ltb, leb, ◌&&◌, List, [], ◌∷◌, arith,
}
use lpc_interpreter.Value.Word.{Value, is_obj_ref, as_obj, from_obj}
use lpc_interpreter.Value.Bits.{bit_or-parts, bit_and-low, bit_or-none}
use lpc_interpreter.Value.RoundTrip.{tag-from_obj, as_obj-from_obj}
use lpc_interpreter.Value.Handles.{
  func_base, array_base, mapping_base, class_base, object_base, is_s_const_string_raw,
  decode_string_index, make_s_const_handle, make_heap_string_handle, is_string_obj_ref,
  is_func_obj_ref, is_array_obj_ref, is_mapping_obj_ref, is_class_obj_ref, is_object_obj_ref,
  decode_func_id, make_func_handle, decode_array_id, make_array_handle, decode_mapping_id,
  make_mapping_handle, decode_class_id, make_class_handle, decode_object_id, make_object_handle,
}

-- An entry of a pool.
pub data Handle : Type 0 where
  const_string : ℕ → Handle
  heap_string : ℕ → Handle
  func : ℕ → Handle
  array : ℕ → Handle
  mapping : ℕ → Handle
  class_instance : ℕ → Handle
  object : ℕ → Handle

-- The handle of an entry.
unfoldable pub make : Handle → Value
make (Handle.const_string i) = make_s_const_handle i
make (Handle.heap_string i) = make_heap_string_handle i
make (Handle.func i) = make_func_handle i
make (Handle.array i) = make_array_handle i
make (Handle.mapping i) = make_mapping_handle i
make (Handle.class_instance i) = make_class_handle i
make (Handle.object i) = make_object_handle i

-- The entry of a handle, by the tests and the accessors.
unfoldable pub name : Value → Option Handle
name v =
    if is_object_obj_ref v
    then some (Handle.object (decode_object_id v))
    else if is_class_obj_ref v
    then some (Handle.class_instance (decode_class_id v))
    else if is_mapping_obj_ref v
    then some (Handle.mapping (decode_mapping_id v))
    else if is_array_obj_ref v
    then some (Handle.array (decode_array_id v))
    else if is_func_obj_ref v
    then some (Handle.func (decode_func_id v))
    else if is_string_obj_ref v
    then some (
        if is_s_const_string_raw (as_obj v)
        then Handle.const_string (decode_string_index (as_obj v))
        else Handle.heap_string (decode_string_index (as_obj v)))
    else none

-- The indices that the range of each pool has room for.
abbrev pub InRange : Handle → Type 0
InRange (Handle.const_string i) = i < 2 ^ 30 - 1
InRange (Handle.heap_string i) = i < 2 ^ 30 - 1
InRange (Handle.func i) = i < 2 ^ 31
InRange (Handle.array i) = i < 2 ^ 32
InRange (Handle.mapping i) = i < 2 ^ 32
InRange (Handle.class_instance i) = i < 2 ^ 32
InRange (Handle.object i) = i < 2 ^ 47 - 2 ^ 34

pub is_obj_ref-from_obj : (raw : ℕ) → is_obj_ref (from_obj raw) ≡ true
unfolding is_obj_ref
is_obj_ref-from_obj raw = rw (is_obj_ref, tag-from_obj raw)

unfoldable name_raw : ℕ → Handle
unfolding is_s_const_string_raw decode_string_index
name_raw raw =
    if leb object_base raw
    then Handle.object (raw - object_base)
    else if leb class_base raw
    then Handle.class_instance (raw - class_base)
    else if leb mapping_base raw
    then Handle.mapping (raw - mapping_base)
    else if leb array_base raw
    then Handle.array (raw - array_base)
    else if leb func_base raw
    then Handle.func (raw - func_base)
    else if raw % 2 == 1
    then Handle.const_string (decode_string_index raw)
    else Handle.heap_string (decode_string_index raw)

-- A reference is named by the range of its payload.
name-from_obj : (raw : ℕ) → 0 < raw → raw < 2 ^ 47 → name (from_obj raw) ≡ some (name_raw raw)
unfolding name name_raw is_s_const_string_raw decode_string_index is_string_obj_ref is_func_obj_ref
    is_array_obj_ref is_mapping_obj_ref is_class_obj_ref is_object_obj_ref decode_func_id
    decode_array_id decode_mapping_id decode_class_id decode_object_id
name-from_obj raw positive fits =
    rw (is_obj_ref-from_obj raw, as_obj-from_obj raw fits, bit_and-low 1 raw) (ground arith)

name_raw-const : (i : ℕ) → i < 2 ^ 30 - 1 → name_raw ((i + 1) * 2 + 1) ≡ Handle.const_string i
unfolding name_raw decode_string_index
name_raw-const i fits = ground arith

name_raw-heap : (i : ℕ) → i < 2 ^ 30 - 1 → name_raw ((i + 1) * 2) ≡ Handle.heap_string i
unfolding name_raw decode_string_index
name_raw-heap i fits = ground arith

name_raw-func : (i : ℕ) → i < 2 ^ 31 → name_raw (func_base + i) ≡ Handle.func i
unfolding name_raw
name_raw-func i fits = ground arith

name_raw-array : (i : ℕ) → i < 2 ^ 32 → name_raw (array_base + i) ≡ Handle.array i
unfolding name_raw
name_raw-array i fits = ground arith

name_raw-mapping : (i : ℕ) → i < 2 ^ 32 → name_raw (mapping_base + i) ≡ Handle.mapping i
unfolding name_raw
name_raw-mapping i fits = ground arith

name_raw-class : (i : ℕ) → i < 2 ^ 32 → name_raw (class_base + i) ≡ Handle.class_instance i
unfolding name_raw
name_raw-class i fits = ground arith

name_raw-object : (i : ℕ) → name_raw (object_base + i) ≡ Handle.object i
unfolding name_raw
name_raw-object i = ground arith

tag_digit : (i : ℕ) → Nat.bit_or ((i + 1) * 2) 1 ≡ (i + 1) * 2 + 1
tag_digit i = omega (
  arith,
  bit_or-parts 1 (i + 1) 0 0 1 {a = (i + 1) * 2} {b = 1} (omega arith) refl (omega arith)
      (omega arith),
  bit_or-none (i + 1),
)

-- The answers of the tests for a string, a function, an array, a mapping, a class and an object.
abbrev pub tests : Value → List Bool
tests v =
    is_string_obj_ref v
    ∷ is_func_obj_ref v
    ∷ is_array_obj_ref v
    ∷ is_mapping_obj_ref v
    ∷ is_class_obj_ref v
    ∷ is_object_obj_ref v
    ∷ []

-- The answers that each kind of entry should get.
abbrev pub tests_of : Handle → List Bool
tests_of (Handle.const_string i) = true ∷ false ∷ false ∷ false ∷ false ∷ false ∷ []
tests_of (Handle.heap_string i) = true ∷ false ∷ false ∷ false ∷ false ∷ false ∷ []
tests_of (Handle.func i) = false ∷ true ∷ false ∷ false ∷ false ∷ false ∷ []
tests_of (Handle.array i) = false ∷ false ∷ true ∷ false ∷ false ∷ false ∷ []
tests_of (Handle.mapping i) = false ∷ false ∷ false ∷ true ∷ false ∷ false ∷ []
tests_of (Handle.class_instance i) = false ∷ false ∷ false ∷ false ∷ true ∷ false ∷ []
tests_of (Handle.object i) = false ∷ false ∷ false ∷ false ∷ false ∷ true ∷ []

-- The tests compare the payload with the ranges.
abbrev range_tests : ℕ → List Bool
range_tests raw =
    (ltb 0 raw && ltb raw func_base)
    ∷ (leb func_base raw && ltb raw array_base)
    ∷ (leb array_base raw && ltb raw mapping_base)
    ∷ (leb mapping_base raw && ltb raw class_base)
    ∷ (leb class_base raw && ltb raw object_base)
    ∷ leb object_base raw
    ∷ []

tests-from_obj : (raw : ℕ) → raw < 2 ^ 47 → tests (from_obj raw) ≡ range_tests raw
unfolding is_string_obj_ref is_func_obj_ref is_array_obj_ref is_mapping_obj_ref is_class_obj_ref
    is_object_obj_ref
tests-from_obj raw fits = rw (is_obj_ref-from_obj raw, as_obj-from_obj raw fits) refl

tests-make : (h : Handle) → InRange h → tests (make h) ≡ tests_of h
unfolding make make_s_const_handle make_heap_string_handle make_func_handle make_array_handle
    make_mapping_handle make_class_handle make_object_handle
tests-make (Handle.const_string i) fits =
    rw (tag_digit i) (tests-from_obj ((i + 1) * 2 + 1) (omega arith) ∙ (ground arith))
tests-make (Handle.heap_string i) fits =
    rw (bit_or-none ((i + 1) * 2)) (tests-from_obj ((i + 1) * 2) (omega arith) ∙ (ground arith))
tests-make (Handle.func i) fits = tests-from_obj (func_base + i) (omega arith) ∙ (ground arith)
tests-make (Handle.array i) fits = tests-from_obj (array_base + i) (omega arith) ∙ (ground arith)
tests-make (Handle.mapping i) fits =
    tests-from_obj (mapping_base + i) (omega arith) ∙ (ground arith)
tests-make (Handle.class_instance i) fits =
    tests-from_obj (class_base + i) (omega arith) ∙ (ground arith)
tests-make (Handle.object i) fits = tests-from_obj (object_base + i) (omega arith) ∙ (ground arith)

make_name : (h : Handle) → InRange h → name (make h) ≡ some h
unfolding make make_s_const_handle make_heap_string_handle make_func_handle make_array_handle
    make_mapping_handle make_class_handle make_object_handle
make_name (Handle.const_string i) fits =
    rw (tag_digit i) (
      name-from_obj ((i + 1) * 2 + 1) (omega arith) (omega arith) ∙ ap some (name_raw-const i fits))
make_name (Handle.heap_string i) fits =
    rw (bit_or-none ((i + 1) * 2))
      (name-from_obj ((i + 1) * 2) (omega arith) (omega arith) ∙ ap some (name_raw-heap i fits))
make_name (Handle.func i) fits =
    name-from_obj (func_base + i) (omega arith) (omega arith) ∙ ap some (name_raw-func i fits)
make_name (Handle.array i) fits =
    name-from_obj (array_base + i) (omega arith) (omega arith) ∙ ap some (name_raw-array i fits)
make_name (Handle.mapping i) fits =
    name-from_obj (mapping_base + i) (omega arith) (omega arith) ∙ ap some (name_raw-mapping i fits)
make_name (Handle.class_instance i) fits =
    name-from_obj (class_base + i) (omega arith) (omega arith) ∙ ap some (name_raw-class i fits)
make_name (Handle.object i) fits =
    name-from_obj (object_base + i) (omega arith) (omega arith) ∙ ap some (name_raw-object i)

-- The handle of every entry whose index the range of its pool has room for is accepted by the test
-- for its kind and by none of the other five, and its index is read back.
pub name-make : (h : Handle) → InRange h → (name (make h) ≡ some h) × (tests (make h) ≡ tests_of h)
name-make h fits = (make_name h fits, tests-make h fits)

abbrev count : Bool → ℕ
count true = 1
count false = 0

-- How many of the six tests accept the value.
abbrev pub kinds : Value → ℕ
kinds v =
    count (is_string_obj_ref v)
    + count (is_func_obj_ref v)
    + count (is_array_obj_ref v)
    + count (is_mapping_obj_ref v)
    + count (is_class_obj_ref v)
    + count (is_object_obj_ref v)

-- Every reference but the one with payload 0 is accepted by exactly one of the six tests.
pub one_kind : (v : Value) → is_obj_ref v ≡ true → 0 < as_obj v → kinds v ≡ 1
unfolding is_array_obj_ref is_class_obj_ref is_func_obj_ref is_mapping_obj_ref is_object_obj_ref
    is_string_obj_ref
one_kind v ref positive = rw ref (ground arith)
