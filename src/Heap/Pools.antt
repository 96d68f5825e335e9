-- ===== src/Heap/Pools.antt =====
-- The pools of heap objects that vm/include/vm/runtime/vm.h declares, and what a value refers to.
use lpc_interpreter.Prelude.{
  ℕ, zero, suc, ◌-◌, Bool, not, ◌&&◌, List, [], ◌∷◌, Option, none, some, ltb, leb, if◌then◌else◌,
  length, get_or,
}
use lpc_interpreter.Value.Word.{
  Value, is_obj_ref, is_closure, is_boxed_int, as_obj, closure_id, boxed_int_idx,
}
use lpc_interpreter.Value.Handles.{
  func_base, array_base, mapping_base, class_base, object_base, is_s_const_string_raw,
  decode_string_index,
}
use lpc_interpreter.Value.Boxes.{BoxedInts}
use lpc_interpreter.Chunk.Reader.{Bytes}
use lpc_interpreter.Chunk.Records.{Chunk}

-- A pool: its slots, the free ones with the back of the vector first, and a flag for each slot.
pub record Pool (A : Type 0) : Type 0 where
  pub items : List A
  pub free : List ℕ
  pub slot_free : List Bool

-- `LpcClosure`, with its upvalues.
pub record LpcClosure : Type 0 where
  pub func_id : ℕ
  pub module_version_id : ℕ
  pub upvalues : List Value

-- The entries of `class_fields_`, `class_template_ids_`, `class_module_version_ids_` and
-- `class_module_names_` at one index.
pub record ClassInstance : Type 0 where
  pub fields : List Value
  pub template_id : ℕ
  pub module_version_id : ℕ
  pub module_name : Bytes

pub record LpcObject : Type 0 where
  pub module_name : Bytes
  pub module_version_id : ℕ
  pub blueprint : Option Chunk
  pub globals : List Value
  pub destroyed : Bool

-- `string_heap_`, `string_free_` and `string_intern_`. A free slot holds the empty text.
pub record StringPool : Type 0 where
  pub texts : List Bytes
  pub free : List ℕ
  pub intern : List (Bytes × Value)

-- An array is its elements, a mapping its entries in the order of the table.
pub record Heap : Type 0 where
  pub strings : StringPool
  pub arrays : Pool (List Value)
  pub mappings : Pool (List (Value × Value))
  pub classes : Pool ClassInstance
  pub objects : Pool LpcObject
  pub closures : Pool LpcClosure
  pub boxed_ints : BoxedInts
  pub alloc_count : ℕ

pub data Kind : Type 0 where
  strings arrays mappings classes objects closures boxed_ints : Kind

abbrev pub Slot : Type 0
Slot = Kind × ℕ

unfoldable pub size : Heap → Kind → ℕ
size h Kind.strings = length (h.strings.texts)
size h Kind.arrays = length (h.arrays.items)
size h Kind.mappings = length (h.mappings.items)
size h Kind.classes = length (h.classes.items)
size h Kind.objects = length (h.objects.items)
size h Kind.closures = length (h.closures.items)
size h Kind.boxed_ints = length (h.boxed_ints.ints)

-- The keys and values of `ForEachEntry`.
unfoldable pub entry_values : List (Value × Value) → List Value
entry_values [] = []
entry_values ((k, v) ∷ es) = k ∷ v ∷ entry_values es

unfoldable pub upvalues_at : List LpcClosure → ℕ → List Value
upvalues_at [] i = []
upvalues_at (c ∷ cs) zero = c.upvalues
upvalues_at (c ∷ cs) (suc i) = upvalues_at cs i

unfoldable pub fields_at : List ClassInstance → ℕ → List Value
fields_at [] i = []
fields_at (c ∷ cs) zero = c.fields
fields_at (c ∷ cs) (suc i) = fields_at cs i

unfoldable pub globals_at : List LpcObject → ℕ → List Value
globals_at [] i = []
globals_at (o ∷ os) zero = o.globals
globals_at (o ∷ os) (suc i) = globals_at os i

-- The values that a slot holds, in the order in which they are marked.
unfoldable pub refs : Heap → Slot → List Value
refs h (Kind.strings, i) = []
refs h (Kind.arrays, i) = get_or h.arrays.items i []
refs h (Kind.mappings, i) = entry_values (get_or h.mappings.items i [])
refs h (Kind.classes, i) = fields_at h.classes.items i
refs h (Kind.objects, i) = globals_at h.objects.items i
refs h (Kind.closures, i) = upvalues_at h.closures.items i
refs h (Kind.boxed_ints, i) = []

-- `idx < pool.size()`
unfoldable pub slot_at : Heap → Kind → ℕ → Option Slot
slot_at h k idx = if ltb idx (size h k) then some (k, idx) else none

-- `id > 0 && id <= pool.size()`: ids count from 1.
unfoldable pub slot_of_id : Heap → Kind → ℕ → Option Slot
slot_of_id h k id = if ltb 0 id && leb id (size h k) then some (k, id - 1) else none

-- The slot of a reference, by the range of its payload. The vectors of marks have the sizes of their
-- pools.
unfoldable pub slot_of_ref : Heap → ℕ → Option Slot
slot_of_ref h raw =
    if ltb 0 raw && ltb raw func_base
    then (if not (is_s_const_string_raw raw)
        then slot_at h Kind.strings (decode_string_index raw)
        else none)
    else if leb array_base raw && ltb raw mapping_base
    then slot_of_id h Kind.arrays (raw - array_base)
    else if leb mapping_base raw && ltb raw class_base
    then slot_of_id h Kind.mappings (raw - mapping_base)
    else if leb class_base raw && ltb raw object_base
    then slot_of_id h Kind.classes (raw - class_base)
    else if leb object_base raw
    then slot_of_id h Kind.objects (raw - object_base)
    else none

-- The slot that `MarkValue` goes to. A closure id of 0 wraps to an index that is too large.
unfoldable pub target : Heap → Value → Option Slot
target h v =
    if is_obj_ref v
    then slot_of_ref h (as_obj v)
    else if is_closure v
    then slot_of_id h Kind.closures (closure_id v)
    else if is_boxed_int v
    then slot_at h Kind.boxed_ints (boxed_int_idx v)
    else none
