-- ===== src/Heap/State.antt =====
-- What a slot of the heap of vm/include/vm/runtime/vm.h can be, and which heaps are sound.
use lpc_interpreter.Prelude.{none, ◌≡◌, true, false, [], some, get_elem?}
use lpc_interpreter.Prelude.Int.{pos}
use lpc_interpreter.Verifier.Enqueue.{◌∈◌}
use lpc_interpreter.Value.Boxes.{unbox}
use lpc_interpreter.Value.Boxing
use lpc_interpreter.Heap.Pools.{LpcObject, Heap, Kind, Slot}
use lpc_interpreter.Heap.Sound.{IsSound, InUse}
use lpc_interpreter.Heap.Strings.{is_empty}
use lpc_interpreter.Heap.Texts.{text, IsIndexed}

pub record IsSoundHeap (h : Heap) : Type 0 where
  pub strings : IsIndexed h.strings
  pub arrays : IsSound h.arrays
  pub mappings : IsSound h.mappings
  pub classes : IsSound h.classes
  pub objects : IsSound h.objects
  pub closures : IsSound h.closures
  pub boxed_ints : Boxing.IsSound h.boxed_ints

-- The slot holds an entry.
abbrev pub IsUsed : Heap → Slot → Type 0
IsUsed h (Kind.strings, i) = is_empty (text h.strings i) ≡ false
IsUsed h (Kind.arrays, i) = InUse h.arrays i
IsUsed h (Kind.mappings, i) = InUse h.mappings i
IsUsed h (Kind.classes, i) = InUse h.classes i
IsUsed h (Kind.objects, i) = InUse h.objects i
IsUsed h (Kind.closures, i) = InUse h.closures i
IsUsed h (Kind.boxed_ints, i) = Boxing.InUse h.boxed_ints i

-- The slot is in the free list of its pool, from which allocation takes.
abbrev pub IsFree : Heap → Slot → Type 0
IsFree h (Kind.strings, i) = i ∈ h.strings.free
IsFree h (Kind.arrays, i) = i ∈ h.arrays.free
IsFree h (Kind.mappings, i) = i ∈ h.mappings.free
IsFree h (Kind.classes, i) = i ∈ h.classes.free
IsFree h (Kind.objects, i) = i ∈ h.objects.free
IsFree h (Kind.closures, i) = i ∈ h.closures.free
IsFree h (Kind.boxed_ints, i) = i ∈ h.boxed_ints.free

-- A destroyed object without globals, name and blueprint.
abbrev pub IsDestroyed : LpcObject → Type 0
IsDestroyed o =
    (o.globals ≡ []) × (o.module_name ≡ []) × (o.blueprint ≡ none) × (o.destroyed ≡ true)

-- The slot holds no more than an entry that was cleared.
abbrev pub IsCleared : Heap → Slot → Type 0
IsCleared h (Kind.strings, i) = text h.strings i ≡ []
IsCleared h (Kind.arrays, i) = get_elem? h.arrays.items i ≡ some []
IsCleared h (Kind.mappings, i) = get_elem? h.mappings.items i ≡ some []
IsCleared h (Kind.classes, i) =
    get_elem? h.classes.items i
    ≡ some (record { fields = []; template_id = 0xffff; module_version_id = 0; module_name = [] })
IsCleared h (Kind.objects, i) =
    (o : LpcObject) × (get_elem? h.objects.items i ≡ some o) × IsDestroyed o
IsCleared h (Kind.closures, i) =
    get_elem? h.closures.items i
    ≡ some (record { func_id = 0; module_version_id = 0; upvalues = [] })
IsCleared h (Kind.boxed_ints, i) = unbox h.boxed_ints i ≡ pos 0

-- The slot holds the same entry in both heaps.
abbrev pub Same : Heap → Heap → Slot → Type 0
Same h h' (Kind.strings, i) = text h'.strings i ≡ text h.strings i
Same h h' (Kind.arrays, i) = get_elem? h'.arrays.items i ≡ get_elem? h.arrays.items i
Same h h' (Kind.mappings, i) = get_elem? h'.mappings.items i ≡ get_elem? h.mappings.items i
Same h h' (Kind.classes, i) = get_elem? h'.classes.items i ≡ get_elem? h.classes.items i
Same h h' (Kind.objects, i) = get_elem? h'.objects.items i ≡ get_elem? h.objects.items i
Same h h' (Kind.closures, i) = get_elem? h'.closures.items i ≡ get_elem? h.closures.items i
Same h h' (Kind.boxed_ints, i) = unbox h'.boxed_ints i ≡ unbox h.boxed_ints i
