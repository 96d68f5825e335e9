-- ===== src/Heap/Swept.antt =====
-- `Sweep` of vm/src/runtime/vm_gc.cpp over all pools of the heap.
use lpc_interpreter.Prelude.{
  ℕ, zero, suc, ◌+◌, ◌≤◌, get_or, List, ◌∷◌, length, ◌<◌, ◌≡◌, ◌∙◌, refl, ap, true, false, [], some,
  get_elem?, arith,
}
use lpc_interpreter.Prelude.Int.{pos}
use lpc_interpreter.Value.Boxes.{BoxedInts, unbox}
use lpc_interpreter.Value.Boxing
use lpc_interpreter.Value.Sweeping
use lpc_interpreter.Value.Sweeping.{sweep_boxes-Swept}
use lpc_interpreter.Heap.Pools.{Pool, Heap, Kind, Slot, size}
use lpc_interpreter.Heap.Mark.{Marks, has_mark}
use lpc_interpreter.Heap.Marked.{On}
use lpc_interpreter.Heap.Sound.{InUse}
use lpc_interpreter.Heap.Strings.{is_empty}
use lpc_interpreter.Heap.Interning.{text-lt, SweptTexts, sweep_strings-SweptTexts}
use lpc_interpreter.Heap.Sweeping.{Swept, sweep_slots-Swept}
use lpc_interpreter.Heap.Sweep.{clear_list, clear_class, clear_closure, clear_object, sweep_heap}
use lpc_interpreter.Heap.State.{IsSoundHeap, IsUsed, IsFree, IsCleared, Same}

entry_at : {A : Type 0} (xs : List A) (i : ℕ) → i < length xs → (x : A) × (get_elem? xs i ≡ some x)
entry_at [] i lt = elim lt [ ]
entry_at (x ∷ xs) zero lt = (x, refl)
entry_at (x ∷ xs) (suc i) lt = entry_at xs i (omega arith)

unbox-free : (p : BoxedInts) (i : ℕ) → Boxing.is_free p i ≡ true → unbox p i ≡ pos 0
unfolding unbox
unbox-free p i flag = rw flag (ground arith)

-- Heap h' after the sweep of h with marks m.
pub record SweptHeap (m : Marks) (h h' : Heap) : Type 0 where
  pub sound : IsSoundHeap h'
  pub sizes : (k : Kind) → size h' k ≡ size h k
  pub keeps : (s : Slot) → On m s → IsUsed h s → IsUsed h' s × Same h h' s
  pub frees : (k : Kind) (i : ℕ) → has_mark m (k, i) ≡ false → i < size h k → IsFree h' (k, i)
  pub clears : (s : Slot) → has_mark m s ≡ false → IsUsed h s → IsCleared h' s

-- The heap at the end of a collection with marks m.
abbrev pub finished : Marks → Heap → Heap
finished m h = record (sweep_heap m h) { alloc_count = 0 }

module _ (m : Marks) (h : Heap) (s : IsSoundHeap h) where
  -- A loop over a whole pool.
  abbrev All : Kind → ℕ → Type 0
  All k j = (0 ≤ j) × (j < 0 + size h k)

  lt-All : (k : Kind) (i : ℕ) → i < size h k → All k i
  lt-All k i lt = (omega arith, omega (arith, lt))

  arrays-Swept : Swept clear_list (m Kind.arrays) (All Kind.arrays) h.arrays (finished m h).arrays
  unfolding sweep_heap size
  arrays-Swept = sweep_slots-Swept clear_list _ _ 0 h.arrays s.arrays (omega arith)

  mappings-Swept :
      Swept clear_list (m Kind.mappings) (All Kind.mappings) h.mappings (finished m h).mappings
  unfolding sweep_heap size
  mappings-Swept = sweep_slots-Swept clear_list _ _ 0 h.mappings s.mappings (omega arith)

  classes-Swept :
      Swept clear_class (m Kind.classes) (All Kind.classes) h.classes (finished m h).classes
  unfolding sweep_heap size
  classes-Swept = sweep_slots-Swept clear_class _ _ 0 h.classes s.classes (omega arith)

  objects-Swept :
      Swept clear_object (m Kind.objects) (All Kind.objects) h.objects (finished m h).objects
  unfolding sweep_heap size
  objects-Swept = sweep_slots-Swept clear_object _ _ 0 h.objects s.objects (omega arith)

  closures-Swept :
      Swept clear_closure (m Kind.closures) (All Kind.closures) h.closures (finished m h).closures
  unfolding sweep_heap size
  closures-Swept = sweep_slots-Swept clear_closure _ _ 0 h.closures s.closures (omega arith)

  boxed_ints-Swept :
      Sweeping.Swept
        (m Kind.boxed_ints)
        (All Kind.boxed_ints)
        h.boxed_ints
        (finished m h).boxed_ints
  unfolding sweep_heap size
  boxed_ints-Swept = sweep_boxes-Swept _ _ 0 h.boxed_ints s.boxed_ints (omega arith)

  strings-SweptTexts :
      SweptTexts (m Kind.strings) (All Kind.strings) h.strings (finished m h).strings
  unfolding sweep_heap size
  strings-SweptTexts = sweep_strings-SweptTexts _ _ 0 h.strings s.strings

  finished-IsSoundHeap : IsSoundHeap (finished m h)
  finished-IsSoundHeap = record {
    strings = strings-SweptTexts.indexed;
    arrays = arrays-Swept.sound;
    mappings = mappings-Swept.sound;
    classes = classes-Swept.sound;
    objects = objects-Swept.sound;
    closures = closures-Swept.sound;
    boxed_ints = boxed_ints-Swept.sound;
  }

  size-finished : (k : Kind) → size (finished m h) k ≡ size h k
  unfolding size
  size-finished Kind.strings = strings-SweptTexts.size
  size-finished Kind.arrays = arrays-Swept.size
  size-finished Kind.mappings = mappings-Swept.size
  size-finished Kind.classes = classes-Swept.size
  size-finished Kind.objects = objects-Swept.size
  size-finished Kind.closures = closures-Swept.size
  size-finished Kind.boxed_ints = boxed_ints-Swept.size

  finished_keeps :
      (t : Slot) → On m t → IsUsed h t → IsUsed (finished m h) t × Same h (finished m h) t
  unfolding has_mark
  finished_keeps (Kind.strings, i) on used =
      let same = strings-SweptTexts.keeps i on in (ap is_empty same ∙ used, same)
  finished_keeps (Kind.arrays, i) on used = arrays-Swept.keeps i on used
  finished_keeps (Kind.mappings, i) on used = mappings-Swept.keeps i on used
  finished_keeps (Kind.classes, i) on used = classes-Swept.keeps i on used
  finished_keeps (Kind.objects, i) on used = objects-Swept.keeps i on used
  finished_keeps (Kind.closures, i) on used = closures-Swept.keeps i on used
  finished_keeps (Kind.boxed_ints, i) on used = boxed_ints-Swept.keeps i on used

  finished_frees :
      (k : Kind) (i : ℕ) → has_mark m (k, i) ≡ false → i < size h k → IsFree (finished m h) (k, i)
  unfolding has_mark size
  finished_frees Kind.strings i off lt =
      strings-SweptTexts.indexed.vacant i (omega (arith, strings-SweptTexts.size, lt))
        (strings-SweptTexts.empties i (lt-All Kind.strings i lt) off)
  finished_frees Kind.arrays i off lt = arrays-Swept.given_back i (lt-All Kind.arrays i lt) lt off
  finished_frees Kind.mappings i off lt =
      mappings-Swept.given_back i (lt-All Kind.mappings i lt) lt off
  finished_frees Kind.classes i off lt =
      classes-Swept.given_back i (lt-All Kind.classes i lt) lt off
  finished_frees Kind.objects i off lt =
      objects-Swept.given_back i (lt-All Kind.objects i lt) lt off
  finished_frees Kind.closures i off lt =
      closures-Swept.given_back i (lt-All Kind.closures i lt) lt off
  finished_frees Kind.boxed_ints i off lt =
      boxed_ints-Swept.given_back i (lt-All Kind.boxed_ints i lt) lt off

  -- The entry of a slot that was in use and has no mark.
  cleared_entry :
      {A : Type 0} {clear : A → A} (k : Kind) (p q : Pool A) (i : ℕ)
      → Swept clear (m k) (All k) p q
      → length p.items ≡ size h k
      → InUse p i
      → get_or (m k) i false ≡ false
      → (x : A) × (get_elem? q.items i ≡ some (clear x))
  cleared_entry k p q i swept same (lt, used) off =
      let (x, read) = entry_at p.items i lt in
      (x, swept.clears i x (lt-All k i (omega (arith, same, lt))) off used read)

  finished_clears : (t : Slot) → has_mark m t ≡ false → IsUsed h t → IsCleared (finished m h) t
  unfolding has_mark size clear_list clear_class clear_object clear_closure
  finished_clears (Kind.strings, i) off used =
      strings-SweptTexts.empties i (lt-All Kind.strings i (text-lt h.strings.texts i used)) off
  finished_clears (Kind.arrays, i) off used =
      (cleared_entry Kind.arrays h.arrays _ i arrays-Swept refl used off).1
  finished_clears (Kind.mappings, i) off used =
      (cleared_entry Kind.mappings h.mappings _ i mappings-Swept refl used off).1
  finished_clears (Kind.classes, i) off used =
      (cleared_entry Kind.classes h.classes _ i classes-Swept refl used off).1
  finished_clears (Kind.objects, i) off used =
      let (o, read) = cleared_entry Kind.objects h.objects _ i objects-Swept refl used off in
      (clear_object o, read, (refl, refl, refl, refl))
  finished_clears (Kind.closures, i) off used =
      (cleared_entry Kind.closures h.closures _ i closures-Swept refl used off).1
  finished_clears (Kind.boxed_ints, i) off used =
      unbox-free (finished m h).boxed_ints i
        (boxed_ints-Swept.frees i (lt-All Kind.boxed_ints i used.0) off)

  -- `Sweep` keeps what has its mark and gives back and clears the rest.
  pub finished-SweptHeap : SweptHeap m h (finished m h)
  finished-SweptHeap = record {
    sound = finished-IsSoundHeap;
    sizes = size-finished;
    keeps = finished_keeps;
    frees = finished_frees;
    clears = finished_clears;
  }
