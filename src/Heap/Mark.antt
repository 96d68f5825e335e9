-- ===== src/Heap/Mark.antt =====
-- `MarkValue` and `MarkReachable` of vm/src/runtime/vm_gc.cpp.
use lpc_interpreter.Prelude.{
  ℕ, zero, suc, ◌+◌, ◌==◌, Bool, true, false, List, [], ◌∷◌, Option, none, some, if◌then◌else◌,
  get_or, set, replicate,
}
use lpc_interpreter.Value.Word.{Value}
use lpc_interpreter.Optimizer.Base.{◌>>=◌}
use lpc_interpreter.Heap.Pools.{Heap, Kind, Slot, size, refs, slot_at, slot_of_id, target}

-- The seven vectors of marks.
abbrev pub Marks : Type 0
Marks = Kind → List Bool

abbrev pub kind_index : Kind → ℕ
kind_index Kind.strings = 0
kind_index Kind.arrays = 1
kind_index Kind.mappings = 2
kind_index Kind.classes = 3
kind_index Kind.objects = 4
kind_index Kind.closures = 5
kind_index Kind.boxed_ints = 6

unfoldable pub has_mark : Marks → Slot → Bool
has_mark m (k, i) = get_or (m k) i false

unfoldable pub set_mark : Marks → Slot → Marks
set_mark m (k, i) k' = if kind_index k == kind_index k' then set (m k') i true else m k'

-- The loop over values, each marked by `go`.
unfoldable pub mark_values : (Value → Marks → Option Marks) → List Value → Marks → Option Marks
mark_values go [] m = some m
mark_values go (v ∷ vs) m = do m' ← go v m; mark_values go vs m'

-- A slot that has its mark is left.
unfoldable pub mark_unless :
    Bool → (Value → Marks → Option Marks) → Heap → Slot → Marks → Option Marks
mark_unless true go h s m = some m
mark_unless false go h s m = mark_values go (refs h s) (set_mark m s)

unfoldable pub mark_target :
    (Value → Marks → Option Marks) → Heap → Option Slot → Marks → Option Marks
mark_target go h none m = some m
mark_target go h (some s) m = mark_unless (has_mark m s) go h s m

-- `MarkValue`. Each call but the last sets a mark that was not set, so one more than the slots are
-- fuel enough.
unfoldable pub mark_value : ℕ → Heap → Value → Marks → Option Marks
mark_value zero h v m = none
mark_value (suc fuel) h v m = mark_target (mark_value fuel h) h (target h v) m

-- A slot that is a root gets its mark, and its values are marked whether it had one or not.
unfoldable pub mark_root :
    (Value → Marks → Option Marks) → Heap → Option Slot → Marks → Option Marks
mark_root go h none m = some m
mark_root go h (some s) m = mark_values go (refs h s) (set_mark m s)

-- `closure_slot` and `object_id` of a frame.
pub record Frame : Type 0 where
  pub closure_slot : ℕ
  pub object_id : ℕ

-- The fields of a timer that the collector reads.
pub record TimerTask : Type 0 where
  pub callee : Value
  pub args : List Value
  pub cancelled : Bool

-- What the collector starts from: the values on the stack with the bottom first, the frames, the
-- timers, the last result and the current object.
pub record Roots : Type 0 where
  pub stack : List Value
  pub frames : List Frame
  pub timers : List TimerTask
  pub last_result : Value
  pub current_object_id : ℕ

unfoldable pub mark_frames :
    (Value → Marks → Option Marks) → Heap → List Frame → Marks → Option Marks
mark_frames go h [] m = some m
mark_frames go h (f ∷ fs) m = do
  m₁ ← mark_root go h (slot_at h Kind.closures f.closure_slot) m
  m₂ ← mark_root go h (slot_of_id h Kind.objects f.object_id) m₁
  mark_frames go h fs m₂

unfoldable pub mark_timers : (Value → Marks → Option Marks) → List TimerTask → Marks → Option Marks
mark_timers go [] m = some m
mark_timers go (t ∷ ts) m = do
  m' ← if t.cancelled then some m else mark_values go (t.callee ∷ t.args) m
  mark_timers go ts m'

unfoldable pub no_marks : Heap → Marks
no_marks h k = replicate (size h k) false

-- How many slots there are.
unfoldable pub slots : Heap → ℕ
slots h =
    size h Kind.strings
    + size h Kind.arrays
    + size h Kind.mappings
    + size h Kind.classes
    + size h Kind.objects
    + size h Kind.closures
    + size h Kind.boxed_ints

-- `MarkReachable`.
unfoldable pub mark_from_roots : Heap → Roots → Option Marks
mark_from_roots h r =
    let go = mark_value (suc (slots h)) h in
    do
      m₁ ← mark_values go r.stack (no_marks h)
      m₂ ← mark_frames go h r.frames m₁
      m₃ ← mark_timers go r.timers m₂
      m₄ ← go r.last_result m₃
      mark_target go h (slot_of_id h Kind.objects r.current_object_id) m₄
