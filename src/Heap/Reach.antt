-- ===== src/Heap/Reach.antt =====
-- `MarkValue` of vm/src/runtime/vm_gc.cpp marks what a value leads to.
use lpc_interpreter.Prelude.{
  ℕ, zero, suc, ◌<◌, ◌≡◌, ◌∙◌, refl, ap, sym, subst, ◌⊎◌, inl, inr, Bool, true, false, not, ◌&&◌,
  List, [], ◌∷◌, Option, none, some, ltb, leb, if◌then◌else◌, Bool-cases, ltb→lt, arith,
}
use mathlib.Core.Option.{some-injective, none-ne-some}
use lpc_interpreter.Value.Word.{
  Value, is_obj_ref, is_closure, is_boxed_int, as_obj, closure_id, boxed_int_idx,
}
use lpc_interpreter.Value.Handles.{
  func_base, array_base, mapping_base, class_base, object_base, is_s_const_string_raw,
}
use lpc_interpreter.Optimizer.Base.{◌>>=◌}
use lpc_interpreter.Heap.Pools.{
  Heap, Kind, Slot, size, refs, slot_at, slot_of_id, slot_of_ref, target,
}
use lpc_interpreter.Heap.Mark.{
  Marks, has_mark, set_mark, mark_values, mark_unless, mark_target, mark_value, mark_root,
}
use lpc_interpreter.Heap.Marked.{
  On, Points, Fits, Marked, unmarked_slots, Marked-none, Marked-iff, Marked-join,
}
use lpc_interpreter.Heap.Setting.{
  set_mark-Fits, unmarked-set_mark_le, unmarked-set_mark_lt, Marked-slot,
}

pub data InHeap (h : Heap) : Option Slot → Type 0 where
  no_slot : InHeap h none
  slot : {k : Kind} {i : ℕ} → i < size h k → InHeap h (some (k, i))

InHeap-if :
    {h : Heap} (b : Bool) {x y : Option Slot}
    → (b ≡ true → InHeap h x)
    → InHeap h y
    → InHeap h (if b then x else y)
InHeap-if true hx hy = hx refl
InHeap-if false hx hy = hy

pub slot_at-InHeap : (h : Heap) (k : Kind) (i : ℕ) → InHeap h (slot_at h k i)
unfolding slot_at
slot_at-InHeap h k i = InHeap-if (ltb i (size h k)) (λ e. slot (ltb→lt _ _ e)) no_slot

pub slot_of_id-InHeap : (h : Heap) (k : Kind) (id : ℕ) → InHeap h (slot_of_id h k id)
unfolding slot_of_id
slot_of_id-InHeap h k id =
    InHeap-if (ltb 0 id && leb id (size h k)) (λ e. slot (ground arith)) no_slot

slot_of_ref-InHeap : (h : Heap) (raw : ℕ) → InHeap h (slot_of_ref h raw)
unfolding slot_of_ref
slot_of_ref-InHeap h raw =
    InHeap-if (ltb 0 raw && ltb raw func_base)
      (λ _.
        InHeap-if (not (is_s_const_string_raw raw)) (λ _. slot_at-InHeap h Kind.strings _) no_slot)
      (InHeap-if (leb array_base raw && ltb raw mapping_base)
        (λ _. slot_of_id-InHeap h Kind.arrays _)
        (InHeap-if (leb mapping_base raw && ltb raw class_base)
          (λ _. slot_of_id-InHeap h Kind.mappings _)
          (InHeap-if (leb class_base raw && ltb raw object_base)
            (λ _. slot_of_id-InHeap h Kind.classes _)
            (InHeap-if (leb object_base raw) (λ _. slot_of_id-InHeap h Kind.objects _) no_slot))))

pub target-InHeap : (h : Heap) (v : Value) → InHeap h (target h v)
unfolding target
target-InHeap h v =
    InHeap-if (is_obj_ref v) (λ _. slot_of_ref-InHeap h (as_obj v))
      (InHeap-if (is_closure v) (λ _. slot_of_id-InHeap h Kind.closures (closure_id v))
        (InHeap-if (is_boxed_int v) (λ _. slot_at-InHeap h Kind.boxed_ints (boxed_int_idx v))
          no_slot))

-- The slot of a lookup, if it has one.
abbrev pub Is : Option Slot → Slot → Type 0
Is x s = x ≡ some s

-- An answer: marks from the slots of R.
abbrev pub Answers : Heap → (Slot → Type 0) → Marks → Option Marks → Type 0
Answers h R m x = (m' : Marks) × (x ≡ some m') × Marked h R m m'

-- What marks from value v, on marks with fewer than n slots to go.
abbrev pub MarksBelow : Heap → (Value → Marks → Option Marks) → ℕ → Type 0
MarksBelow h go n =
    (v : Value) (m : Marks)
    → Fits h m
    → unmarked_slots m < n
    → Answers h (Is (target h v)) m (go v m)

-- Steps one after the other.
pub Answers-bind :
    (h : Heap) {R S : Slot → Type 0} {m : Marks} {x : Option Marks} (f : Marks → Option Marks)
    → Answers h R m x
    → ((m₁ : Marks) → Marked h R m m₁ → Answers h S m₁ (f m₁))
    → Answers h (λ s. R s ⊎ S s) m (x >>= f)
Answers-bind h {m = m} f (m₁, eq, a) k =
    let (m₂, eq₂, b) = k m₁ a in (m₂, ap (λ y. y >>= f) eq ∙ eq₂, Marked-join h a b)

pub Answers-iff :
    (h : Heap) {R S : Slot → Type 0} {m : Marks} {x : Option Marks}
    → ((s : Slot) → R s → S s)
    → ((s : Slot) → S s → R s)
    → Answers h R m x
    → Answers h S m x
Answers-iff h to back (m', eq, a) = (m', eq, Marked-iff h to back a)

pub Answers-none :
    (h : Heap) {R : Slot → Type 0} {m : Marks}
    → ((s : Slot) → ¬ R s)
    → Fits h m
    → Answers h R m (some m)
Answers-none h {m = m} empty fits = (m, refl, Marked-none h empty fits)

Marked-already : (h : Heap) (s : Slot) (m : Marks) → On m s → Fits h m → Marked h (Is (some s)) m m
Marked-already h s m on fits = record {
  roots = λ t e. subst (On m) (some-injective _ _ e) on;
  grows = λ t old. old;
  closed = λ t old. inl old;
  only = λ t old. inl old;
  fewer = omega arith;
  fits = fits;
}

module _ (h : Heap) (go : Value → Marks → Option Marks) (n : ℕ) (ih : MarksBelow h go n) where
  pub mark_values-Answers :
      (vs : List Value) (m : Marks)
      → Fits h m
      → unmarked_slots m < n
      → Answers h (Points h vs) m (mark_values go vs m)
  unfolding mark_values
  mark_values-Answers [] m fits few = Answers-none h (λ s (v, in_vs, e). in_vs) fits
  mark_values-Answers (v ∷ vs) m fits few =
      Answers-iff h
        (λ s r. elim r [ inl e ↦ (v, inl refl, e) | inr (w, in_vs, e) ↦ (w, inr in_vs, e) ])
        (λ s (w, in_vs, e). elim in_vs [
          | inl same ↦ inl (ap (target h) (sym same) ∙ e)
          | inr later ↦ inr (w, later, e)
        ])
        (Answers-bind h (mark_values go vs) (ih v m fits few)
          λ m₁ a. mark_values-Answers vs m₁ a.fits (omega (arith, a.fewer)))

  pub mark_root-Answers :
      (x : Option Slot) (m : Marks)
      → InHeap h x
      → Fits h m
      → unmarked_slots m < n
      → Answers h (Is x) m (mark_root go h x m)
  unfolding mark_root
  mark_root-Answers none m no_slot fits few = Answers-none h (λ s e. none-ne-some _ e) fits
  mark_root-Answers (some (k, i)) m (slot in_heap) fits few =
      let (m', eq, a) =
        mark_values-Answers (refs h (k, i)) (set_mark m (k, i)) (set_mark-Fits h m (k, i) fits)
          (omega (arith, unmarked-set_mark_le m (k, i))) in
      (
        m',
        eq,
        Marked-iff h (λ s e. ap some (sym e)) (λ s e. sym (some-injective _ _ e))
            (Marked-slot h m m' k i fits in_heap a),
      )

  -- The target of a value that has its mark leads to nothing new.
  pub mark_target-Answers :
      (x : Option Slot) (m : Marks)
      → InHeap h x
      → Fits h m
      → unmarked_slots m < suc n
      → Answers h (Is x) m (mark_target go h x m)
  unfolding mark_target mark_unless
  mark_target-Answers none m no_slot fits few = Answers-none h (λ s e. none-ne-some _ e) fits
  mark_target-Answers (some (k, i)) m (slot below) fits few =
      elim (Bool-cases (has_mark m (k, i))) [
        | inl on ↦ rw on (m, refl, Marked-already h (k, i) m on fits)
        | inr off ↦ rw off (
            let (m', eq, a) =
              mark_values-Answers (refs h (k, i)) (set_mark m (k, i))
                (set_mark-Fits h m (k, i) fits)
                (omega (arith, unmarked-set_mark_lt m k i off (omega (arith, fits k)))) in
            (
              m',
              eq,
              Marked-iff h (λ s e. ap some (sym e)) (λ s e. sym (some-injective _ _ e))
                  (Marked-slot h m m' k i fits below a),
            ))
      ]

-- With more fuel than there are slots without a mark, `MarkValue` ends, and marks what the value leads to.
pub mark_value-Answers :
    (h : Heap) (fuel : ℕ) (v : Value) (m : Marks)
    → Fits h m
    → unmarked_slots m < fuel
    → Answers h (Is (target h v)) m (mark_value fuel h v m)
unfolding mark_value
mark_value-Answers h zero v m fits enough = absurd (omega arith)
mark_value-Answers h (suc n) v m fits enough =
    mark_target-Answers h (mark_value n h) n (mark_value-Answers h n) (target h v) m
      (target-InHeap h v) fits enough
