-- ===== src/Heap/Refers.antt =====
-- What a value refers to, by the tests and accessors of vm/include/vm/value/objref.h, and that
-- `MarkValue` of vm/src/runtime/vm_gc.cpp goes there.
use lpc_interpreter.Prelude.{
  ℕ, suc, ◌<◌, ◌≡◌, refl, subst, Bool, true, false, Option, none, some, length, ltb, leb, ◌&&◌, ◌-◌,
  not, if◌then◌else◌, arith,
}
use mathlib.Core.Option.{some-injective, none-ne-some}
use lpc_interpreter.Value.Word.{
  ValueTag, Value, tag, is_obj_ref, is_closure, is_boxed_int, as_obj, closure_id, boxed_int_idx,
}
use lpc_interpreter.Value.Handles.{
  func_base, array_base, mapping_base, class_base, object_base, is_s_const_string_raw,
  decode_string_index, is_string_obj_ref, is_array_obj_ref, is_mapping_obj_ref, is_class_obj_ref,
  is_object_obj_ref, decode_array_id, decode_mapping_id, decode_class_id, decode_object_id,
}
use lpc_interpreter.Heap.Pools.{Heap, Kind, Slot, size, slot_at, slot_of_id, slot_of_ref, target}

-- Value v refers to the slot: ids count from 1, the indices of texts and of boxed integers from 0.
abbrev pub Refers : Heap → Value → Slot → Type 0
Refers h v (Kind.strings, i) =
    (is_string_obj_ref v ≡ true)
    × (is_s_const_string_raw (as_obj v) ≡ false)
    × (decode_string_index (as_obj v) ≡ i)
    × (i < length h.strings.texts)
Refers h v (Kind.arrays, i) =
    (is_array_obj_ref v ≡ true) × (decode_array_id v ≡ suc i) × (i < length h.arrays.items)
Refers h v (Kind.mappings, i) =
    (is_mapping_obj_ref v ≡ true) × (decode_mapping_id v ≡ suc i) × (i < length h.mappings.items)
Refers h v (Kind.classes, i) =
    (is_class_obj_ref v ≡ true) × (decode_class_id v ≡ suc i) × (i < length h.classes.items)
Refers h v (Kind.objects, i) =
    (is_object_obj_ref v ≡ true) × (decode_object_id v ≡ suc i) × (i < length h.objects.items)
Refers h v (Kind.closures, i) =
    (is_closure v ≡ true) × (closure_id v ≡ suc i) × (i < length h.closures.items)
Refers h v (Kind.boxed_ints, i) =
    (is_boxed_int v ≡ true) × (boxed_int_idx v ≡ i) × (i < length h.boxed_ints.ints)

closure_only : (v : Value) → is_closure v ≡ true → is_obj_ref v ≡ false
unfolding is_closure is_obj_ref
closure_only v e = go (tag v) e
  where
    go :
        (t : ValueTag)
        → elim t [ ValueTag.closure ↦ true | _ ↦ false ] ≡ true
        → elim t [ ValueTag.obj_ref ↦ true | _ ↦ false ] ≡ false
    go ValueTag.obj_ref e = cc
    go _ e = refl

boxed_only : (v : Value) → is_boxed_int v ≡ true → (is_obj_ref v ≡ false) × (is_closure v ≡ false)
unfolding is_boxed_int is_closure is_obj_ref
boxed_only v e = go (tag v) e
  where
    go :
        (t : ValueTag)
        → elim t [ ValueTag.boxed_int ↦ true | _ ↦ false ] ≡ true
        → (elim t [ ValueTag.obj_ref ↦ true | _ ↦ false ] ≡ false)
          × (elim t [ ValueTag.closure ↦ true | _ ↦ false ] ≡ false)
    go ValueTag.obj_ref e = cc
    go ValueTag.closure e = cc
    go _ e = (refl, refl)

pub Refers-target : (h : Heap) (v : Value) (s : Slot) → Refers h v s → target h v ≡ some s
unfolding target slot_of_ref slot_of_id slot_at size is_string_obj_ref is_array_obj_ref
    is_mapping_obj_ref is_class_obj_ref is_object_obj_ref decode_array_id decode_mapping_id
    decode_class_id decode_object_id
Refers-target h v (Kind.strings, i) (test, heap, index, lt) = ground arith
Refers-target h v (Kind.arrays, i) (test, id, lt) = ground arith
Refers-target h v (Kind.mappings, i) (test, id, lt) = ground arith
Refers-target h v (Kind.classes, i) (test, id, lt) = ground arith
Refers-target h v (Kind.objects, i) (test, id, lt) = ground arith
Refers-target h v (Kind.closures, i) (test, id, lt) = rw (closure_only v test) (ground arith)
Refers-target h v (Kind.boxed_ints, i) (test, index, lt) =
    let (not_ref, not_closure) = boxed_only v test in rw (not_ref, not_closure) (ground arith)

-- What a lookup finds is what the value refers to.
abbrev Found : Heap → Value → Option Slot → Type 0
Found h v x = (s : Slot) → x ≡ some s → Refers h v s

Found-none : (h : Heap) (v : Value) → Found h v none
Found-none h v s e = absurd (none-ne-some s e)

Found-if :
    (h : Heap) (v : Value) (b : Bool) {x y : Option Slot}
    → (b ≡ true → Found h v x)
    → (b ≡ false → Found h v y)
    → Found h v (if b then x else y)
Found-if h v true hx hy = hx refl
Found-if h v false hx hy = hy refl

Found-slot : (h : Heap) (v : Value) (t : Slot) → Refers h v t → Found h v (some t)
Found-slot h v t r s e = subst (Refers h v) (some-injective t s e) r

module _ (h : Heap) (v : Value) where
  Found-at : (k : Kind) (i : ℕ) → (i < size h k → Refers h v (k, i)) → Found h v (slot_at h k i)
  unfolding slot_at
  Found-at k i r =
      Found-if h v (ltb i (size h k)) (λ e. Found-slot h v (k, i) (r (ground arith)))
        (λ _. Found-none h v)

  Found-id :
      (k : Kind) (id : ℕ)
      → ((i : ℕ) → id ≡ suc i → i < size h k → Refers h v (k, i))
      → Found h v (slot_of_id h k id)
  unfolding slot_of_id
  Found-id k id r =
      Found-if h v (ltb 0 id && leb id (size h k))
        (λ e. Found-slot h v (k, id - 1) (r (id - 1) (ground arith) (ground arith)))
        (λ _. Found-none h v)

  Found-ref : is_obj_ref v ≡ true → Found h v (slot_of_ref h (as_obj v))
  unfolding slot_of_ref size is_string_obj_ref is_array_obj_ref is_mapping_obj_ref is_class_obj_ref
      is_object_obj_ref decode_array_id decode_mapping_id decode_class_id decode_object_id
  Found-ref ref =
      let raw = as_obj v in
      Found-if h v (ltb 0 raw && ltb raw func_base)
        (λ text.
          Found-if h v (not (is_s_const_string_raw raw))
            (λ heap.
              Found-at Kind.strings (decode_string_index raw)
                (λ lt. (ground arith, ground arith, refl, lt)))
            (λ _. Found-none h v))
        (λ _.
          Found-if h v (leb array_base raw && ltb raw mapping_base)
            (λ t.
              Found-id Kind.arrays (raw - array_base) (λ i e lt. (ground arith, ground arith, lt)))
            (λ _.
              Found-if h v (leb mapping_base raw && ltb raw class_base)
                (λ t.
                  Found-id Kind.mappings (raw - mapping_base)
                    (λ i e lt. (ground arith, ground arith, lt)))
                (λ _.
                  Found-if h v (leb class_base raw && ltb raw object_base)
                    (λ t.
                      Found-id Kind.classes (raw - class_base)
                        (λ i e lt. (ground arith, ground arith, lt)))
                    (λ _.
                      Found-if h v (leb object_base raw)
                        (λ t.
                          Found-id Kind.objects (raw - object_base)
                            (λ i e lt. (ground arith, ground arith, lt)))
                        (λ _. Found-none h v)))))

  pub target-Refers : (s : Slot) → target h v ≡ some s → Refers h v s
  unfolding target size
  target-Refers = Found-if h v (is_obj_ref v) Found-ref (λ _.
      Found-if h v (is_closure v)
        (λ test. Found-id Kind.closures (closure_id v) (λ i e lt. (test, e, lt)))
        (λ _.
          Found-if h v (is_boxed_int v)
            (λ test. Found-at Kind.boxed_ints (boxed_int_idx v) (λ lt. (test, refl, lt)))
            (λ _. Found-none h v)))
