-- ===== src/Heap/Leading.antt =====
-- The slot that each kind of handle leads to, by the ranges of vm/include/vm/value/objref.h.
use lpc_interpreter.Prelude.{
  ℕ, ◌+◌, ◌^◌, ◌<◌, ◌≡◌, refl, ap, true, false, some, ltb, leb, ◌&&◌, arith,
}
use lpc_interpreter.Value.Word.{is_obj_ref, is_closure, from_obj, from_closure}
use lpc_interpreter.Value.RoundTrip.{as_obj-from_obj, tag-from_closure, closure_id-from_closure}
use lpc_interpreter.Value.Pools.{is_obj_ref-from_obj}
use lpc_interpreter.Value.Handles.{array_base, mapping_base, object_base}
use lpc_interpreter.Heap.Pools.{Heap, Kind, size, slot_of_id, slot_of_ref, target}

pub slot_of_id_suc :
    (h : Heap) (k : Kind) (i : ℕ) → i < size h k → slot_of_id h k (i + 1) ≡ some (k, i)
unfolding slot_of_id
slot_of_id_suc h k i lt =
    let test : (ltb 0 (i + 1) && leb (i + 1) (size h k)) ≡ true = ground arith in
    rw test (ap (λ j. some (k, j)) (omega arith))

module _ (h : Heap) (n : ℕ) where
  pub ref-array : n < 2 ^ 32 → slot_of_ref h (array_base + n) ≡ slot_of_id h Kind.arrays n
  unfolding slot_of_ref
  ref-array fits = ground arith

  pub ref-mapping : n < 2 ^ 32 → slot_of_ref h (mapping_base + n) ≡ slot_of_id h Kind.mappings n
  unfolding slot_of_ref
  ref-mapping fits = ground arith

  pub ref-object : slot_of_ref h (object_base + n) ≡ slot_of_id h Kind.objects n
  unfolding slot_of_ref
  ref-object = ground arith

pub target-from_obj :
    (h : Heap) (raw : ℕ) → raw < 2 ^ 47 → target h (from_obj raw) ≡ slot_of_ref h raw
unfolding target
target-from_obj h raw fits = rw (is_obj_ref-from_obj raw, as_obj-from_obj raw fits) refl

is_obj_ref-from_closure : (cid : ℕ) → cid < 2 ^ 32 → is_obj_ref (from_closure cid) ≡ false
unfolding is_obj_ref
is_obj_ref-from_closure cid fits = rw (is_obj_ref, tag-from_closure cid fits)

is_closure-from_closure : (cid : ℕ) → cid < 2 ^ 32 → is_closure (from_closure cid) ≡ true
unfolding is_closure
is_closure-from_closure cid fits = rw (is_closure, tag-from_closure cid fits)

pub target-from_closure :
    (h : Heap) (cid : ℕ)
    → cid < 2 ^ 32
    → target h (from_closure cid) ≡ slot_of_id h Kind.closures cid
unfolding target
target-from_closure h cid fits =
    rw
      (
        is_obj_ref-from_closure cid fits,
        is_closure-from_closure cid fits,
        closure_id-from_closure cid fits,
      )
      refl
