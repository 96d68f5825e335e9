-- ===== src/Value/Tests.antt =====
-- Words and handles, and their theorems at concrete ones.
use lpc_interpreter.Prelude.{
  ℕ, zero, suc, get_or, ◌≡◌, ◌↔◌, ◌≤◌, ◌<◌, [], ◌∷◌, refl, true, false, some, inl, inr, arith,
}
use lpc_interpreter.Prelude.Int.{pos, negsuc}
use lpc_interpreter.Value.Word.{
  ValueTag, Value, tag, is_obj_ref, as_obj, from_i64, from_f64, from_obj, both_inline_int64,
  both_inline_float64, as_i64,
}
use lpc_interpreter.Value.Content.{Content, encode, decode}
use lpc_interpreter.Value.RoundTrip.{decode-encode}
use lpc_interpreter.Value.FastPath.{both_inline_int64_lem, both_inline_float64_lem}
use lpc_interpreter.Value.Floats.{tag-from_f64}
use lpc_interpreter.Value.Handles.{make_array_handle}
use lpc_interpreter.Verifier.Enqueue.{◌∈◌}
use lpc_interpreter.Value.Boxes.{BoxedInts, make_i64, sweep_boxes}
use lpc_interpreter.Value.Boxing.{IsSound, Made, make_i64-Made}
use lpc_interpreter.Value.Sweeping.{Swept, sweep_boxes-Swept}
use lpc_interpreter.Value.Pools.{Handle, make, name, tests, tests_of, name-make, kinds, one_kind}

minus_two : (from_i64 (negsuc 1)).bits ≡ 0xfff9_7fff_ffff_fffe
unfolding from_i64
minus_two = refl

-- 2^46 has no room: it comes back as -2^46.
wraps : as_i64 (from_i64 (pos 0x4000_0000_0000)) ≡ negsuc 0x3fff_ffff_ffff
unfolding from_i64 as_i64
wraps = refl

decode-encode_example : decode (encode (Content.int (negsuc 1))) ≡ Content.int (negsuc 1)
decode-encode_example = decode-encode (Content.int (negsuc 1)) (omega arith)

-- 1.5 is no NaN.
half_example :
    decode (encode (Content.float 0x3ff8_0000_0000_0000)) ≡ Content.float 0x3ff8_0000_0000_0000
half_example =
    decode-encode (Content.float 0x3ff8_0000_0000_0000) (omega arith, inr (inl (omega arith)))

both_inline_int64_lem_example :
    (both_inline_int64 (from_i64 (pos 3)) (from_i64 (negsuc 1)) ≡ true)
    ↔ ((tag (from_i64 (pos 3)) ≡ ValueTag.int64) × (tag (from_i64 (negsuc 1)) ≡ ValueTag.int64))
unfolding from_i64
both_inline_int64_lem_example =
    both_inline_int64_lem (from_i64 (pos 3)) (from_i64 (negsuc 1)) (omega arith) (omega arith)

abbrev one : Value
one = record { bits = 0x3ff0_0000_0000_0000 }

both_ones : both_inline_float64 one one ≡ true
unfolding both_inline_float64
both_ones = refl

both_inline_float64_lem_example : (tag one ≡ ValueTag.float64) × (tag one ≡ ValueTag.float64)
both_inline_float64_lem_example =
    both_inline_float64_lem one one (omega arith) (omega arith) both_ones

tag-from_f64_example : tag (from_f64 0xffff_ffff_ffff_ffff) ≡ ValueTag.float64
tag-from_f64_example = tag-from_f64 0xffff_ffff_ffff_ffff (omega arith)

name-make_example :
    (name (make (Handle.const_string 5)) ≡ some (Handle.const_string 5))
    × (tests (make (Handle.const_string 5)) ≡ tests_of (Handle.const_string 5))
name-make_example = name-make (Handle.const_string 5) (omega arith)

array_ref :
    (is_obj_ref (make_array_handle 7) ≡ true) × (as_obj (make_array_handle 7) ≡ 0x1_0000_0007)
unfolding is_obj_ref make_array_handle as_obj tag from_obj
array_ref = (refl, refl)

one_kind_example : kinds (make_array_handle 7) ≡ 1
one_kind_example = one_kind (make_array_handle 7) array_ref.0 (rw array_ref.1 (omega arith))

-- A pool with one integer in use.
abbrev one_box : BoxedInts
one_box = record { ints = pos 0x8000_0000_0000 ∷ []; free = []; slot_free = false ∷ [] }

one_box-IsSound : IsSound one_box
one_box-IsSound = record {
  size = refl;
  flagged = λ i m. absurd m;
  listed = none_free;
  distinct = tt;
}
  where
    none_free : (i : ℕ) → i < 1 → get_or (false ∷ []) i false ≡ true → i ∈ []
    none_free zero lt flag = cc
    none_free (suc i) lt flag = absurd (omega arith)

make_i64-Made_example :
    Made one_box
      (negsuc 0x7fff_ffff_ffff)
      (make_i64 one_box (negsuc 0x7fff_ffff_ffff)).0
      (make_i64 one_box (negsuc 0x7fff_ffff_ffff)).1
make_i64-Made_example =
    make_i64-Made one_box (negsuc 0x7fff_ffff_ffff) one_box-IsSound (omega arith)

sweep_boxes-Swept_example :
    Swept (false ∷ []) (λ j. (0 ≤ j) × (j < 1)) one_box (sweep_boxes (false ∷ []) 1 0 one_box)
sweep_boxes-Swept_example = sweep_boxes-Swept (false ∷ []) 1 0 one_box one_box-IsSound (omega arith)

one_box_swept : (sweep_boxes (false ∷ []) 1 0 one_box).free ≡ 0 ∷ []
unfolding sweep_boxes
one_box_swept = refl
