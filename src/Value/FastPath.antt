-- ===== src/Value/FastPath.antt =====
-- The tests of two words at once in vm/include/vm/value/value.h, which the arithmetic of the virtual
-- machine goes by, against the tags of the words.
use Prim.Native.Nat.{bit_and, bit_or, bit_xor}
use lpc_interpreter.Prelude.{
  ℕ, ◌+◌, ◌*◌, ◌/◌, ◌%◌, ◌^◌, ◌<◌, ◌≡◌, ◌≢◌, ◌∙◌, ◌↔◌, ap, refl, Bool, true, false, not, ◌==◌,
  ==_iff, if◌then◌else◌, arith,
}
use lpc_interpreter.Value.Word.{
  ValueTag, Value, q_nan_bits, tag_mask, tag_bits_mask, int64_tag_bits, tag, tag_of, is_tagged,
  is_inline_int64, both_inline_int64, both_inline_float64,
}
use lpc_interpreter.Value.Bits.{
  bit_and-parts, bit_or-parts, bit_xor-parts, bit_and-none, bit_and-full, bit_and-low, bit_or-full,
  full-bit_or,
}
use lpc_interpreter.Value.Zeros.{bit_or-lt, bit_xor-lt, bit_or-zero, bit_xor-zero, bit_xor-none}
use lpc_interpreter.Value.Floats.{and_q_nan, tag-untagged}

if-not : (c : Bool) (x y : ValueTag) → (if not c then x else y) ≡ (if c then y else x)
if-not true x y = refl
if-not false x y = refl

tag_of-int64 : (t : ℕ) → (tag_of t ≡ ValueTag.int64) ↔ (t ≡ 2)
tag_of-int64 t = ground arith

module _ (v : Value) (fits : v.bits < 2 ^ 64) where
  -- The 17 high bits.
  abbrev high : ℕ
  high = v.bits / 2 ^ 47

  and_tag_bits_mask : bit_and v.bits tag_bits_mask ≡ high * 2 ^ 47
  and_tag_bits_mask = omega (
    arith,
    bit_and-parts 47 high (v.bits % 2 ^ 47) 0x1_ffff 0 {a = v.bits} {b = tag_bits_mask}
        (omega arith) (omega arith) (omega arith) (omega arith),
    bit_and-none (v.bits % 2 ^ 47),
    bit_and-full 17 high (omega arith),
  )

  and_tag_mask : bit_and v.bits tag_mask / 2 ^ 47 ≡ high % 2 ^ 4
  and_tag_mask = omega (
    arith,
    bit_and-parts 47 high (v.bits % 2 ^ 47) 0xf 0 {a = v.bits} {b = tag_mask} (omega arith)
        (omega arith) (omega arith) (omega arith),
    bit_and-none (v.bits % 2 ^ 47),
    bit_and-low 4 high,
  )

  -- The tag in terms of the high bits.
  tag-high : tag v ≡ (if high / 2 ^ 4 == 0x1fff then tag_of (high % 2 ^ 4) else ValueTag.float64)
  unfolding tag is_tagged
  tag-high =
      let same : (v.bits / 2 ^ 51 * 2 ^ 51 == q_nan_bits) ≡ (high / 2 ^ 4 == 0x1fff) =
        ground arith in
      rw (and_q_nan v.bits fits, and_tag_mask, same)
        (if-not (high / 2 ^ 4 == 0x1fff) ValueTag.float64 (tag_of (high % 2 ^ 4)))

  tag-int64 : (tag v ≡ ValueTag.int64) ↔ (high ≡ 0x1_fff2)
  tag-int64 = rw tag-high (ground (arith, tag_of-int64 (high % 2 ^ 4)))

  -- The words that the test of one integer accepts are those of tag `Int64`.
  is_inline_int64_lem : (is_inline_int64 v ≡ true) ↔ (tag v ≡ ValueTag.int64)
  unfolding is_inline_int64
  is_inline_int64_lem = rw and_tag_bits_mask (ground (arith, tag-int64))

  -- The exclusive or with the tag bits, by fields.
  xor_tag_bits : bit_xor v.bits int64_tag_bits ≡ bit_xor high 0x1_fff2 * 2 ^ 47 + v.bits % 2 ^ 47
  xor_tag_bits = omega (
    arith,
    bit_xor-parts 47 high (v.bits % 2 ^ 47) 0x1_fff2 0 {a = v.bits} {b = int64_tag_bits}
        (omega arith) (omega arith) (omega arith) (omega arith),
    bit_xor-none (v.bits % 2 ^ 47),
  )

  xor_high-lt : bit_xor high 0x1_fff2 < 2 ^ 17
  xor_high-lt = bit_xor-lt 17 high 0x1_fff2 (omega arith) (omega arith)

module _ (a b : Value) (fits_a : a.bits < 2 ^ 64) (fits_b : b.bits < 2 ^ 64) where
  abbrev both_differ : ℕ
  both_differ = bit_or (bit_xor (high a fits_a) 0x1_fff2) (bit_xor (high b fits_b) 0x1_fff2)

  both_mask :
      bit_and (bit_or (bit_xor a.bits int64_tag_bits) (bit_xor b.bits int64_tag_bits)) tag_bits_mask
      ≡ both_differ * 2 ^ 47
  both_mask =
      let low = bit_or (a.bits % 2 ^ 47) (b.bits % 2 ^ 47) in
      let small : low < 2 ^ 47 =
        bit_or-lt 47 (a.bits % 2 ^ 47) (b.bits % 2 ^ 47) (omega arith) (omega arith) in
      let fields : bit_or (bit_xor a.bits int64_tag_bits) (bit_xor b.bits int64_tag_bits)
          ≡ both_differ * 2 ^ 47 + low =
        bit_or-parts 47 (bit_xor (high a fits_a) 0x1_fff2) (a.bits % 2 ^ 47)
          (bit_xor (high b fits_b) 0x1_fff2) (b.bits % 2 ^ 47) (xor_tag_bits a fits_a)
          (xor_tag_bits b fits_b) (omega arith) (omega arith) in
      omega (
        arith,
        bit_and-parts 47 both_differ low 0x1_ffff 0 {b = tag_bits_mask} fields (omega arith) small
            (omega arith),
        bit_and-none low,
        bit_and-full 17 both_differ (
            bit_or-lt 17 (bit_xor (high a fits_a) 0x1_fff2) (bit_xor (high b fits_b) 0x1_fff2)
              (xor_high-lt a fits_a) (xor_high-lt b fits_b)),
      )

  -- `BothInlineInt64` accepts two words exactly when both have the tag `Int64`.
  pub both_inline_int64_lem :
      (both_inline_int64 a b ≡ true) ↔ ((tag a ≡ ValueTag.int64) × (tag b ≡ ValueTag.int64))
  unfolding both_inline_int64
  both_inline_int64_lem = (
    λ h.
        let zero_mask : both_differ ≡ 0 = omega (arith, both_mask, (==_iff _ 0).0 h) in
        let (za, zb) = bit_or-zero _ _ zero_mask in
        (
          (tag-int64 a fits_a).1 (bit_xor-zero _ _ za),
          (tag-int64 b fits_b).1 (bit_xor-zero _ _ zb),
        ),
    λ (ta, tb).
        let ha = (tag-int64 a fits_a).0 ta in
        let hb = (tag-int64 b fits_b).0 tb in rw (both_mask, ha, hb),
  )

  or_q_nan :
      bit_and (bit_or a.bits b.bits) q_nan_bits
      ≡ bit_or (a.bits / 2 ^ 51) (b.bits / 2 ^ 51) * 2 ^ 51
  or_q_nan = omega (
    arith,
    and_q_nan (bit_or a.bits b.bits) (bit_or-lt 64 a.bits b.bits fits_a fits_b),
    bit_or-parts 51 (a.bits / 2 ^ 51) (a.bits % 2 ^ 51) (b.bits / 2 ^ 51) (b.bits % 2 ^ 51)
        {a = a.bits} {b = b.bits} (omega arith) (omega arith) (omega arith) (omega arith),
    bit_or-lt 51 (a.bits % 2 ^ 51) (b.bits % 2 ^ 51) (omega arith) (omega arith),
  )

  -- Two words that `BothInlineFloat64` accepts are both doubles.
  pub both_inline_float64_lem :
      both_inline_float64 a b ≡ true → (tag a ≡ ValueTag.float64) × (tag b ≡ ValueTag.float64)
  unfolding both_inline_float64
  both_inline_float64_lem h = (
    tag-untagged a fits_a (omega (arith, open_left)),
    tag-untagged b fits_b (omega (arith, open_right)),
  )
    where
      not_full : bit_or (a.bits / 2 ^ 51) (b.bits / 2 ^ 51) ≢ 0x1fff
      not_full full = ground (arith, or_q_nan, full, h)

      open_left : a.bits / 2 ^ 51 ≢ 0x1fff
      open_left e =
          not_full (
            ap (λ x. bit_or x (b.bits / 2 ^ 51)) e ∙ bit_or-full 13 (b.bits / 2 ^ 51) (omega arith))

      open_right : b.bits / 2 ^ 51 ≢ 0x1fff
      open_right e =
          not_full
            (ap (bit_or (a.bits / 2 ^ 51)) e ∙ full-bit_or 13 (a.bits / 2 ^ 51) (omega arith))
