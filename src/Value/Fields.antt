-- ===== src/Value/Fields.antt =====
-- The two fields of a tagged word of vm/include/vm/value/value.h: 17 high bits and a payload of 47.
use Prim.Native.Nat
use lpc_interpreter.Prelude.{ℕ, ◌+◌, ◌*◌, ◌/◌, ◌%◌, ◌^◌, ◌<◌, ◌≡◌, refl, arith}
use lpc_interpreter.Value.Bits.{
  bit_and-parts, bit_or-parts, bit_and-none, bit_or-none, none-bit_or, bit_and-full, bit_and-low,
}
use lpc_interpreter.Value.Word.{Value, payload_mask, tag_mask, q_nan_bits, tag, tag_of, is_tagged}

-- The word with this high part and this payload.
abbrev pub word : ℕ → ℕ → Value
word h p = record { bits = h * 2 ^ 47 + p }

pub or_payload : (h p : ℕ) → p < 2 ^ 47 → Nat.bit_or (h * 2 ^ 47) p ≡ h * 2 ^ 47 + p
or_payload h p fits = omega (
  arith,
  bit_or-parts 47 h 0 0 p {a = h * 2 ^ 47} {b = p} (omega arith) (omega arith) (omega arith) fits,
  bit_or-none h,
  none-bit_or p,
)

pub and_mask : (h p : ℕ) → p < 2 ^ 47 → Nat.bit_and (h * 2 ^ 47 + p) payload_mask ≡ p
and_mask h p fits = omega (
  arith,
  bit_and-parts 47 h p 0 payload_mask {a = h * 2 ^ 47 + p} {b = payload_mask} refl (omega arith)
      fits (omega arith),
  bit_and-none h,
  bit_and-full 47 p fits,
)

pub and_high :
    (h p m : ℕ) → p < 2 ^ 47 → Nat.bit_and (h * 2 ^ 47 + p) (m * 2 ^ 47) ≡ Nat.bit_and h m * 2 ^ 47
and_high h p m fits = omega (
  arith,
  bit_and-parts 47 h p m 0 {a = h * 2 ^ 47 + p} {b = m * 2 ^ 47} refl (omega arith) fits
      (omega arith),
  bit_and-none p,
)

-- A word under the pattern of the NaN has the tag of its four bits.
pub tag-word :
    (h p : ℕ)
    → p < 2 ^ 47
    → Nat.bit_and h 0x1_fff0 ≡ 0x1_fff0
    → tag (word h p) ≡ tag_of (Nat.bit_and h 0xf)
unfolding tag is_tagged
tag-word h p fits high =
    let tagged : Nat.bit_and (h * 2 ^ 47 + p) q_nan_bits ≡ q_nan_bits =
      omega (arith, and_high h p 0x1_fff0 fits) in
    let field : Nat.bit_and (h * 2 ^ 47 + p) tag_mask / 2 ^ 47 ≡ Nat.bit_and h 0xf =
      omega (arith, and_high h p 0xf fits) in
    rw (tagged, field)

pub and_payload : (a : ℕ) → Nat.bit_and a payload_mask ≡ a % 2 ^ 47
and_payload a = bit_and-low 47 a
