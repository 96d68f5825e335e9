-- ===== src/Value/Integers.antt =====
-- The integers that vm/include/vm/value/value.h keeps in a word: 47 bits in two's complement.
use Prim.Native.Nat
use lpc_interpreter.Prelude.{
  ℕ, ◌+◌, ◌-◌, ◌*◌, ◌/◌, ◌%◌, ◌^◌, ◌<◌, ◌≡◌, ap, inl, inr, ltb, if◌then◌else◌, Bool-cases, arith,
}
use lpc_interpreter.Prelude.Int.{ℤ, pos, negsuc, to_bits, from_bits}
use lpc_interpreter.Value.Word.{as_i64, from_i64}
use lpc_interpreter.Value.Content.{FitsInline}
use lpc_interpreter.Value.Bits.{bit_or-parts, none-bit_or, bit_or-none}
use lpc_interpreter.Value.Fields.{word, or_payload, and_mask, and_payload}

pub from_i64-word : (i : ℤ) → from_i64 i ≡ word 0x1_fff2 (to_bits i % 2 ^ 47)
unfolding from_i64
from_i64-word i =
    rw (and_payload (to_bits i))
      (ap (λ b. record { bits = b }) (or_payload 0x1_fff2 (to_bits i % 2 ^ 47) (omega arith)))

-- The number that 47 bits in two's complement stand for.
abbrev signed47 : ℕ → ℤ
signed47 p = if ltb p (2 ^ 46) then pos p else negsuc (2 ^ 47 - 1 - p)

as_i64-word : (h p : ℕ) → p < 2 ^ 47 → as_i64 (word h p) ≡ signed47 p
unfolding as_i64 from_bits
as_i64-word h p fits = elim (Bool-cases (ltb p (2 ^ 46))) [
  | inl small ↦
      let sign : p / 2 ^ 46 ≡ 0 = ground arith in
      rw (and_mask h p fits, sign, bit_or-none p, small) (ground arith)
  | inr large ↦
      let sign : p / 2 ^ 46 ≡ 1 = ground arith in
      let spread : Nat.bit_or p (0x1_ffff * 2 ^ 47) ≡ 0x1_ffff * 2 ^ 47 + p = omega (
        arith,
        bit_or-parts 47 0 p 0x1_ffff 0 {a = p} {b = 0x1_ffff * 2 ^ 47} (omega arith) (omega arith)
            fits (omega arith),
        none-bit_or 0x1_ffff,
        bit_or-none p,
      ) in
      rw (and_mask h p fits, sign, spread, large) (ground arith)
]

-- The range of `kIntMinInline` to `kIntMaxInline` is what 47 bits hold.
signed47-to_bits : (i : ℤ) → FitsInline i → signed47 (to_bits i % 2 ^ 47) ≡ i
unfolding to_bits
signed47-to_bits (pos n) fits = ground arith
signed47-to_bits (negsuc n) fits = ground arith

pub as_i64-from_i64 : (i : ℤ) → FitsInline i → as_i64 (from_i64 i) ≡ i
as_i64-from_i64 i fits =
    rw (from_i64-word i, as_i64-word 0x1_fff2 (to_bits i % 2 ^ 47) (omega arith))
      (signed47-to_bits i fits)
