-- ===== src/Value/Floats.antt =====
-- The doubles that vm/include/vm/value/value.h keeps in a word: every pattern but those of the NaNs.
use Prim.Native.Nat
use lpc_interpreter.Prelude.{
  ℕ, ◌-◌, ◌*◌, ◌/◌, ◌%◌, ◌^◌, ◌<◌, ◌≡◌, ◌∙◌, Bool, false, not, ◌&&◌, ◌==◌, if◌then◌else◌, arith,
}
use lpc_interpreter.Value.Word.{
  ValueTag, Value, q_nan_bits, canon_nan, tag, is_tagged, as_f64, from_f64,
}
use lpc_interpreter.Value.Content.{IsPlain}
use lpc_interpreter.Value.Bits.{bit_and-parts, bit_and-none, bit_and-full, bit_and-low}

-- The pattern of a NaN: a full exponent and a fraction that is not empty.
abbrev is_nan : ℕ → Bool
is_nan d = (d / 2 ^ 52 % 2 ^ 11 == 2 ^ 11 - 1) && not (d % 2 ^ 52 == 0)

from_f64-is_nan : (d : ℕ) → (from_f64 d).bits ≡ (if is_nan d then canon_nan else d)
unfolding from_f64
from_f64-is_nan d = rw (bit_and-low 11 (d / 2 ^ 52), bit_and-low 52 d)

pub as_f64-from_f64 : (d : ℕ) → d < 2 ^ 64 → IsPlain d → as_f64 (from_f64 d) ≡ d
unfolding as_f64
as_f64-from_f64 d fits plain = from_f64-is_nan d ∙ ground arith

-- The 13 bits of `kQNaNBits` in a word.
pub and_q_nan : (d : ℕ) → d < 2 ^ 64 → Nat.bit_and d q_nan_bits ≡ d / 2 ^ 51 * 2 ^ 51
and_q_nan d fits = omega (
  arith,
  bit_and-parts 51 (d / 2 ^ 51) (d % 2 ^ 51) 0x1fff 0 {a = d} {b = q_nan_bits} (omega arith)
      (omega arith) (omega arith) (omega arith),
  bit_and-none (d % 2 ^ 51),
  bit_and-full 13 (d / 2 ^ 51) (omega arith),
)

-- A word that does not have them all is a double.
pub tag-untagged :
    (v : Value) → v.bits < 2 ^ 64 → v.bits / 2 ^ 51 < 2 ^ 13 - 1 → tag v ≡ ValueTag.float64
unfolding tag is_tagged
tag-untagged v fits open_bits =
    let test : (v.bits / 2 ^ 51 * 2 ^ 51 == q_nan_bits) ≡ false = ground arith in
    rw (and_q_nan v.bits fits, test)

from_f64-untagged :
    (d : ℕ) → d < 2 ^ 64 → ((from_f64 d).bits < 2 ^ 64) × ((from_f64 d).bits / 2 ^ 51 < 2 ^ 13 - 1)
from_f64-untagged d fits = rw (from_f64-is_nan d) (ground arith)

-- No double is written as a tagged word.
pub tag-from_f64 : (d : ℕ) → d < 2 ^ 64 → tag (from_f64 d) ≡ ValueTag.float64
tag-from_f64 d fits =
    let (small, open_bits) = from_f64-untagged d fits in tag-untagged (from_f64 d) small open_bits
