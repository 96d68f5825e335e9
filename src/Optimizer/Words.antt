-- ===== src/Optimizer/Words.antt =====
-- The `std::int64_t` arithmetic that compiler/src/frontend/mir_opt.cpp folds constants with, in
-- two's complement. Overflow wraps, a shift counts modulo 64 and INT64_MIN / -1 wraps: these are
-- undefined in C++, and this is what the usual targets compute for the first two.
use Prim.Native.Nat
use lpc_interpreter.Prelude.{ℕ, ◌+◌, ◌*◌, ◌/◌, ◌%◌, ◌^◌, Bool, true, false}
use lpc_interpreter.Prelude.Int.{ℤ, pos, negsuc, pos_part, neg_part, sub_ℕ, to_bits, from_bits}

unfoldable pub wrap64 : ℤ → ℤ
unfolding to_bits from_bits
wrap64 z = from_bits (to_bits z)

-- Division that truncates, and the remainder with the sign of the dividend; b is not zero.
unfoldable pub div64 : ℤ → ℤ → ℤ
unfolding wrap64
div64 a b = wrap64 (
    sub_ℕ (pos_part a / pos_part b + neg_part a / neg_part b)
      (pos_part a / neg_part b + neg_part a / pos_part b))

unfoldable pub mod64 : ℤ → ℤ → ℤ
unfolding wrap64
mod64 a b =
    let size = pos_part b + neg_part b in wrap64 (sub_ℕ (pos_part a % size) (neg_part a % size))

unfoldable pub shl64 : ℤ → ℤ → ℤ
unfolding to_bits from_bits
shl64 a b = from_bits (to_bits a * 2 ^ (to_bits b % 64) % 2 ^ 64)

-- The arithmetic shift rounds down.
shift_right : ℤ → ℕ → ℤ
shift_right (pos n) k = pos (n / 2 ^ k)
shift_right (negsuc n) k = negsuc (n / 2 ^ k)

unfoldable pub shr64 : ℤ → ℤ → ℤ
unfolding shift_right to_bits
shr64 a b = shift_right a (to_bits b % 64)

unfoldable pub and64 : ℤ → ℤ → ℤ
unfolding to_bits from_bits
and64 a b = from_bits (Nat.bit_and (to_bits a) (to_bits b))

unfoldable pub or64 : ℤ → ℤ → ℤ
unfolding to_bits from_bits
or64 a b = from_bits (Nat.bit_or (to_bits a) (to_bits b))

unfoldable pub xor64 : ℤ → ℤ → ℤ
unfolding to_bits from_bits
xor64 a b = from_bits (Nat.bit_xor (to_bits a) (to_bits b))

unfoldable pub not64 : ℤ → ℤ
not64 (pos n) = negsuc n
not64 (negsuc n) = pos n

abbrev pub of_bool : Bool → ℤ
of_bool true = pos 1
of_bool false = pos 0
