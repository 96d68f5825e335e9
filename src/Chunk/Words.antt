-- ===== src/Chunk/Words.antt =====
-- Numbers of a fixed width are read back from the bytes they were written in.
use Prim.Native.Nat
use native.Mathlib.Nat.{
  one-le-pow, mod-lt, mod-add-div', add-mul-mod_self_right, mod-eq_of_lt, add-zero,
}
use native.Mathlib.Numerals.{towards_suc}
use lpc_interpreter.Prelude.{
  ℕ, zero, suc, ◌+◌, ◌*◌, ◌/◌, ◌%◌, ◌^◌, ◌<◌, ◌≡◌, ◌∙◌, ap, sym, ◌++◌, arith,
}
use lpc_interpreter.Value.Bits.{bit_and-low, bit_or-parts, bit_or-none, none-bit_or}
use lpc_interpreter.Chunk.Reader.{Bytes, ok}
use lpc_interpreter.Chunk.Bytes.{write_le, read_le}

shift_eight : (s : ℕ) → 2 ^ (s + 8) ≡ 2 ^ s * 256
shift_eight s = simp towards_suc (omega arith)

byte_shift : (i : ℕ) → 2 ^ (suc i * 8) ≡ 2 ^ (i * 8) * 256
byte_shift i =
    let e : suc i * 8 ≡ i * 8 + 8 = omega arith in ap (λ (k : ℕ). 2 ^ k) e ∙ shift_eight (i * 8)

-- The digit at a position joins the digits below it.
join_digit : (p v : ℕ) → 0 < p → v % p + v / p % 256 * p ≡ v % (p * 256)
join_digit p v pos =
    let r = v % p in
    let q = v / p in
    let low : r < p = mod-lt v pos in
    let whole : v ≡ (r + q % 256 * p) + q / 256 * (p * 256) =
      grind (arith, mod-add-div' v p, ap (λ (t : ℕ). t * p) (mod-add-div' q 256)) in
    let small : r + q % 256 * p < p * 256 =
      (let digit : q % 256 < 256 = omega arith in grind arith) in
    sym (
      ap (λ (x : ℕ). x % (p * 256)) whole
      ∙ add-mul-mod_self_right (r + q % 256 * p) (q / 256) (p * 256)
      ∙ mod-eq_of_lt small)

or_digit : (k acc b : ℕ) → acc < 2 ^ k → Nat.bit_or acc (b * 2 ^ k) ≡ acc + b * 2 ^ k
or_digit k acc b fits =
    bit_or-parts k 0 acc b 0 {a = acc} {b = b * 2 ^ k} (omega arith) (omega arith) fits
      (one-le-pow k 2 (omega arith))
    ∙ rw (none-bit_or b, bit_or-none acc) (omega arith)

pub read_le-write_le :
    (n i v : ℕ) (rest : Bytes)
    → read_le n i (v % 2 ^ (i * 8)) (write_le n i v ++ rest) ≡ ok (v % 2 ^ ((i + n) * 8), rest)
unfolding read_le write_le
read_le-write_le zero i v rest = rw (add-zero i)
read_le-write_le (suc n) i v rest =
    let p : 0 < 2 ^ (i * 8) = one-le-pow (i * 8) 2 (omega arith) in
    let acc : Nat.bit_or (v % 2 ^ (i * 8)) (Nat.bit_and (v / 2 ^ (i * 8)) 0xff * 2 ^ (i * 8))
        ≡ v % 2 ^ (suc i * 8) =
      ap (λ b. Nat.bit_or (v % 2 ^ (i * 8)) (b * 2 ^ (i * 8))) (bit_and-low 8 (v / 2 ^ (i * 8)))
      ∙ or_digit (i * 8) (v % 2 ^ (i * 8)) (v / 2 ^ (i * 8) % 256) (mod-lt v p)
      ∙ join_digit (2 ^ (i * 8)) v p
      ∙ ap (λ (m : ℕ). v % m) (sym (byte_shift i)) in
    let width : suc i + n ≡ i + suc n = omega arith in
    rw acc (rw width at (read_le-write_le n (suc i) v rest))
