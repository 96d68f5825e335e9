-- ===== src/Chunk/Inverse.antt =====
-- Readers that take back what a writer wrote, and leave what follows it.
use lpc_interpreter.Prelude.{
  ℕ, ◌+◌, ◌*◌, ◌%◌, ◌^◌, ◌<◌, ◌≡◌, ap, refl, List, [], ◌∷◌, ◌++◌, length, length-append, true, take,
  drop, leb, arith,
}
use mathlib.Core.List.{append_assoc}
use native.Mathlib.Nat.{mod-eq_of_lt, zero-add}
use lpc_interpreter.Prelude.Int.{ℤ, pos, negsuc, to_bits, from_bits}
use lpc_interpreter.Chunk.Reader.{Bytes, Reader, ok, read_many}
use lpc_interpreter.Chunk.Bytes.{
  write_le, read_le, write_u16, write_u32, write_i64, write_f64, write_str, read_u16, read_u32,
  read_i64, read_f64, read_bytes, read_str, write_all, write_list, read_list, write_short_list,
  read_short_list,
}
use lpc_interpreter.Chunk.Words.{read_le-write_le}

-- On every value with property P, reader r takes back what w wrote.
abbrev pub Inverse {ℓ} : {A : Type 0} → (A → Type ℓ) → Reader A → (A → Bytes) → Type ℓ
Inverse {A} P r w = (x : A) → P x → (rest : Bytes) → r (w x ++ rest) ≡ ok (x, rest)

abbrev pub All {ℓ κ} : {A : Type ℓ} → (A → Type κ) → List A → Type κ
All P [] = Unit
All P (x ∷ xs) = P x × All P xs

abbrev pub IsU8 : ℕ → Type 0
IsU8 v = v < 2 ^ 8

abbrev pub IsU16 : ℕ → Type 0
IsU16 v = v < 2 ^ 16

abbrev pub IsU32 : ℕ → Type 0
IsU32 v = v < 2 ^ 32

abbrev pub IsU64 : ℕ → Type 0
IsU64 v = v < 2 ^ 64

-- The range of `std::int64_t`.
abbrev pub IsI64 : ℤ → Type 0
IsI64 (pos n) = n < 2 ^ 63
IsI64 (negsuc n) = n < 2 ^ 63

read_le-fits :
    (n v : ℕ) (rest : Bytes)
    → v < 2 ^ (n * 8)
    → read_le n 0 0 (write_le n 0 v ++ rest) ≡ ok (v, rest)
read_le-fits n v rest fits =
    let none : v % 2 ^ (0 * 8) ≡ 0 = omega arith in
    let all : v % 2 ^ ((0 + n) * 8) ≡ v = rw (zero-add n) (mod-eq_of_lt fits) in
    rw (none, all) at (read_le-write_le n 0 v rest)

pub IsU16-Inverse : Inverse IsU16 read_u16 write_u16
unfolding read_u16 write_u16
IsU16-Inverse v fits rest = read_le-fits 2 v rest fits

pub IsU32-Inverse : Inverse IsU32 read_u32 write_u32
unfolding read_u32 write_u32
IsU32-Inverse v fits rest = read_le-fits 4 v rest fits

pub f64-Inverse : Inverse IsU64 read_f64 write_f64
unfolding read_f64 write_f64
f64-Inverse v fits rest = read_le-fits 8 v rest fits

from_bits-to_bits : (i : ℤ) → IsI64 i → from_bits (to_bits i) ≡ i
unfolding from_bits to_bits
from_bits-to_bits (pos n) fits = ground arith
from_bits-to_bits (negsuc n) fits = ground arith

to_bits-lt : (i : ℤ) → to_bits i < 2 ^ 64
unfolding to_bits
to_bits-lt (pos n) = omega arith
to_bits-lt (negsuc n) = omega arith

pub IsI64-Inverse : Inverse IsI64 read_i64 write_i64
unfolding read_i64 write_i64
IsI64-Inverse v fits rest =
    rw (read_le-fits 8 (to_bits v) rest (to_bits-lt v), from_bits-to_bits v fits)

take-append_self : (s rest : Bytes) → take (length s) (s ++ rest) ≡ s
take-append_self [] rest = refl
take-append_self (b ∷ s) rest = ap (λ l. b ∷ l) (take-append_self s rest)

drop-append_self : (s rest : Bytes) → drop (length s) (s ++ rest) ≡ rest
drop-append_self [] rest = refl
drop-append_self (b ∷ s) rest = drop-append_self s rest

leb_self_add : (a b : ℕ) → leb a (a + b) ≡ true
leb_self_add a b = ground arith

pub bytes_inverse : (s rest : Bytes) → read_bytes (length s) (s ++ rest) ≡ ok (s, rest)
unfolding read_bytes
bytes_inverse s rest =
    rw (length-append s rest, leb_self_add, take-append_self s rest, drop-append_self s rest)

abbrev pub FitsStr : Bytes → Type 0
FitsStr s = length s < 2 ^ 32

pub str-Inverse : Inverse FitsStr read_str write_str
unfolding read_str write_str
str-Inverse s fits rest =
    rw (mod-eq_of_lt fits, append_assoc)
      (rw (IsU32-Inverse (length s) fits (s ++ rest)) (bytes_inverse s rest))

many-Inverse {ℓ} :
    {A : Type 0} {P : A → Type ℓ} (r : Reader A) (w : A → Bytes)
    → Inverse P r w
    → (xs : List A) → All P xs
    → (rest : Bytes) → read_many r (length xs) (write_all w xs ++ rest) ≡ ok (xs, rest)
unfolding read_many write_all
many-Inverse r w inv [] all rest = refl
many-Inverse r w inv (x ∷ xs) (fits, all) rest =
    rw append_assoc (rw (inv x fits (write_all w xs ++ rest), many-Inverse r w inv xs all rest))

-- Vectors with a count in 32 bits, and in 16.
abbrev pub FitsList {ℓ κ} : {A : Type ℓ} → (A → Type κ) → List A → Type κ
FitsList P xs = (length xs < 2 ^ 32) × All P xs

abbrev pub FitsShort {ℓ κ} : {A : Type ℓ} → (A → Type κ) → List A → Type κ
FitsShort P xs = (length xs < 2 ^ 16) × All P xs

pub list-Inverse {ℓ} :
    {A : Type 0} {P : A → Type ℓ} (r : Reader A) (w : A → Bytes)
    → Inverse P r w
    → Inverse (FitsList P) (read_list r) (write_list w)
unfolding read_list write_list
list-Inverse r w inv xs (short, all) rest =
    rw (mod-eq_of_lt short, append_assoc)
      (rw (IsU32-Inverse (length xs) short (write_all w xs ++ rest))
        (many-Inverse r w inv xs all rest))

pub short_list-Inverse {ℓ} :
    {A : Type 0} {P : A → Type ℓ} (r : Reader A) (w : A → Bytes)
    → Inverse P r w
    → Inverse (FitsShort P) (read_short_list r) (write_short_list w)
unfolding read_short_list write_short_list
short_list-Inverse r w inv xs (short, all) rest =
    rw (mod-eq_of_lt short, append_assoc)
      (rw (IsU16-Inverse (length xs) short (write_all w xs ++ rest))
        (many-Inverse r w inv xs all rest))
