-- ===== src/Value/Bits.antt =====
-- The bit operations that vm/include/vm/value/value.h tests and builds its words with: they act on
-- the high and on the low part of a word apart.
use Prim.Native.Nat.{
  min, max, differ, digits, bitwise, bit_and, bit_or, bit_xor, bit_and-bitwise, bit_or-bitwise,
  bit_xor-bitwise,
}
use native.Mathlib.Nat.{pow-suc, one-le-pow, mod-lt, mod-add-div'}
use mathlib.Core.WellFounded
use lpc_interpreter.Prelude.{
  ℕ, zero, suc, ◌+◌, ◌-◌, ◌*◌, ◌/◌, ◌%◌, ◌^◌, ◌≤◌, ◌<◌, ◌≡◌, refl, ◌∙◌, arith,
}
use lpc_interpreter.Prelude.Order.{lt_wf}

module _ (z : ℕ → ℕ) (f : ℕ → ℕ → ℕ) where
  -- A count of at least the number's own is enough.
  two_counts : (a b n m : ℕ) → a ≤ n → a ≤ m → digits z f n a b ≡ digits z f m a b
  two_counts a b zero zero le_n le_m = refl
  two_counts zero b zero (suc m) le_n le_m = refl
  two_counts zero b (suc n) zero le_n le_m = refl
  two_counts zero b (suc n) (suc m) le_n le_m = refl
  two_counts (suc a) b zero m le_n le_m = absurd (omega arith)
  two_counts (suc a) b (suc n) zero le_n le_m = absurd (omega arith)
  two_counts (suc a) b (suc n) (suc m) le_n le_m =
      rw (two_counts (suc a / 2) (b / 2) n m (omega arith) (omega arith))

  lowest_digit :
      (a b : ℕ)
      → bitwise z f (suc a) b ≡ bitwise z f (suc a / 2) (b / 2) * 2 + f (suc a % 2) (b % 2)
  lowest_digit a b = rw (two_counts (suc a / 2) (b / 2) a (suc a / 2) (omega arith) (omega arith))

pub bit_and-step : (a b : ℕ) → bit_and a b ≡ bit_and (a / 2) (b / 2) * 2 + min (a % 2) (b % 2)
bit_and-step zero b = simp bit_and-bitwise (omega arith)
bit_and-step (suc a) b = simp bit_and-bitwise (lowest_digit (λ y. 0) min a b)

pub bit_or-step : (a b : ℕ) → bit_or a b ≡ bit_or (a / 2) (b / 2) * 2 + max (a % 2) (b % 2)
bit_or-step zero b = simp bit_or-bitwise (omega arith)
bit_or-step (suc a) b = simp bit_or-bitwise (lowest_digit (λ y. y) max a b)

pub bit_xor-step : (a b : ℕ) → bit_xor a b ≡ bit_xor (a / 2) (b / 2) * 2 + differ (a % 2) (b % 2)
bit_xor-step zero b = simp bit_xor-bitwise (omega arith)
bit_xor-step (suc a) b = simp bit_xor-bitwise (lowest_digit (λ y. y) differ a b)

double_part : (h k : ℕ) → h * 2 ^ suc k ≡ 2 * (h * 2 ^ k)
double_part h k = grind (arith, pow-suc 2 k)

half : (h k l : ℕ) → (h * 2 ^ suc k + l) / 2 ≡ h * 2 ^ k + l / 2
half h k l = omega (arith, double_part h k)

parity : (h k l : ℕ) → (h * 2 ^ suc k + l) % 2 ≡ l % 2
parity h k l = omega (arith, double_part h k)

-- An operation that has one equation for the lowest digit acts on both parts of a word.
module _ (op f : ℕ → ℕ → ℕ) (step : (a b : ℕ) → op a b ≡ op (a / 2) (b / 2) * 2 + f (a % 2) (b % 2))
    (none_set : op 0 0 ≡ 0) where
  parts :
      (k h l p m : ℕ)
      → l < 2 ^ k
      → m < 2 ^ k
      → op (h * 2 ^ k + l) (p * 2 ^ k + m) ≡ op h p * 2 ^ k + op l m
  parts zero h zero p zero fits fits_m = rw none_set (grind arith)
  parts zero h (suc l) p m fits fits_m = absurd (omega arith)
  parts zero h zero p (suc m) fits fits_m = absurd (omega arith)
  parts (suc k) h l p m fits fits_m =
      let rest =
        parts k h (l / 2) p (m / 2) (omega (arith, pow-suc 2 k)) (omega (arith, pow-suc 2 k)) in
      let low : op l m ≡ op (l / 2) (m / 2) * 2 + f (l % 2) (m % 2) = step l m in
      let high : op (h * 2 ^ suc k + l) (p * 2 ^ suc k + m)
          ≡ op (h * 2 ^ k + l / 2) (p * 2 ^ k + m / 2) * 2 + f (l % 2) (m % 2) =
        step (h * 2 ^ suc k + l) (p * 2 ^ suc k + m)
        ∙ rw (half h k l, half p k m, parity h k l, parity p k m) in
      omega (arith, rest, low, high, double_part (op h p) k)

pub bit_and-parts :
    (k h l p m : ℕ) {a b : ℕ}
    → a ≡ h * 2 ^ k + l
    → b ≡ p * 2 ^ k + m
    → l < 2 ^ k
    → m < 2 ^ k
    → bit_and a b ≡ bit_and h p * 2 ^ k + bit_and l m
bit_and-parts k h l p m ea eb fits fits_m =
    rw (ea, eb) (parts bit_and min bit_and-step refl k h l p m fits fits_m)

pub bit_or-parts :
    (k h l p m : ℕ) {a b : ℕ}
    → a ≡ h * 2 ^ k + l
    → b ≡ p * 2 ^ k + m
    → l < 2 ^ k
    → m < 2 ^ k
    → bit_or a b ≡ bit_or h p * 2 ^ k + bit_or l m
bit_or-parts k h l p m ea eb fits fits_m =
    rw (ea, eb) (parts bit_or max bit_or-step refl k h l p m fits fits_m)

pub bit_xor-parts :
    (k h l p m : ℕ) {a b : ℕ}
    → a ≡ h * 2 ^ k + l
    → b ≡ p * 2 ^ k + m
    → l < 2 ^ k
    → m < 2 ^ k
    → bit_xor a b ≡ bit_xor h p * 2 ^ k + bit_xor l m
bit_xor-parts k h l p m ea eb fits fits_m =
    rw (ea, eb) (parts bit_xor differ bit_xor-step refl k h l p m fits fits_m)

-- With no digits on the right.
pub bit_and-none : (a : ℕ) → bit_and a 0 ≡ 0
bit_and-none a = WellFounded.induction lt_wf a step
  where
    step : (n : ℕ) → ((m : ℕ) → m < n → bit_and m 0 ≡ 0) → bit_and n 0 ≡ 0
    step zero below = refl
    step (suc n) below = omega (arith, bit_and-step (suc n) 0, below (suc n / 2) (omega arith))

pub bit_or-none : (a : ℕ) → bit_or a 0 ≡ a
bit_or-none a = WellFounded.induction lt_wf a step
  where
    step : (n : ℕ) → ((m : ℕ) → m < n → bit_or m 0 ≡ m) → bit_or n 0 ≡ n
    step zero below = refl
    step (suc n) below = omega (arith, bit_or-step (suc n) 0, below (suc n / 2) (omega arith))

mask_half : (k : ℕ) → (2 ^ suc k - 1) / 2 ≡ 2 ^ k - 1
mask_half k = omega (arith, pow-suc 2 k, one-le-pow k 2)

mask_parity : (k : ℕ) → (2 ^ suc k - 1) % 2 ≡ 1
mask_parity k = omega (arith, pow-suc 2 k, one-le-pow k 2)

-- The mask of k low digits keeps a number that fits them.
pub bit_and-full : (k l : ℕ) → l < 2 ^ k → bit_and l (2 ^ k - 1) ≡ l
bit_and-full zero l fits = rw bit_and-none (omega arith)
bit_and-full (suc k) l fits =
    let rest = bit_and-full k (l / 2) (omega (arith, pow-suc 2 k)) in
    bit_and-step l (2 ^ suc k - 1) ∙ rw (mask_half k, mask_parity k, rest) (omega arith)

-- Setting digits in a full number changes nothing.
pub bit_or-full : (k l : ℕ) → l < 2 ^ k → bit_or (2 ^ k - 1) l ≡ 2 ^ k - 1
bit_or-full zero l fits = let none : l ≡ 0 = omega arith in rw none refl
bit_or-full (suc k) l fits =
    let rest = bit_or-full k (l / 2) (omega (arith, pow-suc 2 k)) in
    bit_or-step (2 ^ suc k - 1) l
    ∙ rw (mask_half k, mask_parity k, rest) (omega (arith, pow-suc 2 k, one-le-pow k 2))

pub full-bit_or : (k l : ℕ) → l < 2 ^ k → bit_or l (2 ^ k - 1) ≡ 2 ^ k - 1
full-bit_or zero l fits = let none : l ≡ 0 = omega arith in rw none refl
full-bit_or (suc k) l fits =
    let rest = full-bit_or k (l / 2) (omega (arith, pow-suc 2 k)) in
    bit_or-step l (2 ^ suc k - 1)
    ∙ rw (mask_half k, mask_parity k, rest) (omega (arith, pow-suc 2 k, one-le-pow k 2))

-- And on the left.
pub none-bit_or : (b : ℕ) → bit_or 0 b ≡ b
none-bit_or b = simp bit_or-bitwise refl

pub none-bit_xor : (b : ℕ) → bit_xor 0 b ≡ b
none-bit_xor b = simp bit_xor-bitwise refl

-- The mask of k low digits is the remainder.
pub bit_and-low : (k a : ℕ) → bit_and a (2 ^ k - 1) ≡ a % 2 ^ k
bit_and-low k a =
    let below = mod-lt a (one-le-pow k 2 (omega arith)) in
    bit_and-parts k (a / 2 ^ k) (a % 2 ^ k) 0 (2 ^ k - 1) (omega (arith, mod-add-div' a (2 ^ k)))
      (omega arith) below (omega (arith, one-le-pow k 2))
    ∙ rw (bit_and-none (a / 2 ^ k), bit_and-full k (a % 2 ^ k) below) (omega arith)
