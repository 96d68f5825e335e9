-- ===== src/Value/Zeros.antt =====
-- Bounds of the bit operations of vm/include/vm/value/value.h, and when they give zero.
use Prim.Native.Nat.{bit_or, bit_xor, differ}
use native.Mathlib.Nat.{pow-suc}
use mathlib.Core.WellFounded
use lpc_interpreter.Prelude.{ℕ, zero, suc, ◌/◌, ◌%◌, ◌^◌, ◌<◌, ◌≡◌, ◌∙◌, ap, refl, sym, arith}
use lpc_interpreter.Prelude.Order.{lt_wf}
use lpc_interpreter.Value.Bits.{bit_or-step, bit_xor-step, none-bit_or, none-bit_xor}

pub bit_or-lt : (k a b : ℕ) → a < 2 ^ k → b < 2 ^ k → bit_or a b < 2 ^ k
bit_or-lt zero zero zero fits fits_b = omega arith
bit_or-lt zero (suc a) b fits fits_b = absurd (omega arith)
bit_or-lt zero zero (suc b) fits fits_b = absurd (omega arith)
bit_or-lt (suc k) a b fits fits_b =
    let rest =
      bit_or-lt k (a / 2) (b / 2) (omega (arith, pow-suc 2 k)) (omega (arith, pow-suc 2 k)) in
    omega (arith, rest, bit_or-step a b, pow-suc 2 k)

differ-lt : (a b : ℕ) → a < 2 → b < 2 → differ a b < 2
differ-lt zero b fits fits_b = fits_b
differ-lt (suc zero) zero fits fits_b = fits
differ-lt (suc zero) (suc zero) fits fits_b = omega arith
differ-lt (suc zero) (suc (suc b)) fits fits_b = absurd (omega arith)
differ-lt (suc (suc a)) b fits fits_b = absurd (omega arith)

pub bit_xor-lt : (k a b : ℕ) → a < 2 ^ k → b < 2 ^ k → bit_xor a b < 2 ^ k
bit_xor-lt zero zero zero fits fits_b = omega arith
bit_xor-lt zero (suc a) b fits fits_b = absurd (omega arith)
bit_xor-lt zero zero (suc b) fits fits_b = absurd (omega arith)
bit_xor-lt (suc k) a b fits fits_b =
    let rest =
      bit_xor-lt k (a / 2) (b / 2) (omega (arith, pow-suc 2 k)) (omega (arith, pow-suc 2 k)) in
    omega (
      arith,
      rest,
      bit_xor-step a b,
      pow-suc 2 k,
      differ-lt (a % 2) (b % 2) (omega arith) (omega arith),
    )

pub bit_or-zero : (a b : ℕ) → bit_or a b ≡ 0 → (a ≡ 0) × (b ≡ 0)
bit_or-zero a = WellFounded.induction lt_wf a step
  where
    step :
        (n : ℕ)
        → ((m : ℕ) → m < n → (b : ℕ) → bit_or m b ≡ 0 → (m ≡ 0) × (b ≡ 0))
        → (b : ℕ) → bit_or n b ≡ 0
        → (n ≡ 0) × (b ≡ 0)
    step zero below b h = (refl, sym (none-bit_or b) ∙ h)
    step (suc n) below b h =
        let (high, _) =
          below (suc n / 2) (omega arith) (b / 2) (omega (arith, bit_or-step (suc n) b)) in
        absurd (omega (arith, high, bit_or-step (suc n) b))

differ-zero : (a b : ℕ) → differ a b ≡ 0 → a ≡ b
differ-zero zero b h = sym h
differ-zero (suc a) zero h = h
differ-zero (suc a) (suc b) h = ap suc (differ-zero a b h)

pub bit_xor-zero : (a b : ℕ) → bit_xor a b ≡ 0 → a ≡ b
bit_xor-zero a = WellFounded.induction lt_wf a step
  where
    step :
        (n : ℕ)
        → ((m : ℕ) → m < n → (b : ℕ) → bit_xor m b ≡ 0 → m ≡ b)
        → (b : ℕ) → bit_xor n b ≡ 0
        → n ≡ b
    step zero below b h = sym (sym (none-bit_xor b) ∙ h)
    step (suc n) below b h =
        let high =
          below (suc n / 2) (omega arith) (b / 2) (omega (arith, bit_xor-step (suc n) b)) in
        let low = differ-zero (suc n % 2) (b % 2) (omega (arith, bit_xor-step (suc n) b)) in
        omega (arith, high, low)

pub bit_xor-none : (a : ℕ) → bit_xor a 0 ≡ a
bit_xor-none a = WellFounded.induction lt_wf a step
  where
    step : (n : ℕ) → ((m : ℕ) → m < n → bit_xor m 0 ≡ m) → bit_xor n 0 ≡ n
    step zero below = refl
    step (suc n) below =
        omega
          (arith, bit_xor-step (suc n) 0, below (suc n / 2) (omega arith), differ-none (suc n % 2))
      where
        differ-none : (x : ℕ) → differ x 0 ≡ x
        differ-none zero = refl
        differ-none (suc x) = refl
