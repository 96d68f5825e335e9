-- ===== src/Verifier/Depths.antt =====
-- The table `in_depth` as a partial map from points to depths.
use lpc_interpreter.Prelude.{
  ℕ, zero, suc, ◌+◌, ◌≤◌, ◌<◌, ◌≡◌, ◌≢◌, refl, Option, none, some, List, [], ◌∷◌, length, set,
  replicate, get_elem?, arith,
}
use lpc_interpreter.Verifier.Loop.{depth_at}

-- A known depth is never changed.
abbrev pub Extends : List (Option ℕ) → List (Option ℕ) → Type 0
Extends D E = (p d : ℕ) → depth_at D p ≡ some d → depth_at E p ≡ some d

pub depth_at-lt : (D : List (Option ℕ)) (p d : ℕ) → depth_at D p ≡ some d → p < length D
depth_at-lt [] p d h = cc
depth_at-lt (x ∷ D) zero d h = omega arith
depth_at-lt (x ∷ D) (suc p) d h = omega (arith, depth_at-lt D p d h)

-- Two depths of one point are one.
pub depth_unique :
    (D : List (Option ℕ)) {p q d e : ℕ}
    → depth_at D p ≡ some d
    → depth_at D q ≡ some e
    → q ≡ p
    → d ≡ e
depth_unique D h k same = cc

pub depth_at-set_self :
    (D : List (Option ℕ)) (p d : ℕ) → p < length D → depth_at (set D p (some d)) p ≡ some d
depth_at-set_self [] p d h = elim h [ ]
depth_at-set_self (x ∷ D) zero d h = refl
depth_at-set_self (x ∷ D) (suc p) d h = depth_at-set_self D p d (omega arith)

pub Extends-set :
    (D : List (Option ℕ)) (t c : ℕ) → depth_at D t ≡ none → Extends D (set D t (some c))
Extends-set [] t c h p d k = k
Extends-set (x ∷ D) zero c h zero d k = cc
Extends-set (x ∷ D) zero c h (suc p) d k = k
Extends-set (x ∷ D) (suc t) c h zero d k = k
Extends-set (x ∷ D) (suc t) c h (suc p) d k = Extends-set D t c h p d k

-- Setting one point makes no other point known.
pub known-set :
    (D : List (Option ℕ)) (t c p d : ℕ)
    → depth_at (set D t (some c)) p ≡ some d
    → p ≢ t
    → depth_at D p ≡ some d
known-set [] t c p d k h = k
known-set (x ∷ D) zero c zero d k h = absurd (h refl)
known-set (x ∷ D) zero c (suc p) d k h = k
known-set (x ∷ D) (suc t) c zero d k h = k
known-set (x ∷ D) (suc t) c (suc p) d k h = known-set D t c p d k (omega arith)

-- Points without a depth, counted.
abbrev is_unset : Option ℕ → ℕ
is_unset none = 1
is_unset (some d) = 0

unfoldable pub unset : List (Option ℕ) → ℕ
unset [] = 0
unset (x ∷ D) = is_unset x + unset D

pub unset-set :
    (D : List (Option ℕ)) (t c : ℕ)
    → depth_at D t ≡ none
    → t < length D
    → unset (set D t (some c)) + 1 ≡ unset D
unfolding unset
unset-set [] t c h lt = elim lt [ ]
unset-set (none ∷ D) zero c h lt = omega arith
unset-set (some d ∷ D) zero c h lt = cc
unset-set (x ∷ D) (suc t) c h lt = omega (arith, unset-set D t c h (omega arith))

pub unset-replicate : (n : ℕ) → unset (replicate n none) ≡ n
unfolding unset
unset-replicate zero = refl
unset-replicate (suc n) = omega (arith, unset-replicate n)

pub known-replicate : (n p d : ℕ) → depth_at (replicate n none) p ≢ some d
known-replicate zero p d h = cc
known-replicate (suc n) zero d h = cc
known-replicate (suc n) (suc p) d h = known-replicate n p d h

pub get_elem?-none {ℓ} : {A : Type ℓ} (xs : List A) (i : ℕ) → get_elem? xs i ≡ none → length xs ≤ i
get_elem?-none [] i h = omega arith
get_elem?-none (x ∷ xs) zero h = cc
get_elem?-none (x ∷ xs) (suc i) h = omega (arith, get_elem?-none xs i h)

pub get_elem?-lt {ℓ} :
    {A : Type ℓ} (xs : List A) (i : ℕ) (x : A) → get_elem? xs i ≡ some x → i < length xs
get_elem?-lt [] i x h = cc
get_elem?-lt (y ∷ xs) zero x h = omega arith
get_elem?-lt (y ∷ xs) (suc i) x h = omega (arith, get_elem?-lt xs i x h)

pub replicate-none : (n p : ℕ) → depth_at (replicate n none) p ≡ none
replicate-none zero p = refl
replicate-none (suc n) zero = refl
replicate-none (suc n) (suc p) = replicate-none n p
