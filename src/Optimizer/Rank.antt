-- ===== src/Optimizer/Rank.antt =====
-- Where an instruction goes when others are removed: its rank among those that stay. Shared by
-- `CompactWithKeepMask` and `RemoveUnreachable` of compiler/src/frontend/mir_opt.cpp.
use lpc_interpreter.Prelude.{
  ℕ, zero, suc, ◌+◌, ◌<◌, ◌≤◌, ◌≡◌, refl, ap, Bool, true, false, none, some, List, [], ◌∷◌, length,
  get_elem?, get_or, map, arith,
}
use lpc_interpreter.Prelude.Int.{pos}
use lpc_interpreter.Optimizer.Base.{marked}
use lpc_interpreter.Optimizer.Compact.{kept_count, keep_masked, next_kept}
use lpc_interpreter.Optimizer.Unreachable.{remap_visited}

unfoldable pub rank : List Bool → ℕ → ℕ
rank ks zero = 0
rank [] (suc i) = 0
rank (true ∷ ks) (suc i) = suc (rank ks i)
rank (false ∷ ks) (suc i) = rank ks i

pub rank-suc : (ks : List Bool) (i : ℕ) → marked ks i ≡ true → rank ks (suc i) ≡ suc (rank ks i)
unfolding rank
rank-suc [] i h = cc
rank-suc (true ∷ ks) zero h = refl
rank-suc (false ∷ ks) zero h = cc
rank-suc (true ∷ ks) (suc i) h = ap suc (rank-suc ks i h)
rank-suc (false ∷ ks) (suc i) h = rank-suc ks i h

pub rank-le : (ks : List Bool) (i : ℕ) → rank ks i ≤ i
unfolding rank
rank-le ks zero = omega arith
rank-le [] (suc i) = omega arith
rank-le (true ∷ ks) (suc i) = omega (arith, rank-le ks i)
rank-le (false ∷ ks) (suc i) = omega (arith, rank-le ks i)

pub rank_mono : (ks : List Bool) (i j : ℕ) → i ≤ j → rank ks i ≤ rank ks j
unfolding rank
rank_mono ks zero j le = omega arith
rank_mono ks (suc i) zero le = absurd (omega arith)
rank_mono [] (suc i) (suc j) le = omega arith
rank_mono (true ∷ ks) (suc i) (suc j) le = omega (arith, rank_mono ks i j (omega arith))
rank_mono (false ∷ ks) (suc i) (suc j) le = rank_mono ks i j (omega arith)

pub remap_visited-past :
    (ks : List Bool) (cur i : ℕ) → length ks ≤ i → get_elem? (remap_visited ks cur) i ≡ none
unfolding remap_visited
remap_visited-past [] cur i le = refl
remap_visited-past (k ∷ ks) cur zero le = absurd (omega arith)
remap_visited-past (true ∷ ks) cur (suc i) le = remap_visited-past ks (suc cur) i (omega arith)
remap_visited-past (false ∷ ks) cur (suc i) le = remap_visited-past ks cur i (omega arith)

-- A kept entry is found at its rank.
pub get_elem?-keep_masked {ℓ} :
    {A : Type ℓ} (ks : List Bool) (xs : List A) (i : ℕ)
    → marked ks i ≡ true
    → get_elem? (keep_masked ks xs) (rank ks i) ≡ get_elem? xs i
unfolding rank keep_masked
get_elem?-keep_masked [] xs i h = cc
get_elem?-keep_masked (true ∷ ks) [] i h = refl
get_elem?-keep_masked (false ∷ ks) [] i h = refl
get_elem?-keep_masked (true ∷ ks) (x ∷ xs) zero h = refl
get_elem?-keep_masked (false ∷ ks) (x ∷ xs) zero h = cc
get_elem?-keep_masked (true ∷ ks) (x ∷ xs) (suc i) h = get_elem?-keep_masked ks xs i h
get_elem?-keep_masked (false ∷ ks) (x ∷ xs) (suc i) h = get_elem?-keep_masked ks xs i h

pub remap_visited-rank :
    (ks : List Bool) (cur i : ℕ)
    → marked ks i ≡ true
    → get_elem? (remap_visited ks cur) i ≡ some (pos (cur + rank ks i))
unfolding remap_visited rank
remap_visited-rank [] cur i h = cc
remap_visited-rank (true ∷ ks) cur zero h = ground arith
remap_visited-rank (false ∷ ks) cur zero h = cc
remap_visited-rank (true ∷ ks) cur (suc i) h = ground (arith, remap_visited-rank ks (suc cur) i h)
remap_visited-rank (false ∷ ks) cur (suc i) h = remap_visited-rank ks cur i h

pub next_kept-rank :
    (ks : List Bool) (kept cur nxt i : ℕ)
    → marked ks i ≡ true
    → get_or (next_kept ks kept cur nxt) i 0 ≡ cur + rank ks i
unfolding next_kept rank
next_kept-rank [] kept cur nxt i h = cc
next_kept-rank (true ∷ ks) kept cur nxt zero h = omega arith
next_kept-rank (false ∷ ks) kept cur nxt zero h = cc
next_kept-rank (true ∷ ks) kept cur nxt (suc i) h =
    omega (arith, next_kept-rank ks kept (suc cur) cur i h)
next_kept-rank (false ∷ ks) kept cur nxt (suc i) h = next_kept-rank ks kept cur nxt i h

-- A removed entry right behind another gets the number of that one.
pub next_kept-removed :
    (ks : List Bool) (kept cur nxt i : ℕ)
    → marked ks (suc i) ≡ false
    → suc i < length ks
    → get_or (next_kept ks kept cur nxt) (suc i) 0 ≡ get_or (next_kept ks kept cur nxt) i 0
unfolding next_kept
next_kept-removed [] kept cur nxt i h lt = elim lt [ ]
next_kept-removed (true ∷ false ∷ ks) kept cur nxt zero h lt = refl
next_kept-removed (false ∷ false ∷ ks) kept cur nxt zero h lt = refl
next_kept-removed (true ∷ true ∷ ks) kept cur nxt zero h lt = cc
next_kept-removed (false ∷ true ∷ ks) kept cur nxt zero h lt = cc
next_kept-removed (true ∷ []) kept cur nxt zero h lt = absurd (omega arith)
next_kept-removed (false ∷ []) kept cur nxt zero h lt = absurd (omega arith)
next_kept-removed (true ∷ ks) kept cur nxt (suc i) h lt =
    next_kept-removed ks kept (suc cur) cur i h (omega arith)
next_kept-removed (false ∷ ks) kept cur nxt (suc i) h lt =
    next_kept-removed ks kept cur nxt i h (omega arith)

pub get_elem?-map {ℓ κ} :
    {A : Type ℓ} {B : Type κ} (g : A → B) (xs : List A) (i : ℕ) (x : A)
    → get_elem? xs i ≡ some x
    → get_elem? (map g xs) i ≡ some (g x)
get_elem?-map g [] i x h = cc
get_elem?-map g (y ∷ xs) zero x h = cc
get_elem?-map g (y ∷ xs) (suc i) x h = get_elem?-map g xs i x h

-- Each entry that stays comes from a kept one of that rank.
pub kept_from {ℓ} :
    {A : Type ℓ} (ks : List Bool) (xs : List A) (k : ℕ)
    → k < length (keep_masked ks xs)
    → (i : ℕ) × (marked ks i ≡ true) × (rank ks i ≡ k)
unfolding keep_masked rank
kept_from [] xs k lt = elim lt [ ]
kept_from (true ∷ ks) [] k lt = elim lt [ ]
kept_from (false ∷ ks) [] k lt = elim lt [ ]
kept_from (true ∷ ks) (x ∷ xs) zero lt = (0, refl, refl)
kept_from (true ∷ ks) (x ∷ xs) (suc k) lt =
    let (i, m, e) = kept_from ks xs k (omega arith) in (suc i, m, ap suc e)
kept_from (false ∷ ks) (x ∷ xs) k lt = let (i, m, e) = kept_from ks xs k lt in (suc i, m, e)

kept_count-le : (ks : List Bool) → kept_count ks ≤ length ks
unfolding kept_count
kept_count-le [] = omega arith
kept_count-le (true ∷ ks) = omega (arith, kept_count-le ks)
kept_count-le (false ∷ ks) = omega (arith, kept_count-le ks)

-- When as many are kept as there are, all are.
pub all_marked :
    (ks : List Bool) (i : ℕ) → kept_count ks ≡ length ks → i < length ks → marked ks i ≡ true
unfolding kept_count
all_marked [] i h lt = elim lt [ ]
all_marked (true ∷ ks) zero h lt = refl
all_marked (true ∷ ks) (suc i) h lt = all_marked ks i (omega arith) (omega arith)
all_marked (false ∷ ks) i h lt = absurd (omega (arith, kept_count-le ks))
