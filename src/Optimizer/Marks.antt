-- ===== src/Optimizer/Marks.antt =====
-- Masks over the points of the code, and the stack of the search in `RemoveUnreachable`.
use lpc_interpreter.Prelude.{
  ℕ, zero, suc, ◌+◌, ◌≤◌, ◌<◌, ◌≡◌, ◌≢◌, refl, ap, ◌⊎◌, inl, inr, Bool, true, false, not, ◌&&◌,
  List, [], ◌∷◌, length, ltb, set, replicate, Bool-cases, arith,
}
use lpc_interpreter.Prelude.Int.{ℤ, pos, negsuc}
use lpc_interpreter.Mir.{MirOp}
use lpc_interpreter.Verifier.Enqueue.{◌∈◌}
use lpc_interpreter.Optimizer.Base.{marked}
use lpc_interpreter.Optimizer.Unreachable.{push_target, push_targets, flow_targets}

pub marked-lt : (t : List Bool) (i : ℕ) → marked t i ≡ true → i < length t
marked-lt [] i h = cc
marked-lt (x ∷ t) zero h = omega arith
marked-lt (x ∷ t) (suc i) h = omega (arith, marked-lt t i h)

pub marked-set_self : (t : List Bool) (i : ℕ) → i < length t → marked (set t i true) i ≡ true
marked-set_self [] i h = elim h [ ]
marked-set_self (x ∷ t) zero h = refl
marked-set_self (x ∷ t) (suc i) h = marked-set_self t i (omega arith)

pub marked-set : (t : List Bool) (i j : ℕ) → marked t j ≡ true → marked (set t i true) j ≡ true
marked-set [] i j h = h
marked-set (x ∷ t) zero zero h = refl
marked-set (x ∷ t) zero (suc j) h = h
marked-set (x ∷ t) (suc i) zero h = h
marked-set (x ∷ t) (suc i) (suc j) h = marked-set t i j h

pub marked-set_ne :
    (t : List Bool) (i j : ℕ) → j ≢ i → marked (set t i true) j ≡ true → marked t j ≡ true
marked-set_ne [] i j ne h = h
marked-set_ne (x ∷ t) zero zero ne h = absurd (ne refl)
marked-set_ne (x ∷ t) zero (suc j) ne h = h
marked-set_ne (x ∷ t) (suc i) zero ne h = h
marked-set_ne (x ∷ t) (suc i) (suc j) ne h = marked-set_ne t i j (omega arith) h

pub not-marked-replicate : (n i : ℕ) → marked (replicate n false) i ≢ true
not-marked-replicate zero i h = cc
not-marked-replicate (suc n) zero h = cc
not-marked-replicate (suc n) (suc i) h = not-marked-replicate n i h

unfoldable pub unmarked : List Bool → ℕ
unmarked [] = 0
unmarked (true ∷ t) = unmarked t
unmarked (false ∷ t) = suc (unmarked t)

pub unmarked-set :
    (t : List Bool) (i : ℕ)
    → marked t i ≡ false
    → i < length t
    → unmarked (set t i true) + 1 ≡ unmarked t
unfolding unmarked
unmarked-set [] i h lt = elim lt [ ]
unmarked-set (true ∷ t) zero h lt = cc
unmarked-set (false ∷ t) zero h lt = omega arith
unmarked-set (true ∷ t) (suc i) h lt = unmarked-set t i h (omega arith)
unmarked-set (false ∷ t) (suc i) h lt = omega (arith, unmarked-set t i h (omega arith))

pub unmarked-replicate : (n : ℕ) → unmarked (replicate n false) ≡ n
unfolding unmarked
unmarked-replicate zero = refl
unmarked-replicate (suc n) = ap suc (unmarked-replicate n)

-- Point j is among the targets.
abbrev pub HasTarget : ℕ → List ℤ → Type 0
HasTarget j [] = ⊥
HasTarget j (t ∷ ts) = (t ≡ pos j) ⊎ HasTarget j ts

push_target-keeps :
    (vis : List Bool) (t : ℤ) (work : List ℕ) (j : ℕ) → j ∈ work → j ∈ push_target vis t work
unfolding push_target
push_target-keeps vis (negsuc t) work j m = m
push_target-keeps vis (pos t) work j m =
    elim (Bool-cases (ltb t (length vis) && not (marked vis t))) [
      | inl e ↦ rw e (inr m)
      | inr e ↦ rw e m
    ]

pub push_targets-keeps :
    (vis : List Bool) (ts : List ℤ) (work : List ℕ) (j : ℕ)
    → j ∈ work
    → j ∈ push_targets vis ts work
unfolding push_targets
push_targets-keeps vis [] work j m = m
push_targets-keeps vis (t ∷ ts) work j m =
    push_targets-keeps vis ts (push_target vis t work) j (push_target-keeps vis t work j m)

push_target_self :
    (vis : List Bool) (j : ℕ) (work : List ℕ)
    → j < length vis
    → (marked vis j ≡ true) ⊎ (j ∈ push_target vis (pos j) work)
unfolding push_target
push_target_self vis j work lt = elim (Bool-cases (marked vis j)) [
  | inl e ↦ inl e
  | inr e ↦
      let inside : (ltb j (length vis) && not (marked vis j)) ≡ true = ground arith in
      inr (rw inside (inl refl))
]

-- Every target in range is marked or on the stack.
pub push_targets-all :
    (vis : List Bool) (ts : List ℤ) (work : List ℕ) (j : ℕ)
    → HasTarget j ts
    → j < length vis
    → (marked vis j ≡ true) ⊎ (j ∈ push_targets vis ts work)
unfolding push_targets
push_targets-all vis [] work j h lt = absurd h
push_targets-all vis (t ∷ ts) work j (inl e) lt = elim (push_target_self vis j work lt) [
  | inl m ↦ inl m
  | inr m ↦ inr (push_targets-keeps vis ts (push_target vis t work) j (rw e m))
]
push_targets-all vis (t ∷ ts) work j (inr h) lt =
    push_targets-all vis ts (push_target vis t work) j h lt

pub length-push_targets :
    (vis : List Bool) (ts : List ℤ) (work : List ℕ)
    → length (push_targets vis ts work) ≤ length work + length ts
unfolding push_targets push_target
length-push_targets vis [] work = omega arith
length-push_targets vis (negsuc t ∷ ts) work = omega (arith, length-push_targets vis ts work)
length-push_targets vis (pos t ∷ ts) work =
    elim (Bool-cases (ltb t (length vis) && not (marked vis t))) [
      | inl e ↦ rw e (omega (arith, length-push_targets vis ts (t ∷ work)))
      | inr e ↦ rw e (omega (arith, length-push_targets vis ts work))
    ]

pub length-flow_targets : (op : MirOp) (a b : ℤ) (pc : ℕ) → length (flow_targets op a b pc) ≤ 2
unfolding flow_targets
length-flow_targets MirOp.jump a b pc = omega arith
length-flow_targets _ a b pc = omega arith
