-- ===== src/Optimizer/Flow.antt =====
-- Where control goes in mid-level code, by the classes of the operations, with no mention of the
-- stack that `RemoveUnreachable` of compiler/src/frontend/mir_opt.cpp searches with.
use lpc_interpreter.Prelude.{
  ℕ, suc, ◌≡◌, refl, subst, inl, inr, Bool, true, false, some, List, get_elem?,
}
use lpc_interpreter.Prelude.Int.{ℤ, pos}
use lpc_interpreter.Mir.{MirOp, MirInstr}
use lpc_interpreter.Optimizer.Base.{targets_a, targets_b}
use lpc_interpreter.Optimizer.Unreachable.{flow_targets}
use lpc_interpreter.Optimizer.Marks.{HasTarget}
use lpc_interpreter.Optimizer.Search.{Flows, entry, along}

-- Control can go on behind every operation but these two.
abbrev pub falls : MirOp → Bool
falls MirOp.jump = false
falls MirOp.return = false
falls _ = true

-- Control can pass from operation `op` with operands a and b at point i to point j.
pub data Follows (op : MirOp) (a b : ℤ) (i : ℕ) : ℕ → Type 0 where
  to_next : falls op ≡ true → Follows op a b i (suc i)
  to_target : {j : ℕ} → targets_a op ≡ true → a ≡ pos j → Follows op a b i j
  to_exit : {j : ℕ} → targets_b op ≡ true → b ≡ pos j → Follows op a b i j

-- The points that control can meet, entered at the first.
pub data Runs (code : List MirInstr) : ℕ → Type 0 where
  enter : Runs code 0
  go :
      {i j : ℕ} {ins : MirInstr}
      → Runs code i
      → get_elem? code i ≡ some ins
      → Follows ins.op ins.a ins.b i j
      → Runs code j

next-HasTarget :
    (op : MirOp) (a b : ℤ) (i : ℕ) → falls op ≡ true → HasTarget (suc i) (flow_targets op a b i)
unfolding flow_targets
next-HasTarget MirOp.jump a b i h = cc
next-HasTarget MirOp.return a b i h = cc
next-HasTarget MirOp.jump_if_false a b i h = inr (inl refl)
next-HasTarget MirOp.jump_if_true a b i h = inr (inl refl)
next-HasTarget MirOp.catch a b i h = inr (inl refl)
next-HasTarget MirOp.foreach_next a b i h = inr (inl refl)
next-HasTarget _ a b i h = inl refl

target-HasTarget :
    (op : MirOp) (a b : ℤ) (i j : ℕ)
    → targets_a op ≡ true
    → a ≡ pos j
    → HasTarget j (flow_targets op a b i)
unfolding flow_targets
target-HasTarget MirOp.jump a b i j h e = inl e
target-HasTarget MirOp.jump_if_false a b i j h e = inl e
target-HasTarget MirOp.jump_if_true a b i j h e = inl e
target-HasTarget MirOp.catch a b i j h e = inl e
target-HasTarget _ a b i j h e = cc

exit-HasTarget :
    (op : MirOp) (a b : ℤ) (i j : ℕ)
    → targets_b op ≡ true
    → b ≡ pos j
    → HasTarget j (flow_targets op a b i)
unfolding flow_targets
exit-HasTarget MirOp.foreach_next a b i j h e = inl e
exit-HasTarget _ a b i j h e = cc

pub Follows-HasTarget :
    {op : MirOp} {a b : ℤ} {i j : ℕ} → Follows op a b i j → HasTarget j (flow_targets op a b i)
Follows-HasTarget (to_next h) = next-HasTarget _ _ _ _ h
Follows-HasTarget (to_target h e) = target-HasTarget _ _ _ _ _ h e
Follows-HasTarget (to_exit h e) = exit-HasTarget _ _ _ _ _ h e

next_point :
    (op : MirOp) (a b : ℤ) (i j : ℕ) → falls op ≡ true → pos (suc i) ≡ pos j → Follows op a b i j
next_point op a b i j h e =
    let same : suc i ≡ j = cc in subst (λ k. Follows op a b i k) same (to_next h)

pub HasTarget-Follows :
    (op : MirOp) (a b : ℤ) (i j : ℕ) → HasTarget j (flow_targets op a b i) → Follows op a b i j
unfolding flow_targets
HasTarget-Follows MirOp.return a b i j h = absurd h
HasTarget-Follows MirOp.jump a b i j (inl e) = to_target refl e
HasTarget-Follows MirOp.jump a b i j (inr e) = absurd e
HasTarget-Follows MirOp.jump_if_false a b i j (inl e) = to_target refl e
HasTarget-Follows MirOp.jump_if_false a b i j (inr (inl e)) = next_point _ _ _ _ _ refl e
HasTarget-Follows MirOp.jump_if_false a b i j (inr (inr e)) = absurd e
HasTarget-Follows MirOp.jump_if_true a b i j (inl e) = to_target refl e
HasTarget-Follows MirOp.jump_if_true a b i j (inr (inl e)) = next_point _ _ _ _ _ refl e
HasTarget-Follows MirOp.jump_if_true a b i j (inr (inr e)) = absurd e
HasTarget-Follows MirOp.catch a b i j (inl e) = to_target refl e
HasTarget-Follows MirOp.catch a b i j (inr (inl e)) = next_point _ _ _ _ _ refl e
HasTarget-Follows MirOp.catch a b i j (inr (inr e)) = absurd e
HasTarget-Follows MirOp.foreach_next a b i j (inl e) = to_exit refl e
HasTarget-Follows MirOp.foreach_next a b i j (inr (inl e)) = next_point _ _ _ _ _ refl e
HasTarget-Follows MirOp.foreach_next a b i j (inr (inr e)) = absurd e
HasTarget-Follows _ a b i j (inl e) = next_point _ _ _ _ _ refl e
HasTarget-Follows _ a b i j (inr e) = absurd e

pub Runs-Flows : {code : List MirInstr} {i : ℕ} → Runs code i → Flows code i
Runs-Flows enter = entry
Runs-Flows (go r read h) = along (Runs-Flows r) read (Follows-HasTarget h)

pub Flows-Runs : {code : List MirInstr} {i : ℕ} → Flows code i → Runs code i
Flows-Runs entry = enter
Flows-Runs (along r read h) = go (Flows-Runs r) read (HasTarget-Follows _ _ _ _ _ h)
