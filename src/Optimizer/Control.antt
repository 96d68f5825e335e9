-- ===== src/Optimizer/Control.antt =====
-- `RemoveUnreachable` of compiler/src/frontend/mir_opt.cpp keeps the control flow: each instruction
-- that can be reached stays, and its successors are the moved successors.
use lpc_interpreter.Prelude.{
  ℕ, ◌<◌, ◌≡◌, refl, inl, inr, Bool, true, false, some, length, get_elem?, ◌==◌, Bool-cases, arith,
  ==_iff,
}
use lpc_interpreter.Mir.{MirInstr, MirFunction}
use lpc_interpreter.Optimizer.Compact.{kept_count}
use lpc_interpreter.Optimizer.Unreachable.{drop_unvisited, remove_unreachable}
use lpc_interpreter.Optimizer.Flow.{Runs, Runs-Flows, Flows-Runs}
use lpc_interpreter.Optimizer.Search.{reachable-Searched}
use lpc_interpreter.Optimizer.Rank.{rank, all_marked}
use lpc_interpreter.Optimizer.Moved.{Moved, drop_unvisited-Moved, drop_unvisited-only}

-- The function that `RemoveUnreachable` answers with, and where each point went.
pub record Kept (f : MirFunction) : Type 0 where
  pub out : MirFunction
  pub changed : Bool
  pub returns : remove_unreachable f ≡ some (out, changed)
  pub to : ℕ → ℕ
  pub start : to 0 ≡ 0
  pub keeps :
      (i : ℕ) (ins : MirInstr)
      → Runs f.code i
      → get_elem? f.code i ≡ some ins
      → Moved f.code out.code to i ins
  pub only : (k : ℕ) → k < length out.code → (i : ℕ) × Runs f.code i × (to i ≡ k)

Kept-same :
    (f : MirFunction)
    → remove_unreachable f ≡ some (f, false)
    → ((k : ℕ) → k < length f.code → Runs f.code k)
    → Kept f
Kept-same f h all = record {
  out = f;
  changed = false;
  returns = h;
  to = λ i. i;
  start = refl;
  keeps = λ i ins r read. record {
    moved = ins;
    found = read;
    same_op = refl;
    same_a = λ e. refl;
    same_b = λ e. refl;
    follows = λ j h lt. h;
    only = λ l h lt. (l, lt, h, refl);
  };
  only = λ k lt. (k, all k lt, refl);
}

-- `RemoveUnreachable` ends on every function. What it leaves is exactly the instructions that control
-- can meet from the first one, each with its operation and with the operands that name no target;
-- the first stays the first, and the successors of a moved instruction in the code that is left are
-- the moved ones of its successors in the code.
pub remove_unreachable-Kept : (f : MirFunction) → Kept f
unfolding remove_unreachable rank
remove_unreachable-Kept f = elim (Bool-cases (length f.code == 0)) [
  | inl empty ↦ Kept-same f (rw (empty, remove_unreachable)) (λ k lt. absurd (ground arith))
  | inr code ↦
      let (vis, runs, s) = reachable-Searched f.code in
      elim (Bool-cases (kept_count vis == length f.code)) [
        | inl all ↦ Kept-same f (rw (code, remove_unreachable, runs, all)) (λ k lt. Flows-Runs (
            s.sound k (
              all_marked vis k (omega (arith, s.size, (==_iff _ _).0 all))
                (omega (arith, s.size)))))
        | inr fewer ↦ record {
          out = record f { code = drop_unvisited vis f.code };
          changed = true;
          returns = rw (code, remove_unreachable, runs, fewer);
          to = rank vis;
          start = refl;
          only = λ k lt. drop_unvisited-only f.code vis s k lt;
          keeps = λ i ins r read. drop_unvisited-Moved f.code vis s i ins (Runs-Flows r) read;
        }
      ]
]
