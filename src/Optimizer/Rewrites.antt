-- ===== src/Optimizer/Rewrites.antt =====
-- Passes 8, 9, 10, 12 and 13 of compiler/src/frontend/mir_opt.cpp: the rewrites of two or three
-- neighbouring instructions that keep the length of the code.
use lpc_interpreter.Prelude.{
  ℕ, suc, ◌-◌, Bool, true, false, not, ◌||◌, ◌&&◌, Option, none, some, List, length, get_elem?, set,
}
use lpc_interpreter.Prelude.Int.{pos, eq_ℤ}
use lpc_interpreter.Mir.{MirOp, MirInstr, MirFunction}
use lpc_interpreter.Optimizer.OpEq.{same_op}
use lpc_interpreter.Optimizer.Words.{of_bool}
use lpc_interpreter.Optimizer.Base.{
  ◌>>=◌, ◌>>◌, guard, is_binary_cmp, invert_cmp, build_target_map, marked, write_instr,
  rewrite_no_op_jump, Round, sweep,
}
use lpc_interpreter.Optimizer.ConstFold.{write_op}
use lpc_interpreter.Optimizer.FloatFold.{fold_to_int}

-- `Neg`, `BitNot` and `LogicNot`: what pass 8 takes for its own inverse.
abbrev pub is_negation : MirOp → Bool
is_negation MirOp.neg = true
is_negation MirOp.bit_not = true
is_negation MirOp.logic_not = true
is_negation _ = false

-- The loop of `DoubleNegationElim`.
unfoldable pub double_negation_round : List Bool → Round
unfolding same_op rewrite_no_op_jump
double_negation_round t j f = do
  guard (not (marked t j || marked t (suc j)))
  prev ← get_elem? f.code j
  cur ← get_elem? f.code (suc j)
  guard (is_negation prev.op && same_op prev.op cur.op)
  some (rewrite_no_op_jump (rewrite_no_op_jump f j) (suc j))

-- Pass 8.
unfoldable pub double_negation_elim : MirFunction → MirFunction × Bool
unfolding build_target_map double_negation_round sweep
double_negation_elim f =
    sweep (double_negation_round (build_target_map f.code)) (length f.code - 1) 0 (f, false)

-- The loop of `CompareLogicNotMerge`.
unfoldable pub compare_not_round : List Bool → Round
unfolding same_op is_binary_cmp invert_cmp write_op rewrite_no_op_jump
compare_not_round t j f = do
  guard (not (marked t j || marked t (suc j)))
  prev ← get_elem? f.code j
  cur ← get_elem? f.code (suc j)
  guard (is_binary_cmp prev.op)
  guard (same_op cur.op MirOp.logic_not)
  some (rewrite_no_op_jump (write_op f j (invert_cmp prev.op)) (suc j))

-- Pass 9.
unfoldable pub compare_logic_not_merge : MirFunction → MirFunction × Bool
unfolding build_target_map compare_not_round sweep
compare_logic_not_merge f =
    sweep (compare_not_round (build_target_map f.code)) (length f.code - 1) 0 (f, false)

-- What x op x is, for the comparisons.
abbrev pub holds_of_equals : MirOp → Bool
holds_of_equals MirOp.eq = true
holds_of_equals MirOp.lte = true
holds_of_equals MirOp.gte = true
holds_of_equals _ = false

-- The loop of `SelfComparisonSimplify`.
unfoldable pub self_comparison_round : List Bool → Round
unfolding same_op is_binary_cmp fold_to_int
self_comparison_round t j f = do
  guard (not (marked t j || marked t (suc j) || marked t (suc (suc j))))
  lhs ← get_elem? f.code j
  rhs ← get_elem? f.code (suc j)
  ins ← get_elem? f.code (suc (suc j))
  guard (is_binary_cmp ins.op)
  guard (same_op lhs.op MirOp.load_local && same_op rhs.op MirOp.load_local)
  guard (eq_ℤ lhs.a rhs.a)
  some (fold_to_int f j (of_bool (holds_of_equals ins.op)))

-- Pass 10.
unfoldable pub self_comparison_simplify : MirFunction → MirFunction × Bool
unfolding build_target_map self_comparison_round sweep
self_comparison_simplify f =
    sweep (self_comparison_round (build_target_map f.code)) (length f.code - 2) 0 (f, false)

-- The other conditional jump.
abbrev pub flip_branch : MirOp → Option MirOp
flip_branch MirOp.jump_if_false = some MirOp.jump_if_true
flip_branch MirOp.jump_if_true = some MirOp.jump_if_false
flip_branch _ = none

-- Two neighbours rewritten, `a.b` and the lines kept.
unfoldable pub swap_targets : MirFunction → ℕ → MirOp → MirInstr → MirInstr → MirFunction
swap_targets f j op x y = record f {
  code =
      set (set f.code j (record x { op = op; a = y.a })) (suc j)
        (record y { op = MirOp.jump; a = x.a; b = pos 0 });
}

-- The loop of `ConditionalJumpMerge`: a conditional jump over a jump.
unfoldable pub jump_merge_round : List Bool → Round
unfolding same_op swap_targets
jump_merge_round t j f = do
  guard (not (marked t j))
  x ← get_elem? f.code j
  y ← get_elem? f.code (suc j)
  op ← flip_branch x.op
  guard (same_op y.op MirOp.jump)
  guard (eq_ℤ x.a (pos (suc (suc j))) && marked t (suc (suc j)))
  some (swap_targets f j op x y)

-- Pass 12.
unfoldable pub conditional_jump_merge : MirFunction → MirFunction × Bool
unfolding build_target_map jump_merge_round sweep
conditional_jump_merge f =
    sweep (jump_merge_round (build_target_map f.code)) (length f.code - 2) 0 (f, false)

-- The loop of `LocalCSE`.
unfoldable pub cse_round : List Bool → Round
unfolding same_op write_instr
cse_round t j f = do
  guard (not (marked t j || marked t (suc j)))
  prev ← get_elem? f.code j
  cur ← get_elem? f.code (suc j)
  guard (same_op prev.op MirOp.load_local && same_op cur.op MirOp.load_local)
  guard (eq_ℤ prev.a cur.a)
  some (write_instr f (suc j) MirOp.dup (pos 0))

-- Pass 13.
unfoldable pub local_cse : MirFunction → MirFunction × Bool
unfolding build_target_map cse_round sweep
local_cse f = sweep (cse_round (build_target_map f.code)) (length f.code - 1) 0 (f, false)
