-- ===== src/Optimizer/Pipeline.antt =====
-- The pipeline of compiler/src/frontend/mir_opt.cpp: four iterations at most over the passes, then a
-- final `Return`. `none` would be a search of pass 15 out of fuel.
pub mod Total
use lpc_interpreter.Prelude.{
  ℕ, zero, suc, Bool, true, false, not, ◌&&◌, ◌||◌, Option, none, some, List, [], ◌∷◌, ◌++◌, ◌==◌,
  if◌then◌else◌,
}
use lpc_interpreter.Prelude.Int.{pos}
use lpc_interpreter.Mir.{MirOp, MirInstr, MirFunction, MirModule}
use lpc_interpreter.Optimizer.OpEq.{same_op}
use lpc_interpreter.Optimizer.Base.{◌>>=◌}
use lpc_interpreter.Optimizer.Folding.{Doubles}
use lpc_interpreter.Optimizer.ConstProp.{local_const_propagation}
use lpc_interpreter.Optimizer.ConstFold.{constant_fold_and_simplify, strength_reduce}
use lpc_interpreter.Optimizer.FloatFold.{
  float_constant_fold, string_constant_fold, unary_constant_fold, float_algebraic_simplify,
  float_const_branch_fold,
}
use lpc_interpreter.Optimizer.Rewrites.{
  double_negation_elim, compare_logic_not_merge, self_comparison_simplify, conditional_jump_merge,
  local_cse,
}
use lpc_interpreter.Optimizer.DeadStore.{dead_store_elim}
use lpc_interpreter.Optimizer.Compact.{inc_dec_peephole, local_inc_dec_peephole}
use lpc_interpreter.Optimizer.Peephole.{peephole_and_branch_simplify}
use lpc_interpreter.Optimizer.Unreachable.{remove_unreachable}

-- A pass: the function after it, and whether it changed anything.
abbrev pub Pass : Type 0
Pass = MirFunction → MirFunction × Bool

-- `changed |= pass(f)` for each pass of the list.
unfoldable pub run_passes : List Pass → MirFunction × Bool → MirFunction × Bool
run_passes [] s = s
run_passes (p ∷ ps) s = let r = p s.0 in run_passes ps (r.0, s.1 || r.1)

module _ (fl : Doubles) where
  -- The passes of every iteration, in order.
  abbrev pub main_passes : List Pass
  main_passes =
      local_const_propagation
      ∷ constant_fold_and_simplify
      ∷ float_constant_fold fl
      ∷ string_constant_fold
      ∷ unary_constant_fold fl
      ∷ strength_reduce
      ∷ inc_dec_peephole
      ∷ local_inc_dec_peephole
      ∷ float_algebraic_simplify fl
      ∷ double_negation_elim
      ∷ compare_logic_not_merge
      ∷ self_comparison_simplify
      ∷ dead_store_elim
      ∷ conditional_jump_merge
      ∷ float_const_branch_fold fl
      ∷ []

  -- The two that only the first iteration has.
  abbrev pub first_passes : List Pass
  first_passes = local_cse ∷ peephole_and_branch_simplify ∷ []

  -- One iteration.
  unfoldable pub iteration : Bool → MirFunction → Option (MirFunction × Bool)
  unfolding run_passes
  iteration first f = do
    let s = run_passes main_passes (f, false)
    let u = if first then run_passes first_passes s else s
    r ← remove_unreachable u.0
    some (r.0, u.1 || r.1)

  -- `for (int iter = 0; iter < 4; ++iter)`, with the iterations left.
  unfoldable pub iterate : ℕ → Bool → MirFunction → Option MirFunction
  unfolding iteration
  iterate zero first f = some f
  iterate (suc left) first f = elim (iteration first f) [
    | none ↦ none
    | some r ↦ elim r.1 [ true ↦ iterate left false r.0 | false ↦ some r.0 ]
  ]

  abbrev pub final_return : MirInstr
  final_return = record { op = MirOp.return; a = pos 0; b = pos 0; line = 0 }

  -- Is the last instruction a `Return`?
  unfoldable pub ends_in_return : List MirInstr → Bool
  unfolding same_op
  ends_in_return [] = false
  ends_in_return (x ∷ []) = same_op x.op MirOp.return
  ends_in_return (x ∷ y ∷ rest) = ends_in_return (y ∷ rest)

  unfoldable pub close_with_return : MirFunction → MirFunction
  unfolding ends_in_return
  close_with_return f =
      if ends_in_return f.code then f else record f { code = f.code ++ final_return ∷ [] }

  -- `OptimizeFunction`.
  unfoldable pub optimize_function : MirFunction → Option MirFunction
  unfolding iterate close_with_return
  optimize_function f = do g ← iterate 4 true f; some (close_with_return g)

  unfoldable pub optimize_all : List MirFunction → Option (List MirFunction)
  unfolding optimize_function
  optimize_all [] = some []
  optimize_all (f ∷ fs) = do g ← optimize_function f; gs ← optimize_all fs; some (g ∷ gs)

  -- `OptimizeMirModule`.
  unfoldable pub optimize_mir_module : MirModule → Option MirModule
  unfolding optimize_all
  optimize_mir_module m = do
    fs ← optimize_all m.functions
    g ← optimize_function m.init_function
    some (record m { functions = fs; init_function = g })
