-- ===== src/Verifier/Tests.antt =====
-- Runs of the verifier, and its theorems at a concrete function.
use lpc_interpreter.Prelude.{ℕ, ◌<◌, ◌≤◌, ◌≡◌, refl, inl, some, [], ◌∷◌, arith}
use lpc_interpreter.Prelude.Int.{pos}
use lpc_interpreter.Mir.{MirOp, MirFunction, MirModule}
use lpc_interpreter.Verifier.Check.{check_op, transfer}
use lpc_interpreter.Verifier.Tables.{stack_delta}
use lpc_interpreter.Verifier.Check.{operand_delta}
use lpc_interpreter.Verifier.Loop.{
  Verify2Result, accepted, refuse, verify_function, verify_functions, verify_module, op_edges,
  enqueue_point,
}
use lpc_interpreter.Verifier.Graph.{pops, pushes, Reach, start, step, to_next, to_target}
use lpc_interpreter.Verifier.Sound.{
  Passes, verify_function_total, verify_function-Passes, verify_function-depth_unique,
  verify_function-in_code,
}
use lpc_interpreter.Verifier.Module.{
  Verdict, verified_order, verify_module-Verdict, verify_module-Passes,
}
use lpc_interpreter.Verifier.NetEffect.{instr, bare, one_operand, operand_gap}

-- if (0) return 0; return 0;
abbrev branching : MirFunction
branching = bare (
    instr MirOp.load_const (pos 0) (pos 0)
    ∷ instr MirOp.jump_if_false (pos 4) (pos 0)
    ∷ instr MirOp.load_const (pos 0) (pos 0)
    ∷ instr MirOp.return (pos 0) (pos 0)
    ∷ instr MirOp.load_const (pos 0) (pos 0)
    ∷ instr MirOp.return (pos 0) (pos 0)
    ∷ [])

abbrev one_function : MirModule
one_function = record {
  functions = branching ∷ [];
  global_variables = [];
  init_function = bare [];
  class_order = [];
}

branching_ok : verify_function one_function branching 0 ≡ some accepted
unfolding verify_function check_op transfer stack_delta operand_delta op_edges enqueue_point
branching_ok = refl

module_ok : verify_module one_function ≡ some accepted
unfolding verify_module verify_functions verify_function check_op transfer stack_delta operand_delta
    op_edges enqueue_point
module_ok = refl

-- A loop that pushes on every round is refused at its back edge.
growing :
    verify_function one_function
      (bare (instr MirOp.load_const (pos 0) (pos 0) ∷ instr MirOp.jump (pos 0) (pos 0) ∷ []))
      3
    ≡ some (refuse 3 "inconsistent stack depth at control-flow join" 1)
unfolding verify_function check_op transfer stack_delta operand_delta op_edges enqueue_point
growing = refl

-- The run into the branch.
taken : Reach branching 4 0
unfolding pops pushes
taken = step (step start refl (to_next {e = 1} refl refl)) refl (to_target {e = 0} refl refl refl)

verify_function_total_example :
    (r : Verify2Result) × (verify_function one_function branching 7 ≡ some r)
verify_function_total_example = verify_function_total one_function branching 7

verify_function-Passes_example : Passes one_function branching 4 0
verify_function-Passes_example =
    verify_function-Passes one_function branching 0 accepted branching_ok refl taken (omega arith)

verify_function-depth_unique_example : ◌≡◌ {A = ℕ} 0 0
verify_function-depth_unique_example =
    verify_function-depth_unique one_function branching 0 accepted branching_ok refl taken taken
      (omega arith)

verify_function-in_code_example : 4 ≤ 6
verify_function-in_code_example =
    verify_function-in_code one_function branching 0 accepted branching_ok refl (omega arith) taken

verify_module-Verdict_example :
    (r : Verify2Result) × (verify_module one_function ≡ some r)
    × Verdict one_function (verified_order one_function.functions one_function) 0 r
verify_module-Verdict_example = verify_module-Verdict one_function

verify_module-Passes_example : Passes one_function branching 4 0 × (◌≡◌ {A = ℕ} 0 0)
verify_module-Passes_example =
    verify_module-Passes one_function accepted module_ok refl branching (inl (inl refl)) taken taken
      (omega arith)

operand_gap_example :
    (verify_function one_function (one_operand MirOp.add) 0 ≡ some accepted)
    × Reach (one_operand MirOp.add) 1 1
    × (1 < pops MirOp.add (pos 0) (pos 0))
operand_gap_example = operand_gap one_function 0 MirOp.add refl
