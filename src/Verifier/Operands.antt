-- ===== src/Verifier/Operands.antt =====
-- The verifier's arithmetic against the operand table: the depth that `VerifyMirFunction` computes
-- is the depth of every edge of the graph.
use lpc_interpreter.Prelude.{ℕ, ◌+◌, ◌≡◌, none, arith}
use lpc_interpreter.Prelude.Int.{ℤ, pos, ◌+ℤ◌}
use lpc_interpreter.Mir.{MirOp, MirFunction, MirModule}
use lpc_interpreter.Verifier.Tables.{stack_delta}
use lpc_interpreter.Verifier.Check.{check_op, operand_delta}
use lpc_interpreter.Verifier.Graph.{pops, pushes}

module _ (m : MirModule) (f : MirFunction) (n : ℕ) where
  -- A checked instruction that gets depth e leaves d + pushes - pops operands.
  pub balance :
      (op : MirOp) (a b : ℤ) (d e : ℕ)
      → check_op m f n op a b d ≡ none
      → pos d +ℤ stack_delta op +ℤ operand_delta op a b ≡ pos e
      → d + pushes op a ≡ e + pops op a b
  unfolding check_op stack_delta operand_delta pops pushes
  balance MirOp.load_const a b d e c h = ground arith
  balance MirOp.call a b d e c h = ground arith
  balance MirOp.call_efun a b d e c h = ground arith
  balance MirOp.new_array a b d e c h = ground arith
  balance MirOp.new_mapping a b d e c h = ground arith
  balance MirOp.index a b d e c h = ground arith
  balance _ a b d e c h = ground arith
