-- ===== src/Verifier/NetEffect.antt =====
-- The limit of the depth test in `VerifyMirFunction` of compiler/src/frontend/verifier.cpp: it
-- compares the net effect of an instruction with the depth, not the operands that it takes.
use lpc_interpreter.Prelude.{ℕ, ◌<◌, ◌≡◌, refl, Bool, true, false, some, List, [], ◌∷◌, arith}
use lpc_interpreter.Prelude.Int.{ℤ, pos}
use lpc_interpreter.Mir.{MirOp, MirInstr, MirFunction, MirModule}
use lpc_interpreter.Verifier.Tables.{stack_delta}
use lpc_interpreter.Verifier.Check.{check_op, transfer, operand_delta}
use lpc_interpreter.Verifier.Loop.{accepted, verify_function, op_edges, enqueue_point}
use lpc_interpreter.Verifier.Graph.{pops, pushes, Reach, start, step, to_next}

abbrev pub instr : MirOp → ℤ → ℤ → MirInstr
instr op a b = record { op = op; a = a; b = b; line = 0 }

-- A function with this code, and no names or constants.
abbrev pub bare : List MirInstr → MirFunction
bare code = record {
  name = "f";
  nargs = 0;
  locals = [];
  upvalues = [];
  upvalue_source_kind = [];
  upvalue_source_index = [];
  iconsts = [];
  fconsts = [];
  sconsts = [];
  code = code;
  max_stack = 0;
}

-- The operations that take two operands and leave one.
abbrev pub is_binary : MirOp → Bool
is_binary MirOp.add = true
is_binary MirOp.sub = true
is_binary MirOp.mul = true
is_binary MirOp.div = true
is_binary MirOp.mod_op = true
is_binary MirOp.shl = true
is_binary MirOp.shr = true
is_binary MirOp.bit_and = true
is_binary MirOp.bit_or = true
is_binary MirOp.bit_xor = true
is_binary MirOp.lt = true
is_binary MirOp.lte = true
is_binary MirOp.gt = true
is_binary MirOp.gte = true
is_binary MirOp.eq = true
is_binary MirOp.neq = true
is_binary _ = false

abbrev pub one_operand : MirOp → MirFunction
one_operand op = bare (
    instr MirOp.load_const (pos 0) (pos 0)
    ∷ instr op (pos 0) (pos 0)
    ∷ instr MirOp.return (pos 0) (pos 0)
    ∷ [])

-- `VerifyMirFunction` accepts the code that loads one constant, applies any operation of two
-- operands and returns, although a run meets that operation with one operand on the stack.
pub operand_gap :
    (m : MirModule) (k : ℕ) (op : MirOp)
    → is_binary op ≡ true
    → (verify_function m (one_operand op) k ≡ some accepted)
      × Reach (one_operand op) 1 1
      × (1 < pops op (pos 0) (pos 0))
unfolding verify_function check_op transfer stack_delta operand_delta op_edges enqueue_point pops
    pushes
operand_gap m k MirOp.add h = (refl, step start refl (to_next refl refl), omega arith)
operand_gap m k MirOp.sub h = (refl, step start refl (to_next refl refl), omega arith)
operand_gap m k MirOp.mul h = (refl, step start refl (to_next refl refl), omega arith)
operand_gap m k MirOp.div h = (refl, step start refl (to_next refl refl), omega arith)
operand_gap m k MirOp.mod_op h = (refl, step start refl (to_next refl refl), omega arith)
operand_gap m k MirOp.shl h = (refl, step start refl (to_next refl refl), omega arith)
operand_gap m k MirOp.shr h = (refl, step start refl (to_next refl refl), omega arith)
operand_gap m k MirOp.bit_and h = (refl, step start refl (to_next refl refl), omega arith)
operand_gap m k MirOp.bit_or h = (refl, step start refl (to_next refl refl), omega arith)
operand_gap m k MirOp.bit_xor h = (refl, step start refl (to_next refl refl), omega arith)
operand_gap m k MirOp.lt h = (refl, step start refl (to_next refl refl), omega arith)
operand_gap m k MirOp.lte h = (refl, step start refl (to_next refl refl), omega arith)
operand_gap m k MirOp.gt h = (refl, step start refl (to_next refl refl), omega arith)
operand_gap m k MirOp.gte h = (refl, step start refl (to_next refl refl), omega arith)
operand_gap m k MirOp.eq h = (refl, step start refl (to_next refl refl), omega arith)
operand_gap m k MirOp.neq h = (refl, step start refl (to_next refl refl), omega arith)
operand_gap m k _ h = cc
