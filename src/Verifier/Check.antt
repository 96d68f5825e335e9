-- ===== src/Verifier/Check.antt =====
-- The tests that compiler/src/frontend/verifier.cpp makes of one instruction at a known depth, and
-- the depth after it. Source: the body of the inner `for` of `VerifyMirFunction`.
use lpc_interpreter.Prelude.{
  ℕ, ◌+◌, ◌*◌, Bool, true, false, not, ◌&&◌, ◌||◌, Option, none, some, String, ltb, leb, ◌==◌,
  if◌then◌else◌, length,
}
use lpc_interpreter.Prelude.Int.{ℤ, pos, negsuc, pos_part, ◌+ℤ◌, ◌-ℤ◌}
use lpc_interpreter.Mir.{MirOp, MirInstr, MirFunction, MirModule}
use lpc_interpreter.Verifier.Tables.{is_known_efun, efun_result_count, stack_delta}

-- `0 <= v && v < n`
abbrev pub in_range : ℤ → ℕ → Bool
in_range (pos k) n = ltb k n
in_range (negsuc k) n = false

-- `0 <= v && v <= n`
abbrev pub in_bounds : ℤ → ℕ → Bool
in_bounds (pos k) n = leb k n
in_bounds (negsuc k) n = false

abbrev pub is_nonneg : ℤ → Bool
is_nonneg (pos k) = true
is_nonneg (negsuc k) = false

-- An `if (!test) return fail(message, i)`; `none` goes on.
abbrev pub require : Bool → String → Option String → Option String
require true message rest = rest
require false message rest = some message

-- `nargs + locals.size()`
unfoldable pub slot_count : MirFunction → ℕ
slot_count f = f.nargs + length f.locals

abbrev is_zero_or_one : ℤ → Bool
is_zero_or_one (pos k) = k == 0 || k == 1
is_zero_or_one (negsuc k) = false

abbrev is_one : ℤ → Bool
is_one (pos k) = k == 1
is_one (negsuc k) = false

abbrev is_one_or_two : ℤ → Bool
is_one_or_two (pos k) = k == 1 || k == 2
is_one_or_two (negsuc k) = false

-- The operand of `LoadConst`: index 0 is let through in an empty pool.
abbrev const_in_pool : ℤ → ℕ → Bool
const_in_pool (pos k) size = if size == 0 then k == 0 else ltb k size
const_in_pool (negsuc k) size = false

-- The tests before the depth is updated; the answer is the message of the first that fails. Each
-- operation has its own, so the sequence of `if`s is a case on the operation.
module _ (m : MirModule) (f : MirFunction) (n : ℕ) where
  unfoldable pub check_op : MirOp → ℤ → ℤ → ℕ → Option String
  check_op MirOp.load_local a b depth =
      require (in_range a (slot_count f)) "invalid local slot index" none
  check_op MirOp.store_local a b depth =
      require (in_range a (slot_count f)) "invalid local slot index" none
  check_op MirOp.inc_local a b depth =
      require (in_range a (slot_count f)) "invalid local slot index" none
  check_op MirOp.dec_local a b depth =
      require (in_range a (slot_count f)) "invalid local slot index" none
  check_op MirOp.load_upvalue a b depth =
      require (in_range a (length f.upvalues)) "invalid upvalue slot index" none
  check_op MirOp.store_upvalue a b depth =
      require (in_range a (length f.upvalues)) "invalid upvalue slot index" none
  check_op MirOp.load_global a b depth =
      require (in_range a (length m.global_variables)) "invalid global variable index" none
  check_op MirOp.store_global a b depth =
      require (in_range a (length m.global_variables)) "invalid global variable index" none
  check_op MirOp.load_function a b depth =
      require (in_range a (length m.functions)) "invalid function index" none
  check_op MirOp.call a b depth =
      require (is_nonneg a) "invalid call argc"
        (require (leb (pos_part a + 1) depth) "call requires callee and argc values on stack" none)
  check_op MirOp.new_class a b depth =
      require (in_range a (length m.class_order)) "invalid class index" none
  check_op MirOp.load_class_field a b depth = require (is_nonneg a) "invalid class field index" none
  check_op MirOp.store_class_field a b depth =
      require (is_nonneg a) "invalid class field index"
        (require (leb 2 depth) "store class field requires value + class object" none)
  check_op MirOp.index a b depth = require (is_zero_or_one a) "invalid index mode" (
      require (not (is_one a && ltb depth 3)) "range index requires start/container/end on stack"
        none)
  check_op MirOp.foreach_next a b depth =
      require (is_one_or_two a) "foreach arity must be 1 or 2"
        (require (in_bounds b n) "foreach exit jump target invalid" none)
  check_op MirOp.call_efun a b depth =
      require (is_known_efun a && is_nonneg b) "invalid efun call operand"
        (require (leb (pos_part b) depth) "efun call requires argc values on stack" none)
  check_op MirOp.new_array a b depth =
      require (is_nonneg a) "invalid array element count"
        (require (leb (pos_part a) depth) "array literal requires element values on stack" none)
  check_op MirOp.load_const a b depth =
      require (is_nonneg a) "invalid const index"
        (require (const_in_pool a (length f.iconsts)) "const index out of range" none)
  check_op MirOp.load_sconst a b depth =
      require (in_range a (length f.sconsts)) "invalid string const index" none
  check_op MirOp.load_fconst a b depth =
      require (in_range a (length f.fconsts)) "invalid float const index" none
  check_op MirOp.jump a b depth = require (in_bounds a n) "invalid jump target" none
  check_op MirOp.jump_if_false a b depth = require (in_bounds a n) "invalid jump target" none
  check_op MirOp.jump_if_true a b depth = require (in_bounds a n) "invalid jump target" none
  check_op MirOp.catch a b depth = require (in_bounds a n) "invalid catch end target" none
  check_op MirOp.new_mapping a b depth = require (is_nonneg a) "invalid mapping pair count" (
      require (leb (2 * pos_part a) depth) "mapping literal requires key/value values on stack"
        none)
  check_op _ a b depth = none

-- What follows `depth += StackDelta(ins.op)`: the part of the effect that depends on operands.
unfoldable pub operand_delta : MirOp → ℤ → ℤ → ℤ
operand_delta MirOp.call a b = pos 0 -ℤ a
operand_delta MirOp.call_efun a b = pos (efun_result_count a) -ℤ b
operand_delta MirOp.index a b = if is_one a then negsuc 0 else pos 0
operand_delta MirOp.new_array a b = pos 1 -ℤ a
operand_delta MirOp.new_mapping a b = pos 1 -ℤ pos (2 * pos_part a)
operand_delta _ a b = pos 0

-- The depth after the instruction; a negative one is refused.
unfoldable pub transfer : MirInstr → ℕ → ℤ
transfer ins depth = pos depth +ℤ stack_delta ins.op +ℤ operand_delta ins.op ins.a ins.b
