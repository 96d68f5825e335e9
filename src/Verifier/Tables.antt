-- ===== src/Verifier/Tables.antt =====
-- The tables of compiler/src/frontend/verifier.cpp: results of the built-in functions, and the
-- fixed part of each instruction's effect on the stack.
use lpc_interpreter.Prelude.{ℕ, Bool, false, leb, ◌==◌, ◌||◌, if◌then◌else◌}
use lpc_interpreter.Prelude.Int.{ℤ, pos, negsuc}
use lpc_interpreter.Mir.{MirOp}

-- `efun_index` without a result: print, puts, sleep, destruct, write and map_delete.
abbrev void_efun : ℕ → Bool
void_efun k = k == 1 || k == 2 || k == 3 || k == 13 || k == 15 || k == 31

unfoldable pub is_known_efun : ℤ → Bool
is_known_efun (pos k) = leb k 55
is_known_efun (negsuc k) = false

unfoldable pub efun_result_count : ℤ → ℕ
efun_result_count (pos k) = if leb k 55 then (if void_efun k then 0 else 1) else 0
efun_result_count (negsuc k) = 0

unfoldable pub stack_delta : MirOp → ℤ
stack_delta MirOp.load_const = pos 1
stack_delta MirOp.load_fconst = pos 1
stack_delta MirOp.load_sconst = pos 1
stack_delta MirOp.load_function = pos 1
stack_delta MirOp.load_local = pos 1
stack_delta MirOp.load_upvalue = pos 1
stack_delta MirOp.load_global = pos 1
stack_delta MirOp.store_local = negsuc 0
stack_delta MirOp.store_upvalue = negsuc 0
stack_delta MirOp.store_global = negsuc 0
stack_delta MirOp.add = negsuc 0
stack_delta MirOp.sub = negsuc 0
stack_delta MirOp.mul = negsuc 0
stack_delta MirOp.div = negsuc 0
stack_delta MirOp.mod_op = negsuc 0
stack_delta MirOp.shl = negsuc 0
stack_delta MirOp.shr = negsuc 0
stack_delta MirOp.bit_and = negsuc 0
stack_delta MirOp.bit_or = negsuc 0
stack_delta MirOp.bit_xor = negsuc 0
stack_delta MirOp.logic_and = negsuc 0
stack_delta MirOp.logic_or = negsuc 0
stack_delta MirOp.eq = negsuc 0
stack_delta MirOp.neq = negsuc 0
stack_delta MirOp.lt = negsuc 0
stack_delta MirOp.lte = negsuc 0
stack_delta MirOp.gt = negsuc 0
stack_delta MirOp.gte = negsuc 0
stack_delta MirOp.store_class_field = negsuc 1
stack_delta MirOp.index = negsuc 0
stack_delta MirOp.store_index = negsuc 1
stack_delta MirOp.new_class = pos 1
stack_delta MirOp.foreach_init = pos 1
stack_delta MirOp.jump_if_false = negsuc 0
stack_delta MirOp.jump_if_true = negsuc 0
stack_delta MirOp.pop = negsuc 0
stack_delta MirOp.dup = pos 1
stack_delta MirOp.upset = negsuc 0
stack_delta _ = pos 0
