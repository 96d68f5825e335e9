-- ===== src/Verifier/Graph.antt =====
-- What the verdict of compiler/src/frontend/verifier.cpp is about: the depths with which each
-- instruction can be met. The relation is stated from the operands that an instruction takes and
-- leaves, and does not mention the worklist.
use lpc_interpreter.Prelude.{
  ℕ, suc, ◌+◌, ◌*◌, ◌≡◌, Bool, true, false, some, get_elem?, ◌==◌, if◌then◌else◌,
}
use lpc_interpreter.Prelude.Int.{ℤ, pos, pos_part}
use lpc_interpreter.Mir.{MirOp, MirInstr, MirFunction}
use lpc_interpreter.Verifier.Tables.{efun_result_count}

-- Operands taken off the stack.
unfoldable pub pops : MirOp → ℤ → ℤ → ℕ
pops MirOp.load_const a b = 0
pops MirOp.load_fconst a b = 0
pops MirOp.load_sconst a b = 0
pops MirOp.load_function a b = 0
pops MirOp.load_local a b = 0
pops MirOp.load_upvalue a b = 0
pops MirOp.load_global a b = 0
pops MirOp.inc_local a b = 0
pops MirOp.dec_local a b = 0
pops MirOp.new_class a b = 0
pops MirOp.jump a b = 0
pops MirOp.catch a b = 0
pops MirOp.return a b = 0
pops MirOp.store_local a b = 1
pops MirOp.store_upvalue a b = 1
pops MirOp.store_global a b = 1
pops MirOp.logic_not a b = 1
pops MirOp.bit_not a b = 1
pops MirOp.neg a b = 1
pops MirOp.inc a b = 1
pops MirOp.dec a b = 1
pops MirOp.load_class_field a b = 1
pops MirOp.foreach_init a b = 1
pops MirOp.foreach_next a b = 2
pops MirOp.jump_if_false a b = 1
pops MirOp.jump_if_true a b = 1
pops MirOp.pop a b = 1
pops MirOp.dup a b = 1
pops MirOp.index a b = if pos_part a == 1 then 3 else 2
pops MirOp.store_index a b = 3
pops MirOp.call a b = suc (pos_part a)
pops MirOp.call_efun a b = pos_part b
pops MirOp.new_array a b = pos_part a
pops MirOp.new_mapping a b = 2 * pos_part a
pops _ a b = 2

-- Results left on it.
unfoldable pub pushes : MirOp → ℤ → ℕ
pushes MirOp.store_local a = 0
pushes MirOp.store_upvalue a = 0
pushes MirOp.store_global a = 0
pushes MirOp.store_class_field a = 0
pushes MirOp.inc_local a = 0
pushes MirOp.dec_local a = 0
pushes MirOp.jump_if_false a = 0
pushes MirOp.jump_if_true a = 0
pushes MirOp.jump a = 0
pushes MirOp.catch a = 0
pushes MirOp.return a = 0
pushes MirOp.pop a = 0
pushes MirOp.dup a = 2
pushes MirOp.foreach_init a = 2
pushes MirOp.foreach_next a = 2
pushes MirOp.call_efun a = efun_result_count a
pushes _ a = 1

abbrev pub goes_on : MirOp → Bool
goes_on MirOp.jump = false
goes_on MirOp.return = false
goes_on MirOp.foreach_next = false
goes_on _ = true

abbrev pub jumps : MirOp → Bool
jumps MirOp.jump = true
jumps MirOp.jump_if_false = true
jumps MirOp.jump_if_true = true
jumps MirOp.catch = true
jumps _ = false

-- Control passes from instruction `ins` at point i and depth d to a point and a depth.
pub data Edge (ins : MirInstr) (i d : ℕ) : ℕ → ℕ → Type 0 where
  to_next :
      {e : ℕ}
      → goes_on ins.op ≡ true
      → d + pushes ins.op ins.a ≡ e + pops ins.op ins.a ins.b
      → Edge ins i d (suc i) e
  to_target :
      {t e : ℕ}
      → jumps ins.op ≡ true
      → ins.a ≡ pos t
      → d + pushes ins.op ins.a ≡ e + pops ins.op ins.a ins.b
      → Edge ins i d t e
  next_item : {k : ℕ} → ins.op ≡ MirOp.foreach_next → ins.a ≡ pos k → Edge ins i d (suc i) (d + k)
  no_item : {t e : ℕ} → ins.op ≡ MirOp.foreach_next → ins.b ≡ pos t → d ≡ e + 2 → Edge ins i d t e

-- The points and depths that runs of the code meet, entered at its start with an empty stack.
pub data Reach (f : MirFunction) : ℕ → ℕ → Type 0 where
  start : Reach f 0 0
  step :
      {i d j e : ℕ} {ins : MirInstr}
      → Reach f i d
      → get_elem? f.code i ≡ some ins
      → Edge ins i d j e
      → Reach f j e
