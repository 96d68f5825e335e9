-- ===== src/Optimizer/Peephole.antt =====
-- Pass 16 of compiler/src/frontend/mir_opt.cpp: `PeepholeAndBranchSimplify`, which follows chains of
-- jumps and removes pairs of instructions without effect.
use lpc_interpreter.Prelude.{
  ℕ, zero, suc, ◌-◌, Bool, true, false, not, ◌&&◌, ◌||◌, Option, none, some, List, leb,
  if◌then◌else◌, length, get_elem?, set,
}
use lpc_interpreter.Prelude.Int.{ℤ, pos, negsuc, eq_ℤ}
use lpc_interpreter.Mir.{MirOp, MirInstr, MirFunction}
use lpc_interpreter.Optimizer.OpEq.{same_op}
use lpc_interpreter.Optimizer.Base.{◌>>=◌, ◌>>◌, guard, build_target_map, marked, const_of}
use lpc_interpreter.Optimizer.ConstFold.{write_op}
use lpc_interpreter.Optimizer.Compact.{Peep, drop_at, PeepRound, peep_sweep, all_kept, finish_peep}

-- The target of a jump that does not go to itself.
unfoldable pub next_jump : List MirInstr → ℤ → Option ℤ
unfolding same_op
next_jump code (negsuc t) = none
next_jump code (pos t) = elim (get_elem? code t) [
  | none ↦ none
  | some ins ↦ if same_op ins.op MirOp.jump && not (eq_ℤ ins.a (pos t)) then some ins.a else none
]

-- The inner `while`: n rounds at most, by its own guard.
unfoldable pub follow_jumps : List MirInstr → ℕ → ℤ → ℤ
unfolding next_jump
follow_jumps code zero t = t
follow_jumps code (suc left) t = elim (next_jump code t) [
  | none ↦ t
  | some u ↦ follow_jumps code left u
]

abbrev in_bounds : ℤ → ℕ → Bool
in_bounds (pos k) n = leb k n
in_bounds (negsuc k) n = false

-- `ins.a = target` alone.
unfoldable pub write_target : MirFunction → ℕ → ℤ → MirFunction
write_target f i a = elim (get_elem? f.code i) [
  | none ↦ f
  | some ins ↦ record f { code = set f.code i (record ins { a = a }) }
]

unfoldable pub thread_target : Peep → ℕ → ℤ → ℤ → Peep
unfolding write_target
thread_target s i old target =
    if not (eq_ℤ target old) && in_bounds target (length s.fn.code)
    then record s { fn = write_target s.fn i target; changed = true }
    else s

unfoldable pub drop_noop : Peep → ℕ → ℤ → Peep
drop_noop s i a =
    if eq_ℤ a (pos (suc i)) then record s { keep = drop_at s.keep i; changed = true } else s

-- The operand that instruction i has now.
abbrev operand_at : Peep → ℕ → ℤ → ℤ
operand_at s i old = elim (get_elem? s.fn.code i) [ none ↦ old | some ins ↦ ins.a ]

-- The first loop: a jump to a jump goes to its target, a jump to the next instruction goes.
unfoldable pub thread_round : PeepRound
unfolding same_op follow_jumps thread_target drop_noop
thread_round i s = do
  ins ← get_elem? s.fn.code i
  guard (same_op ins.op MirOp.jump)
  let target = follow_jumps s.fn.code (length s.fn.code) ins.a
  let s1 = thread_target s i ins.a target
  some (drop_noop s1 i (operand_at s1 i ins.a))

abbrev drop_pair : Peep → ℕ → Peep
drop_pair s i = record s { keep = drop_at (drop_at s.keep i) (suc i); changed = true }

abbrev is_branch : MirOp → Bool
is_branch MirOp.jump_if_false = true
is_branch MirOp.jump_if_true = true
is_branch _ = false

-- A branch on a constant: always taken (`true`) or never.
abbrev taken_on : MirOp → ℤ → Option Bool
taken_on MirOp.jump_if_false v = some (eq_ℤ v (pos 0))
taken_on MirOp.jump_if_true v = some (not (eq_ℤ v (pos 0)))
taken_on _ v = none

-- `LoadConst; JumpIf…`: the branch becomes a jump, or both go.
unfoldable pub settle_branch : Peep → ℕ → Bool → Peep
unfolding write_op
settle_branch s i taken =
    if taken
    then record s { fn = write_op s.fn (suc i) MirOp.jump; keep = drop_at s.keep i; changed = true }
    else drop_pair s i

abbrev branch_follows : MirFunction → ℕ → Bool
branch_follows f i = elim (get_elem? f.code i) [ none ↦ false | some ins ↦ is_branch ins.op ]

abbrev pick : Bool → Option Peep → Option Peep → Option Peep
pick true x y = x
pick false x y = y

-- The second loop.
unfoldable pub pair_round : List Bool → PeepRound
unfolding same_op const_of settle_branch
pair_round t i s = do
  x ← get_elem? s.fn.code i
  y ← get_elem? s.fn.code (suc i)
  pick
      (same_op x.op MirOp.load_local
        && same_op y.op MirOp.store_local
        && eq_ℤ x.a y.a
        && not (marked t i || marked t (suc i)))
      (some (drop_pair s i))
      (pick (same_op x.op MirOp.load_const && same_op y.op MirOp.pop)
        (pick (marked t i || marked t (suc i) || branch_follows s.fn (suc (suc i))) none
          (some (drop_pair s i)))
        (const_of s.fn x >>= λ v. taken_on y.op v >>= λ taken. some (settle_branch s i taken)))

abbrev is_store : MirOp → Bool
is_store MirOp.store_local = true
is_store MirOp.store_global = true
is_store MirOp.store_upvalue = true
is_store _ = false

-- The third loop: `Dup; Store…; Pop` is the store.
unfoldable pub dup_round : List Bool → PeepRound
unfolding same_op
dup_round t i s = do
  guard (not (marked t i || marked t (suc i) || marked t (suc (suc i))))
  x ← get_elem? s.fn.code i
  y ← get_elem? s.fn.code (suc i)
  z ← get_elem? s.fn.code (suc (suc i))
  guard (same_op x.op MirOp.dup && same_op z.op MirOp.pop)
  guard (is_store y.op)
  some (record s { keep = drop_at (drop_at s.keep i) (suc (suc i)); changed = true })

-- Pass 16.
unfoldable pub peephole_and_branch_simplify : MirFunction → MirFunction × Bool
unfolding build_target_map thread_round pair_round dup_round peep_sweep finish_peep
peephole_and_branch_simplify f =
    let n = length f.code in
    let t = build_target_map f.code in
    let s1 = peep_sweep thread_round n 0 (all_kept f) in
    let s2 = peep_sweep (pair_round t) (n - 1) 0 s1 in
    finish_peep f (peep_sweep (dup_round t) (n - 2) 0 s2)
