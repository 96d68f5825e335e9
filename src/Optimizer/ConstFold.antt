-- ===== src/Optimizer/ConstFold.antt =====
-- Passes 2, 5 and 6 of compiler/src/frontend/mir_opt.cpp: constant folding, identities with 0 and 1,
-- unary folding and strength reduction. A round is one value of the loop variable; j is the first
-- instruction of its window.
use lpc_interpreter.Prelude.{
  ℕ, zero, suc, ◌-◌, ◌/◌, Bool, true, false, not, ◌&&◌, ◌||◌, Option, none, some, List, ltb, ◌==◌,
  if◌then◌else◌, length, get_elem?, set,
}
use lpc_interpreter.Prelude.Int.{ℤ, pos, negsuc, eq_ℤ, ◌+ℤ◌, ◌-ℤ◌}
use lpc_interpreter.Mir.{MirOp, MirFunction}
use lpc_interpreter.Optimizer.OpEq.{same_op}
use lpc_interpreter.Optimizer.Words.{wrap64, not64, and64, of_bool}
use lpc_interpreter.Optimizer.Folding.{fold_binary}
use lpc_interpreter.Optimizer.Base.{
  ◌>>=◌, ◌>>◌, guard, is_binary_arith, is_binary_cmp, build_target_map, marked, add_iconst,
  write_instr, rewrite_load_const, rewrite_no_op_jump, const_of, Round, sweep,
}

-- The end of a fold: `LoadConst value; LoadConst 0; Pop` in the window, with the result's load
-- written by the caller.
unfoldable pub pad_window : MirFunction → ℕ → MirFunction
unfolding add_iconst write_instr
pad_window f j =
    let (g, z) = add_iconst f (pos 0) in
    write_instr (write_instr g (suc j) MirOp.load_const (pos z)) (suc (suc j)) MirOp.pop (pos 0)

-- The first loop of `ConstantFoldAndSimplify`.
unfoldable pub fold_round : List Bool → Round
unfolding fold_binary const_of rewrite_load_const pad_window is_binary_arith is_binary_cmp
fold_round t j f = do
  guard (not (marked t j || marked t (suc j) || marked t (suc (suc j))))
  ins ← get_elem? f.code (suc (suc j))
  guard (is_binary_arith ins.op || is_binary_cmp ins.op)
  lhs ← get_elem? f.code j
  rhs ← get_elem? f.code (suc j)
  x ← const_of f lhs
  y ← const_of f rhs
  v ← fold_binary ins.op x y
  some (pad_window (rewrite_load_const f j v) j)

-- `skip_nops`: past `Pop`s and loads of 0, with the instructions left.
unfoldable pub skip_nops : MirFunction → ℕ → ℕ → ℕ
unfolding const_of same_op
skip_nops f zero q = q
skip_nops f (suc left) q =
    let rest = skip_nops f left (suc q) in
    elim (get_elem? f.code q) [
      | none ↦ q
      | some ins ↦
          if same_op ins.op MirOp.pop
          then rest
          else elim (const_of f ins) [ some c ↦ if eq_ℤ c (pos 0) then rest else q | none ↦ q ]
    ]

abbrev stops_identity : MirOp → Bool
stops_identity MirOp.jump_if_false = true
stops_identity MirOp.jump_if_true = true
stops_identity MirOp.foreach_next = true
stops_identity MirOp.catch = true
stops_identity _ = false

-- Is a test the next real instruction?
unfoldable pub before_test : MirFunction → ℕ → Bool
unfolding skip_nops
before_test f i = elim (get_elem? f.code (skip_nops f (length f.code - i) i)) [
  | some ins ↦ stops_identity ins.op
  | none ↦ false
]

-- x + 0, x - 0, x * 1, x / 1
abbrev pub is_identity : MirOp → ℤ → Bool
is_identity MirOp.add c = eq_ℤ c (pos 0)
is_identity MirOp.sub c = eq_ℤ c (pos 0)
is_identity MirOp.mul c = eq_ℤ c (pos 1)
is_identity MirOp.div c = eq_ℤ c (pos 1)
is_identity _ c = false

-- The second loop of `ConstantFoldAndSimplify`: the operation becomes `Pop`.
unfoldable pub identity_round : List Bool → Round
unfolding before_test const_of write_instr
identity_round t j f = do
  guard (not (marked t j || marked t (suc j)))
  guard (not (before_test f (suc (suc j))))
  prev ← get_elem? f.code j
  ins ← get_elem? f.code (suc j)
  c ← const_of f prev
  guard (is_identity ins.op c)
  some (write_instr f (suc j) MirOp.pop (pos 0))

-- Pass 2.
unfoldable pub constant_fold_and_simplify : MirFunction → MirFunction × Bool
unfolding build_target_map fold_round identity_round sweep
constant_fold_and_simplify f =
    let t = build_target_map f.code in
    let s = sweep (fold_round t) (length f.code - 2) 0 (f, false) in
    sweep (identity_round t) (length f.code - 1) 0 s

-- The value of a unary operation on a constant; anything but the first four is `LogicNot`.
unfoldable pub fold_unary : MirOp → ℤ → ℤ
unfolding wrap64 not64
fold_unary MirOp.neg v = wrap64 (pos 0 -ℤ v)
fold_unary MirOp.bit_not v = not64 v
fold_unary MirOp.inc v = wrap64 (v +ℤ pos 1)
fold_unary MirOp.dec v = wrap64 (v -ℤ pos 1)
fold_unary _ v = of_bool (eq_ℤ v (pos 0))

-- `code[i].a = a` alone.
unfoldable pub write_operand : MirFunction → ℕ → ℕ → MirFunction
write_operand f i a = elim (get_elem? f.code i) [
  | none ↦ f
  | some ins ↦ record f { code = set f.code i (record ins { a = pos a }) }
]

-- The integer case of `UnaryConstantFold`.
unfoldable pub unary_int : MirFunction → ℕ → MirOp → ℤ → MirFunction
unfolding add_iconst write_operand rewrite_no_op_jump fold_unary
unary_int f j op v =
    let (g, k) = add_iconst f (fold_unary op v) in rewrite_no_op_jump (write_operand g j k) (suc j)

-- `IsPowerOfTwo`.
unfoldable pub is_power_of_two : ℤ → Bool
unfolding and64
is_power_of_two (pos v) = not (v == 0) && eq_ℤ (and64 (pos v) (pos (v - 1))) (pos 0)
is_power_of_two (negsuc v) = false

-- `Log2Int`: the halvings until 1, with fuel.
unfoldable pub halvings : ℕ → ℕ → ℕ
halvings zero v = 0
halvings (suc fuel) v = let rest = suc (halvings fuel (v / 2)) in if ltb 1 v then rest else 0

unfoldable pub log2_int : ℤ → ℕ
unfolding halvings
log2_int (pos v) = halvings 64 v
log2_int (negsuc v) = 0

-- What strength reduction does with `LoadConst v; op`.
pub data Reduction : Type 0 where
  to_pop : Reduction
  to_shift : MirOp → Reduction

abbrev zero_to_pop : ℤ → Option Reduction
zero_to_pop v = if eq_ℤ v (pos 0) then some to_pop else none

unfoldable pub power_to : MirOp → ℤ → Option Reduction
unfolding is_power_of_two
power_to op v = if is_power_of_two v && not (eq_ℤ v (pos 1)) then some (to_shift op) else none

unfoldable pub reduction : MirOp → ℤ → Option Reduction
unfolding power_to
reduction MirOp.mul v = if eq_ℤ v (pos 0) then some to_pop else power_to MirOp.shl v
reduction MirOp.bit_and v = zero_to_pop v
reduction MirOp.bit_or v = zero_to_pop v
reduction MirOp.div v = power_to MirOp.shr v
reduction _ v = none

-- `code[i].op = op` alone.
unfoldable pub write_op : MirFunction → ℕ → MirOp → MirFunction
write_op f i op = elim (get_elem? f.code i) [
  | none ↦ f
  | some ins ↦ record f { code = set f.code i (record ins { op = op }) }
]

unfoldable pub reduce : MirFunction → ℕ → ℤ → Reduction → MirFunction
unfolding write_instr write_op write_operand add_iconst log2_int
reduce f j v to_pop = write_instr f (suc j) MirOp.pop (pos 0)
reduce f j v (to_shift op) =
    let (g, k) = add_iconst f (pos (log2_int v)) in write_op (write_operand g j k) (suc j) op

-- The loop of `StrengthReduce`.
unfoldable pub strength_round : List Bool → Round
unfolding const_of reduction reduce
strength_round t j f = do
  guard (not (marked t j || marked t (suc j)))
  prev ← get_elem? f.code j
  ins ← get_elem? f.code (suc j)
  v ← const_of f prev
  how ← reduction ins.op v
  some (reduce f j v how)

-- Pass 6.
unfoldable pub strength_reduce : MirFunction → MirFunction × Bool
unfolding build_target_map strength_round sweep
strength_reduce f =
    sweep (strength_round (build_target_map f.code)) (length f.code - 1) 0 (f, false)
