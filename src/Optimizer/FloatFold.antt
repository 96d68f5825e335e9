-- ===== src/Optimizer/FloatFold.antt =====
-- Passes 3, 4, 5, 7 and 14 of compiler/src/frontend/mir_opt.cpp: folding of doubles and texts, unary
-- folding, identities of doubles and branches on a constant double.
use lpc_interpreter.Prelude.{
  ℕ, suc, ◌-◌, Bool, false, not, ◌||◌, Option, none, some, List, String, if◌then◌else◌, length,
  get_elem?,
}
use text.Mathlib.Text.{◌==◌ as str_eq}
use Prim.Native.String.{◌++◌ as str_append}
use lpc_interpreter.Prelude.Int.{ℤ, pos}
use lpc_interpreter.Mir.{MirOp, MirInstr, MirFunction}
use lpc_interpreter.Optimizer.OpEq.{same_op}
use lpc_interpreter.Optimizer.Words.{of_bool}
use lpc_interpreter.Optimizer.Folding.{
  Doubles, zero_bits, one_bits, fold_float_arith, fold_float_cmp,
}
use lpc_interpreter.Optimizer.Base.{
  ◌>>=◌, ◌>>◌, guard, is_binary_arith, is_binary_cmp, is_unary, build_target_map, marked, intern,
  add_iconst, add_sconst, write_instr, rewrite_no_op_jump, const_of, Round, sweep,
}
use lpc_interpreter.Optimizer.ConstFold.{pad_window, unary_int, write_op, write_operand}

unfoldable pub fconst_operand : List ℕ → MirOp → ℤ → Option ℕ
fconst_operand pool MirOp.load_fconst (pos k) = get_elem? pool k
fconst_operand pool _ _ = none

-- The value of a `LoadFConst` whose index is in the pool.
unfoldable pub fconst_of : MirFunction → MirInstr → Option ℕ
unfolding fconst_operand
fconst_of f ins = fconst_operand f.fconsts ins.op ins.a

unfoldable pub sconst_operand : List String → MirOp → ℤ → Option String
sconst_operand pool MirOp.load_sconst (pos k) = get_elem? pool k
sconst_operand pool _ _ = none

unfoldable pub sconst_of : MirFunction → MirInstr → Option String
unfolding sconst_operand
sconst_of f ins = sconst_operand f.sconsts ins.op ins.a

-- A fold that leaves an integer, in the window from j on.
unfoldable pub fold_to_int : MirFunction → ℕ → ℤ → MirFunction
unfolding add_iconst write_instr pad_window
fold_to_int f j v =
    let (g, k) = add_iconst f v in pad_window (write_instr g j MirOp.load_const (pos k)) j

module _ (fl : Doubles) where
  open fl use {fneg, feq}

  -- `AddFConst`: found by `==` of doubles.
  unfoldable pub add_fconst : MirFunction → ℕ → MirFunction × ℕ
  unfolding intern
  add_fconst f v =
      let (pool, k) = intern (λ c. feq c v) v f.fconsts in (record f { fconsts = pool }, k)

  unfoldable pub fold_to_float : MirFunction → ℕ → ℕ → MirFunction
  unfolding add_fconst write_instr pad_window
  fold_to_float f j v =
      let (g, k) = add_fconst f v in pad_window (write_instr g j MirOp.load_fconst (pos k)) j

  -- The fold and its rewrite: a comparison leaves an integer.
  unfoldable pub write_float_fold : MirFunction → ℕ → MirOp → ℕ → ℕ → Option MirFunction
  unfolding is_binary_cmp fold_float_cmp fold_float_arith fold_to_int fold_to_float
  write_float_fold f j op x y =
      if is_binary_cmp op
      then fold_float_cmp fl op x y >>= (λ v. some (fold_to_int f j v))
      else fold_float_arith fl op x y >>= (λ v. some (fold_to_float f j v))

  -- The loop of `FloatConstantFold`.
  unfoldable pub float_round : List Bool → Round
  unfolding fconst_of write_float_fold
  float_round t j f = do
    guard (not (marked t j || marked t (suc j) || marked t (suc (suc j))))
    ins ← get_elem? f.code (suc (suc j))
    guard (is_binary_arith ins.op || is_binary_cmp ins.op)
    lhs ← get_elem? f.code j
    rhs ← get_elem? f.code (suc j)
    x ← fconst_of f lhs
    y ← fconst_of f rhs
    write_float_fold f j ins.op x y

  -- Pass 3.
  unfoldable pub float_constant_fold : MirFunction → MirFunction × Bool
  unfolding build_target_map float_round sweep
  float_constant_fold f =
      sweep (float_round (build_target_map f.code)) (length f.code - 2) 0 (f, false)

  -- The cases of `UnaryConstantFold` for one operand load.
  unfoldable pub unary_case : MirFunction → ℕ → MirOp → MirInstr → Option MirFunction
  unfolding const_of unary_int fconst_of add_fconst write_operand rewrite_no_op_jump same_op
  unary_case f j op prev = elim (const_of f prev) [
    | some v ↦ some (unary_int f j op v)
    | none ↦ do
      guard (same_op op MirOp.neg)
      x ← fconst_of f prev
      let added = add_fconst f (fneg x)
      some (rewrite_no_op_jump (write_operand added.0 j added.1) (suc j))
  ]

  -- The loop of `UnaryConstantFold`.
  unfoldable pub unary_round : List Bool → Round
  unfolding unary_case is_unary
  unary_round t j f = do
    guard (not (marked t j || marked t (suc j)))
    ins ← get_elem? f.code (suc j)
    guard (is_unary ins.op)
    prev ← get_elem? f.code j
    unary_case f j ins.op prev

  -- Pass 5.
  unfoldable pub unary_constant_fold : MirFunction → MirFunction × Bool
  unfolding build_target_map unary_round sweep
  unary_constant_fold f =
      sweep (unary_round (build_target_map f.code)) (length f.code - 1) 0 (f, false)

  abbrev is_float_identity : MirOp → ℕ → Bool
  is_float_identity MirOp.add v = feq v zero_bits
  is_float_identity MirOp.sub v = feq v zero_bits
  is_float_identity MirOp.mul v = feq v one_bits
  is_float_identity MirOp.div v = feq v one_bits
  is_float_identity _ v = false

  -- The loop of `FloatAlgebraicSimplify`.
  unfoldable pub float_identity_round : List Bool → Round
  unfolding fconst_of write_instr
  float_identity_round t j f = do
    guard (not (marked t j || marked t (suc j)))
    prev ← get_elem? f.code j
    ins ← get_elem? f.code (suc j)
    v ← fconst_of f prev
    guard (is_float_identity ins.op v)
    some (write_instr f (suc j) MirOp.pop (pos 0))

  -- Pass 7.
  unfoldable pub float_algebraic_simplify : MirFunction → MirFunction × Bool
  unfolding build_target_map float_identity_round sweep
  float_algebraic_simplify f =
      sweep (float_identity_round (build_target_map f.code)) (length f.code - 1) 0 (f, false)

  -- The jump is taken (`true`) or passed by; `none` for another operation.
  abbrev branch_taken : MirOp → Bool → Option Bool
  branch_taken MirOp.jump_if_false is_zero = some is_zero
  branch_taken MirOp.jump_if_true is_zero = some (not is_zero)
  branch_taken _ is_zero = none

  -- The load becomes `Pop`, the branch `Jump` or `Pop`.
  unfoldable pub fold_branch : MirFunction → ℕ → Bool → MirFunction
  unfolding write_instr write_op
  fold_branch f j taken =
      let g = write_instr f j MirOp.pop (pos 0) in
      if taken then write_op g (suc j) MirOp.jump else write_instr g (suc j) MirOp.pop (pos 0)

  -- The loop of `FloatConstBranchFold`.
  unfoldable pub float_branch_round : List Bool → Round
  unfolding fconst_of fold_branch
  float_branch_round t j f = do
    guard (not (marked t j || marked t (suc j)))
    prev ← get_elem? f.code j
    ins ← get_elem? f.code (suc j)
    v ← fconst_of f prev
    taken ← branch_taken ins.op (feq v zero_bits)
    some (fold_branch f j taken)

  -- Pass 14.
  unfoldable pub float_const_branch_fold : MirFunction → MirFunction × Bool
  unfolding build_target_map float_branch_round sweep
  float_const_branch_fold f =
      sweep (float_branch_round (build_target_map f.code)) (length f.code - 1) 0 (f, false)

-- What two constant texts fold to: a text, or an integer.
pub data TextFold : Type 0 where
  to_text : String → TextFold
  to_int : ℤ → TextFold

unfoldable pub fold_texts : MirOp → String → String → Option TextFold
fold_texts MirOp.add x y = some (to_text (str_append x y))
fold_texts MirOp.eq x y = some (to_int (of_bool (str_eq x y)))
fold_texts MirOp.neq x y = some (to_int (of_bool (not (str_eq x y))))
fold_texts _ x y = none

unfoldable pub write_text_fold : MirFunction → ℕ → TextFold → MirFunction
unfolding fold_to_int add_sconst write_instr pad_window
write_text_fold f j (to_int v) = fold_to_int f j v
write_text_fold f j (to_text s) =
    let (g, k) = add_sconst f s in pad_window (write_instr g j MirOp.load_sconst (pos k)) j

-- The loop of `StringConstantFold`.
unfoldable pub string_round : List Bool → Round
unfolding sconst_of fold_texts write_text_fold
string_round t j f = do
  guard (not (marked t j || marked t (suc j) || marked t (suc (suc j))))
  lhs ← get_elem? f.code j
  rhs ← get_elem? f.code (suc j)
  ins ← get_elem? f.code (suc (suc j))
  x ← sconst_of f lhs
  y ← sconst_of f rhs
  v ← fold_texts ins.op x y
  some (write_text_fold f j v)

-- Pass 4.
unfoldable pub string_constant_fold : MirFunction → MirFunction × Bool
unfolding build_target_map string_round sweep
string_constant_fold f =
    sweep (string_round (build_target_map f.code)) (length f.code - 2) 0 (f, false)
