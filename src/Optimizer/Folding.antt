-- ===== src/Optimizer/Folding.antt =====
-- The folding of two constants in compiler/src/frontend/mir_opt.cpp, for integers and for doubles.
-- A `double` is its bit pattern; its arithmetic is the platform's, a parameter.
use lpc_interpreter.Prelude.{ℕ, Bool, not, Option, none, some, if◌then◌else◌}
use lpc_interpreter.Prelude.Int.{ℤ, pos, ◌+ℤ◌, ◌-ℤ◌, ◌*ℤ◌, eq_ℤ, ltb_ℤ}
use lpc_interpreter.Mir.{MirOp}
use lpc_interpreter.Optimizer.Words.{
  wrap64, div64, mod64, shl64, shr64, and64, or64, xor64, of_bool,
}

-- `FoldBinary`; `none` is its `false`.
unfoldable pub fold_binary : MirOp → ℤ → ℤ → Option ℤ
fold_binary MirOp.add x y = some (wrap64 (x +ℤ y))
fold_binary MirOp.sub x y = some (wrap64 (x -ℤ y))
fold_binary MirOp.mul x y = some (wrap64 (x *ℤ y))
fold_binary MirOp.div x y = if eq_ℤ y (pos 0) then none else some (div64 x y)
fold_binary MirOp.mod_op x y = if eq_ℤ y (pos 0) then none else some (mod64 x y)
fold_binary MirOp.shl x y = some (shl64 x y)
fold_binary MirOp.shr x y = some (shr64 x y)
fold_binary MirOp.bit_and x y = some (and64 x y)
fold_binary MirOp.bit_or x y = some (or64 x y)
fold_binary MirOp.bit_xor x y = some (xor64 x y)
fold_binary MirOp.eq x y = some (of_bool (eq_ℤ x y))
fold_binary MirOp.neq x y = some (of_bool (not (eq_ℤ x y)))
fold_binary MirOp.lt x y = some (of_bool (ltb_ℤ x y))
fold_binary MirOp.lte x y = some (of_bool (not (ltb_ℤ y x)))
fold_binary MirOp.gt x y = some (of_bool (ltb_ℤ y x))
fold_binary MirOp.gte x y = some (of_bool (not (ltb_ℤ x y)))
fold_binary _ x y = none

-- The IEEE operations of the platform on bit patterns.
pub record Doubles : Type 0 where
  pub fadd : ℕ → ℕ → ℕ
  pub fsub : ℕ → ℕ → ℕ
  pub fmul : ℕ → ℕ → ℕ
  pub fdiv : ℕ → ℕ → ℕ
  pub fneg : ℕ → ℕ
  pub feq : ℕ → ℕ → Bool
  pub flt : ℕ → ℕ → Bool
  pub fle : ℕ → ℕ → Bool

-- 0.0 and 1.0
abbrev pub zero_bits : ℕ
zero_bits = 0

abbrev pub one_bits : ℕ
one_bits = 0x3ff0_0000_0000_0000

module _ (fl : Doubles) where
  open fl use {fadd, fsub, fmul, fdiv, feq, flt, fle}

  -- The arithmetic cases of `FoldFloatBinary`.
  unfoldable pub fold_float_arith : MirOp → ℕ → ℕ → Option ℕ
  fold_float_arith MirOp.add x y = some (fadd x y)
  fold_float_arith MirOp.sub x y = some (fsub x y)
  fold_float_arith MirOp.mul x y = some (fmul x y)
  fold_float_arith MirOp.div x y = if feq y zero_bits then none else some (fdiv x y)
  fold_float_arith _ x y = none

  -- Its comparisons. The source stores 1.0 or 0.0, and its one caller casts that to an integer.
  unfoldable pub fold_float_cmp : MirOp → ℕ → ℕ → Option ℤ
  fold_float_cmp MirOp.eq x y = some (of_bool (feq x y))
  fold_float_cmp MirOp.neq x y = some (of_bool (not (feq x y)))
  fold_float_cmp MirOp.lt x y = some (of_bool (flt x y))
  fold_float_cmp MirOp.lte x y = some (of_bool (fle x y))
  fold_float_cmp MirOp.gt x y = some (of_bool (flt y x))
  fold_float_cmp MirOp.gte x y = some (of_bool (fle y x))
  fold_float_cmp _ x y = none
