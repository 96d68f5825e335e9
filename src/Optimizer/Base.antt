-- ===== src/Optimizer/Base.antt =====
-- What the passes of compiler/src/frontend/mir_opt.cpp share: classes of operations, the targets of
-- jumps, the constant pools, rewriting of single instructions, and a sweep over the code.
use lpc_interpreter.Prelude.{
  ℕ, zero, suc, Bool, true, false, Option, none, some, List, [], ◌∷◌, ◌++◌, String, if◌then◌else◌,
  length, get_elem?, get_or, set, replicate,
}
use text.Mathlib.Text.{◌==◌ as str_eq}
use lpc_interpreter.Prelude.Int.{ℤ, pos, negsuc, eq_ℤ}
use lpc_interpreter.Mir.{MirOp, MirInstr, MirFunction}

infixl 5 ◌>>=◌ ◌>>◌
abbrev pub ◌>>=◌ {ℓ κ} : {A : Type ℓ} {B : Type κ} → Option A → (A → Option B) → Option B
none >>= f = none
some a >>= f = f a

abbrev pub ◌>>◌ {ℓ} : {B : Type ℓ} → Option (Unit {0}) → Option B → Option B
m >> k = m >>= λ _. k

-- A test that must hold to go on: `if (!test) continue`.
abbrev pub guard : Bool → Option (Unit {0})
guard true = some tt
guard false = none

unfoldable pub is_binary_arith : MirOp → Bool
is_binary_arith MirOp.add = true
is_binary_arith MirOp.sub = true
is_binary_arith MirOp.mul = true
is_binary_arith MirOp.div = true
is_binary_arith MirOp.mod_op = true
is_binary_arith MirOp.shl = true
is_binary_arith MirOp.shr = true
is_binary_arith MirOp.bit_and = true
is_binary_arith MirOp.bit_or = true
is_binary_arith MirOp.bit_xor = true
is_binary_arith _ = false

unfoldable pub is_binary_cmp : MirOp → Bool
is_binary_cmp MirOp.eq = true
is_binary_cmp MirOp.neq = true
is_binary_cmp MirOp.lt = true
is_binary_cmp MirOp.lte = true
is_binary_cmp MirOp.gt = true
is_binary_cmp MirOp.gte = true
is_binary_cmp _ = false

unfoldable pub is_unary : MirOp → Bool
is_unary MirOp.neg = true
is_unary MirOp.bit_not = true
is_unary MirOp.logic_not = true
is_unary MirOp.inc = true
is_unary MirOp.dec = true
is_unary _ = false

unfoldable pub invert_cmp : MirOp → MirOp
invert_cmp MirOp.eq = MirOp.neq
invert_cmp MirOp.neq = MirOp.eq
invert_cmp MirOp.lt = MirOp.gte
invert_cmp MirOp.lte = MirOp.gt
invert_cmp MirOp.gt = MirOp.lte
invert_cmp MirOp.gte = MirOp.lt
invert_cmp op = op

-- `Jump`, `JumpIfFalse`, `JumpIfTrue` and `Catch` name a target in `a`.
abbrev pub targets_a : MirOp → Bool
targets_a MirOp.jump = true
targets_a MirOp.jump_if_false = true
targets_a MirOp.jump_if_true = true
targets_a MirOp.catch = true
targets_a _ = false

-- `ForeachNext` names its exit in `b`.
abbrev pub targets_b : MirOp → Bool
targets_b MirOp.foreach_next = true
targets_b _ = false

-- A write out of range is left out, by the test in the source.
unfoldable pub mark_if : Bool → ℤ → List Bool → List Bool
mark_if true (pos k) t = set t k true
mark_if true (negsuc k) t = t
mark_if false v t = t

unfoldable pub mark_all : List MirInstr → List Bool → List Bool
unfolding mark_if
mark_all [] t = t
mark_all (ins ∷ rest) t =
    mark_all rest (mark_if (targets_b ins.op) ins.b (mark_if (targets_a ins.op) ins.a t))

-- `BuildTargetMap`.
unfoldable pub build_target_map : List MirInstr → List Bool
unfolding mark_all
build_target_map code = mark_all code (replicate (length code) false)

-- `is_target[i]`
abbrev pub marked : List Bool → ℕ → Bool
marked t i = get_or t i false

-- The first index that passes the test.
unfoldable pub find_index {ℓ} : {A : Type ℓ} → (A → Bool) → List A → Option ℕ
find_index p [] = none
find_index p (x ∷ xs) = if p x then some 0 else (find_index p xs >>= λ k. some (suc k))

-- The pool with the value in it, and its index: the loop that the three `Add…Const` share.
unfoldable pub intern {ℓ} : {A : Type ℓ} → (A → Bool) → A → List A → List A × ℕ
unfolding find_index
intern p v pool = elim (find_index p pool) [
  | some k ↦ (pool, k)
  | none ↦ (pool ++ v ∷ [], length pool)
]

-- `AddIConst`, which changes the pool and returns the index.
unfoldable pub add_iconst : MirFunction → ℤ → MirFunction × ℕ
unfolding intern
add_iconst f v =
    let (pool, k) = intern (λ c. eq_ℤ c v) v f.iconsts in (record f { iconsts = pool }, k)

-- `AddSConst`.
unfoldable pub add_sconst : MirFunction → String → MirFunction × ℕ
unfolding intern
add_sconst f v =
    let (pool, k) = intern (λ c. str_eq c v) v f.sconsts in (record f { sconsts = pool }, k)

-- `code[i].op = op; code[i].a = a; code[i].b = 0`, the line kept.
unfoldable pub write_instr : MirFunction → ℕ → MirOp → ℤ → MirFunction
write_instr f i op a = elim (get_elem? f.code i) [
  | none ↦ f
  | some ins ↦ record f { code = set f.code i (record ins { op = op; a = a; b = pos 0 }) }
]

-- `RewriteLoadConst`.
unfoldable pub rewrite_load_const : MirFunction → ℕ → ℤ → MirFunction
unfolding write_instr add_iconst
rewrite_load_const f pc value =
    let (g, k) = add_iconst f value in write_instr g pc MirOp.load_const (pos k)

-- `RewriteNoOpJump`.
unfoldable pub rewrite_no_op_jump : MirFunction → ℕ → MirFunction
unfolding write_instr
rewrite_no_op_jump f pc = write_instr f pc MirOp.jump (pos (suc pc))

unfoldable pub const_operand : List ℤ → MirOp → ℤ → Option ℤ
const_operand pool MirOp.load_const (pos k) = get_elem? pool k
const_operand pool _ _ = none

-- The value of a `LoadConst` whose index is in the pool.
unfoldable pub const_of : MirFunction → MirInstr → Option ℤ
unfolding const_operand
const_of f ins = const_operand f.iconsts ins.op ins.a

-- One round at window j gives the changed function, or `none` where the source goes on.
abbrev pub Round : Type 0
Round = ℕ → MirFunction → Option MirFunction

unfoldable pub after_round : Option MirFunction → MirFunction × Bool → MirFunction × Bool
after_round none s = s
after_round (some g) s = (g, true)

-- The `for` over the windows from j on, with the rounds left; the flag is `changed`.
unfoldable pub sweep : Round → ℕ → ℕ → MirFunction × Bool → MirFunction × Bool
unfolding after_round
sweep round zero j s = s
sweep round (suc left) j s = sweep round left (suc j) (after_round (round j s.0) s)
