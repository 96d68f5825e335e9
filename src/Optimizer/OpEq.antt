-- ===== src/Optimizer/OpEq.antt =====
-- Equality of the operations of compiler/include/frontend/mir.h, as the `==` of an `enum class`.
use lpc_interpreter.Prelude.{
  ℕ, ◌≡◌, refl, sym, ap, ◌∙◌, Bool, true, List, [], ◌∷◌, ◌==◌, ==_iff, get_or,
}
use lpc_interpreter.Mir.{MirOp}

-- The number of an enumerator.
unfoldable pub op_index : MirOp → ℕ
op_index MirOp.load_const = 0
op_index MirOp.load_fconst = 1
op_index MirOp.load_sconst = 2
op_index MirOp.load_function = 3
op_index MirOp.load_local = 4
op_index MirOp.store_local = 5
op_index MirOp.load_upvalue = 6
op_index MirOp.store_upvalue = 7
op_index MirOp.add = 8
op_index MirOp.sub = 9
op_index MirOp.mul = 10
op_index MirOp.div = 11
op_index MirOp.mod_op = 12
op_index MirOp.shl = 13
op_index MirOp.shr = 14
op_index MirOp.bit_and = 15
op_index MirOp.bit_or = 16
op_index MirOp.bit_xor = 17
op_index MirOp.logic_and = 18
op_index MirOp.logic_or = 19
op_index MirOp.logic_not = 20
op_index MirOp.bit_not = 21
op_index MirOp.neg = 22
op_index MirOp.inc = 23
op_index MirOp.dec = 24
op_index MirOp.inc_local = 25
op_index MirOp.dec_local = 26
op_index MirOp.lt = 27
op_index MirOp.lte = 28
op_index MirOp.gt = 29
op_index MirOp.gte = 30
op_index MirOp.eq = 31
op_index MirOp.neq = 32
op_index MirOp.index = 33
op_index MirOp.store_index = 34
op_index MirOp.new_array = 35
op_index MirOp.new_class = 36
op_index MirOp.load_class_field = 37
op_index MirOp.store_class_field = 38
op_index MirOp.call = 39
op_index MirOp.call_efun = 40
op_index MirOp.foreach_init = 41
op_index MirOp.foreach_next = 42
op_index MirOp.jump_if_false = 43
op_index MirOp.jump_if_true = 44
op_index MirOp.jump = 45
op_index MirOp.return = 46
op_index MirOp.pop = 47
op_index MirOp.dup = 48
op_index MirOp.new_mapping = 49
op_index MirOp.catch = 50
op_index MirOp.load_global = 51
op_index MirOp.store_global = 52
op_index MirOp.upset = 53

abbrev all_ops : List MirOp
all_ops =
    MirOp.load_const ∷ MirOp.load_fconst ∷ MirOp.load_sconst ∷ MirOp.load_function
    ∷ MirOp.load_local ∷ MirOp.store_local ∷ MirOp.load_upvalue ∷ MirOp.store_upvalue ∷ MirOp.add
    ∷ MirOp.sub ∷ MirOp.mul ∷ MirOp.div ∷ MirOp.mod_op ∷ MirOp.shl ∷ MirOp.shr ∷ MirOp.bit_and
    ∷ MirOp.bit_or ∷ MirOp.bit_xor ∷ MirOp.logic_and ∷ MirOp.logic_or ∷ MirOp.logic_not
    ∷ MirOp.bit_not ∷ MirOp.neg ∷ MirOp.inc ∷ MirOp.dec ∷ MirOp.inc_local ∷ MirOp.dec_local
    ∷ MirOp.lt ∷ MirOp.lte ∷ MirOp.gt ∷ MirOp.gte ∷ MirOp.eq ∷ MirOp.neq ∷ MirOp.index
    ∷ MirOp.store_index ∷ MirOp.new_array ∷ MirOp.new_class ∷ MirOp.load_class_field
    ∷ MirOp.store_class_field ∷ MirOp.call ∷ MirOp.call_efun ∷ MirOp.foreach_init
    ∷ MirOp.foreach_next ∷ MirOp.jump_if_false ∷ MirOp.jump_if_true ∷ MirOp.jump ∷ MirOp.return
    ∷ MirOp.pop ∷ MirOp.dup ∷ MirOp.new_mapping ∷ MirOp.catch ∷ MirOp.load_global
    ∷ MirOp.store_global ∷ MirOp.upset ∷ []

unfoldable pub same_op : MirOp → MirOp → Bool
unfolding op_index
same_op a b = op_index a == op_index b

op_of_index : (a : MirOp) → get_or all_ops (op_index a) MirOp.load_const ≡ a
unfolding op_index
op_of_index MirOp.load_const = refl
op_of_index _ = refl

pub same_op→≡ : (a b : MirOp) → same_op a b ≡ true → a ≡ b
unfolding same_op
same_op→≡ a b h =
    sym (op_of_index a)
    ∙ (ap (λ k. get_or all_ops k MirOp.load_const) ((==_iff (op_index a) (op_index b)).0 h)
        ∙ op_of_index b)
