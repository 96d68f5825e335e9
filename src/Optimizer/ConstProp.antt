-- ===== src/Optimizer/ConstProp.antt =====
-- Pass 1 of compiler/src/frontend/mir_opt.cpp: constants stored to a local are loaded in its place,
-- up to the next jump or jump target.
use lpc_interpreter.Prelude.{
  ℕ, zero, suc, ◌+◌, Bool, true, false, Option, none, some, List, ◌==◌, if◌then◌else◌, length,
  get_elem?, set, replicate,
}
use lpc_interpreter.Prelude.Int.{ℤ, pos}
use lpc_interpreter.Mir.{MirOp, MirFunction}
use lpc_interpreter.Optimizer.Base.{
  build_target_map, marked, add_iconst, write_instr, const_operand,
}

-- The function, the local constants (`known` and `value` in one table) and `changed`.
pub record PropState : Type 0 where
  pub fn : MirFunction
  pub known : List (Option ℤ)
  pub changed : Bool

unfoldable pub known_at : List (Option ℤ) → ℤ → Option ℤ
known_at k (pos i) = elim (get_elem? k i) [ some v ↦ v | none ↦ none ]
known_at k _ = none

unfoldable pub clear_known : List (Option ℤ) → List (Option ℤ)
clear_known k = replicate (length k) none

-- A load of a local with a known constant becomes a load of the constant.
unfoldable pub propagate_load : ℕ → MirOp → ℤ → PropState → PropState
unfolding add_iconst write_instr known_at
propagate_load i MirOp.load_local a s = elim (known_at s.known a) [
  | none ↦ s
  | some v ↦
      let added = add_iconst s.fn v in
      record s { fn = write_instr added.0 i MirOp.load_const (pos added.1); changed = true }
]
propagate_load i _ a s = s

-- The constant that the instruction before i loads, unless i is a target.
unfoldable pub stored_const : List Bool → ℕ → MirFunction → Option ℤ
unfolding const_operand
stored_const t zero f = none
stored_const t (suc i) f = elim (get_elem? f.code i) [
  | none ↦ none
  | some prev ↦ if marked t (suc i) then none else const_operand f.iconsts prev.op prev.a
]

-- A store makes its local known, or unknown. A slot out of range is left out.
unfoldable pub record_store : List Bool → ℕ → MirOp → ℤ → PropState → PropState
unfolding stored_const
record_store t i MirOp.store_local (pos a) s = record s {
  known = set s.known a (stored_const t i s.fn);
}
record_store t i _ a s = s

abbrev forgets : MirOp → Bool
forgets MirOp.jump = true
forgets MirOp.jump_if_false = true
forgets MirOp.jump_if_true = true
forgets MirOp.return = true
forgets MirOp.foreach_next = true
forgets MirOp.catch = true
forgets _ = false

unfoldable pub forget_if : Bool → PropState → PropState
unfolding clear_known
forget_if true s = record s { known = clear_known s.known }
forget_if false s = s

-- One round at instruction i. The operation is read before and after the load is rewritten; a load
-- is no store and no jump, so one reading serves.
unfoldable pub prop_step : List Bool → ℕ → PropState → PropState
unfolding forget_if propagate_load record_store
prop_step t i s = elim (get_elem? s.fn.code i) [
  | none ↦ s
  | some ins ↦
      let s1 = propagate_load i ins.op ins.a (forget_if (marked t i) s) in
      forget_if (forgets ins.op) (record_store t i ins.op ins.a s1)
]

unfoldable pub prop_loop : List Bool → ℕ → ℕ → PropState → PropState
unfolding prop_step
prop_loop t zero i s = s
prop_loop t (suc left) i s = prop_loop t left (suc i) (prop_step t i s)

-- `LocalConstPropagation`.
unfoldable pub local_const_propagation : MirFunction → MirFunction × Bool
unfolding prop_loop build_target_map
local_const_propagation f =
    let slots = f.nargs + length f.locals in
    let end =
      prop_loop (build_target_map f.code) (length f.code) 0
        (record { fn = f; known = replicate slots none; changed = false }) in
    if slots == 0 then (f, false) else (end.fn, end.changed)
