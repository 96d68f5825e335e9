-- ===== src/Optimizer/DeadStore.antt =====
-- Pass 11 of compiler/src/frontend/mir_opt.cpp: `DeadStoreElim` removes a store that a later store
-- to the same local makes useless.
use lpc_interpreter.Prelude.{
  ℕ, zero, suc, ◌+◌, ◌-◌, Bool, true, false, not, ◌&&◌, ◌||◌, none, some, List, [], ◌∷◌, ltb, ◌==◌,
  if◌then◌else◌, length, get_elem?,
}
use lpc_interpreter.Prelude.Int.{ℤ, pos, negsuc, eq_ℤ}
use lpc_interpreter.Mir.{MirOp, MirInstr, MirFunction}
use lpc_interpreter.Optimizer.OpEq.{same_op}
use lpc_interpreter.Optimizer.Base.{build_target_map, marked}
use lpc_interpreter.Optimizer.Compact.{kept_count, compact_code}

-- What the scan for a second store finds at one instruction.
pub data Scan : Type 0 where
  store_again leave_alone go_on : Scan

abbrev is_break : MirOp → Bool
is_break MirOp.jump = true
is_break MirOp.jump_if_false = true
is_break MirOp.jump_if_true = true
is_break MirOp.return = true
is_break MirOp.foreach_next = true
is_break MirOp.catch = true
is_break _ = false

unfoldable pub scan_instr : ℤ → MirInstr → Scan
unfolding same_op
scan_instr slot ins =
    if same_op ins.op MirOp.store_local && eq_ℤ ins.a slot
    then store_again
    else if same_op ins.op MirOp.load_local && eq_ℤ ins.a slot
    then leave_alone
    else if is_break ins.op
    then leave_alone
    else go_on

-- The loop over j: `true` where the source sets `kill[i]`. Its loop over k finds no load in between,
-- since the loop over j stops at the first.
unfoldable pub is_dead : List MirInstr → List Bool → ℤ → ℕ → ℕ → Bool
unfolding scan_instr
is_dead code t slot zero j = false
is_dead code t slot (suc left) j =
    let rest = is_dead code t slot left (suc j) in
    elim (get_elem? code j) [
      | none ↦ false
      | some ins ↦ if marked t j then false else elim (scan_instr slot ins) [
        | store_again ↦ true
        | leave_alone ↦ false
        | go_on ↦ rest
      ]
    ]

abbrev in_slots : ℤ → ℕ → Bool
in_slots (pos k) slots = ltb k slots
in_slots (negsuc k) slots = false

-- `kill[i]`
unfoldable pub kills : List MirInstr → List Bool → ℕ → ℕ → Bool
unfolding is_dead same_op
kills code t slots i = elim (get_elem? code i) [
  | none ↦ false
  | some ins ↦
      not (marked t i)
      && same_op ins.op MirOp.store_local
      && in_slots ins.a slots
      && is_dead code t ins.a (length code - suc i) (suc i)
]

-- The mask of what stays, over the points from i on.
unfoldable pub survivors : List MirInstr → List Bool → ℕ → ℕ → ℕ → List Bool
unfolding kills
survivors code t slots zero i = []
survivors code t slots (suc left) i =
    not (kills code t slots i) ∷ survivors code t slots left (suc i)

-- `DeadStoreElim`; the removal is the code of `CompactWithKeepMask` once more.
unfoldable pub dead_store_elim : MirFunction → MirFunction × Bool
unfolding survivors build_target_map compact_code
dead_store_elim f =
    let slots = f.nargs + length f.locals in
    let keep = survivors f.code (build_target_map f.code) slots (length f.code) 0 in
    if slots == 0 || kept_count keep == length f.code
    then (f, false)
    else (record f { code = compact_code keep f.code }, true)
