-- ===== src/Optimizer/Unreachable.antt =====
-- Pass 15 of compiler/src/frontend/mir_opt.cpp: `RemoveUnreachable`, a search from the first
-- instruction with a stack of points, and the removal of what it did not visit.
use lpc_interpreter.Prelude.{
  ℕ, zero, suc, ◌*◌, Bool, true, false, not, ◌&&◌, Option, none, some, List, [], ◌∷◌, ltb, ◌==◌,
  if◌then◌else◌, length, get_elem?, set, replicate, map,
}
use lpc_interpreter.Prelude.Int.{ℤ, pos, negsuc}
use lpc_interpreter.Mir.{MirOp, MirInstr, MirFunction}
use lpc_interpreter.Optimizer.Base.{targets_a, targets_b, marked}
use lpc_interpreter.Optimizer.Compact.{kept_count, keep_masked}

-- The targets pushed for the instruction at pc, in order.
unfoldable pub flow_targets : MirOp → ℤ → ℤ → ℕ → List ℤ
flow_targets MirOp.jump a b pc = a ∷ []
flow_targets MirOp.jump_if_false a b pc = a ∷ pos (suc pc) ∷ []
flow_targets MirOp.jump_if_true a b pc = a ∷ pos (suc pc) ∷ []
flow_targets MirOp.foreach_next a b pc = b ∷ pos (suc pc) ∷ []
flow_targets MirOp.catch a b pc = a ∷ pos (suc pc) ∷ []
flow_targets MirOp.return a b pc = []
flow_targets _ a b pc = pos (suc pc) ∷ []

-- `push_target`; the stack has its top first.
unfoldable pub push_target : List Bool → ℤ → List ℕ → List ℕ
push_target vis (pos t) work = if ltb t (length vis) && not (marked vis t) then t ∷ work else work
push_target vis (negsuc t) work = work

unfoldable pub push_targets : List Bool → List ℤ → List ℕ → List ℕ
unfolding push_target
push_targets vis [] work = work
push_targets vis (t ∷ ts) work = push_targets vis ts (push_target vis t work)

-- The visit of a popped point: the new marks and stack.
unfoldable pub visit_point : List MirInstr → List Bool → ℕ → List ℕ → List Bool × List ℕ
unfolding push_targets flow_targets
visit_point code vis pc work = elim (get_elem? code pc) [
  | none ↦ (vis, work)
  | some ins ↦
      if marked vis pc
      then (vis, work)
      else (let seen = set vis pc true in
          (seen, push_targets seen (flow_targets ins.op ins.a ins.b pc) work))
]

-- The `while`, with fuel; `none` means that the fuel ran out.
unfoldable pub mark_reachable : List MirInstr → ℕ → List Bool → List ℕ → Option (List Bool)
unfolding visit_point
mark_reachable code fuel vis [] = some vis
mark_reachable code zero vis (pc ∷ work) = none
mark_reachable code (suc fuel) vis (pc ∷ work) =
    let after = visit_point code vis pc work in mark_reachable code fuel after.0 after.1

unfoldable pub reachable : List MirInstr → Option (List Bool)
unfolding mark_reachable
reachable code =
    mark_reachable code (suc (2 * length code)) (replicate (length code) false) (0 ∷ [])

-- The table `remap`: the new index of a visited point, -1 for another.
unfoldable pub remap_visited : List Bool → ℕ → List ℤ
remap_visited [] cur = []
remap_visited (true ∷ vs) cur = pos cur ∷ remap_visited vs (suc cur)
remap_visited (false ∷ vs) cur = negsuc 0 ∷ remap_visited vs cur

-- `if (0 <= v && v < n && remap[v] >= 0) v = remap[v]`
unfoldable pub retarget : List ℤ → ℤ → ℤ
retarget table (negsuc v) = negsuc v
retarget table (pos v) = elim (get_elem? table v) [
  | some (pos k) ↦ pos k
  | some (negsuc k) ↦ pos v
  | none ↦ pos v
]

unfoldable pub retarget_instr : List ℤ → MirInstr → MirInstr
unfolding retarget
retarget_instr table ins = record ins {
  a = if targets_a ins.op then retarget table ins.a else ins.a;
  b = if targets_b ins.op then retarget table ins.b else ins.b;
}

unfoldable pub drop_unvisited : List Bool → List MirInstr → List MirInstr
unfolding remap_visited retarget_instr keep_masked
drop_unvisited vis code = map (retarget_instr (remap_visited vis 0)) (keep_masked vis code)

-- `RemoveUnreachable`; `none` where the fuel of the search runs out.
unfoldable pub remove_unreachable : MirFunction → Option (MirFunction × Bool)
unfolding reachable drop_unvisited kept_count
remove_unreachable f = if length f.code == 0 then some (f, false) else elim (reachable f.code) [
  | none ↦ none
  | some vis ↦
      if kept_count vis == length f.code
      then some (f, false)
      else some (record f { code = drop_unvisited vis f.code }, true)
]
