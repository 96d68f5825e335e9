-- ===== src/Optimizer/Compact.antt =====
-- Removing instructions in compiler/src/frontend/mir_opt.cpp: the compaction of
-- `CompactWithKeepMask`, which pass 11 repeats, and the peepholes that use it.
use lpc_interpreter.Prelude.{
  ℕ, zero, suc, ◌-◌, Bool, true, false, not, ◌&&◌, ◌||◌, Option, none, some, List, [], ◌∷◌, leb,
  ◌==◌, if◌then◌else◌, length, get_elem?, get_or, set, replicate, map,
}
use lpc_interpreter.Prelude.Int.{ℤ, pos, negsuc, eq_ℤ}
use lpc_interpreter.Mir.{MirOp, MirInstr, MirFunction}
use lpc_interpreter.Optimizer.OpEq.{same_op}
use lpc_interpreter.Optimizer.Base.{
  ◌>>=◌, ◌>>◌, guard, targets_a, targets_b, build_target_map, marked, const_of, write_instr,
}

-- How many entries of the mask are kept.
unfoldable pub kept_count : List Bool → ℕ
kept_count [] = 0
kept_count (true ∷ ks) = suc (kept_count ks)
kept_count (false ∷ ks) = kept_count ks

-- The kept instructions, in order.
unfoldable pub keep_masked {ℓ} : {A : Type ℓ} → List Bool → List A → List A
keep_masked [] xs = []
keep_masked (k ∷ ks) [] = []
keep_masked (true ∷ ks) (x ∷ xs) = x ∷ keep_masked ks xs
keep_masked (false ∷ ks) (x ∷ xs) = keep_masked ks xs

-- The table `next_kept`, from the counters `cur` and `nxt`; its last entry is `kept`.
unfoldable pub next_kept : List Bool → ℕ → ℕ → ℕ → List ℕ
next_kept [] kept cur nxt = kept ∷ []
next_kept (true ∷ ks) kept cur nxt = cur ∷ next_kept ks kept (suc cur) cur
next_kept (false ∷ ks) kept cur nxt = nxt ∷ next_kept ks kept cur nxt

-- The table that the source builds, with `nxt` first at `kept`.
unfoldable pub next_kept_table : List Bool → List ℕ
unfolding next_kept kept_count
next_kept_table keep = next_kept keep (kept_count keep) 0 (kept_count keep)

-- `if (0 <= v && v <= n) v = next_kept[v]`
unfoldable pub remap_operand : List ℕ → ℕ → ℤ → ℤ
remap_operand table n (pos v) = if leb v n then pos (get_or table v 0) else pos v
remap_operand table n (negsuc v) = negsuc v

unfoldable pub remap_instr : List ℕ → ℕ → MirInstr → MirInstr
unfolding remap_operand
remap_instr table n ins = record ins {
  a = if targets_a ins.op then remap_operand table n ins.a else ins.a;
  b = if targets_b ins.op then remap_operand table n ins.b else ins.b;
}

unfoldable pub compact_code : List Bool → List MirInstr → List MirInstr
unfolding remap_instr keep_masked next_kept_table
compact_code keep code =
    map (remap_instr (next_kept_table keep) (length code)) (keep_masked keep code)

-- `CompactWithKeepMask`.
unfoldable pub compact_with_keep_mask : MirFunction → List Bool → MirFunction × Bool
unfolding compact_code
compact_with_keep_mask f keep =
    if not (length keep == length f.code) || kept_count keep == length f.code
    then (f, false)
    else (record f { code = compact_code keep f.code }, true)

-- A function with the mask of the instructions to keep, and `changed`.
pub record Peep : Type 0 where
  pub fn : MirFunction
  pub keep : List Bool
  pub changed : Bool

abbrev pub drop_at : List Bool → ℕ → List Bool
drop_at keep i = set keep i false

abbrev pub PeepRound : Type 0
PeepRound = ℕ → Peep → Option Peep

unfoldable pub peep_after : Option Peep → Peep → Peep
peep_after none s = s
peep_after (some s') s = s'

unfoldable pub peep_sweep : PeepRound → ℕ → ℕ → Peep → Peep
unfolding peep_after
peep_sweep round zero j s = s
peep_sweep round (suc left) j s = peep_sweep round left (suc j) (peep_after (round j s) s)

abbrev pub all_kept : MirFunction → Peep
all_kept f = record { fn = f; keep = replicate (length f.code) true; changed = false }

-- `if (!changed) return false; CompactWithKeepMask(f, keep); return true;`
unfoldable pub finish_peep : MirFunction → Peep → MirFunction × Bool
unfolding compact_with_keep_mask
finish_peep f s = if s.changed then ((compact_with_keep_mask s.fn s.keep).0, true) else (f, false)

abbrev step_op : MirOp → Option MirOp
step_op MirOp.add = some MirOp.inc
step_op MirOp.sub = some MirOp.dec
step_op _ = none

-- `IncDecPeephole`: `LoadConst 1; Add` becomes `Inc`.
unfoldable pub inc_dec_round : List Bool → PeepRound
unfolding const_of write_instr
inc_dec_round t j s = do
  guard (not (marked t j || marked t (suc j)))
  prev ← get_elem? s.fn.code j
  c ← const_of s.fn prev
  guard (eq_ℤ c (pos 1))
  ins ← get_elem? s.fn.code (suc j)
  op ← step_op ins.op
  some
      (record { fn = write_instr s.fn j op (pos 0); keep = drop_at s.keep (suc j); changed = true })

unfoldable pub inc_dec_peephole : MirFunction → MirFunction × Bool
unfolding build_target_map inc_dec_round peep_sweep finish_peep
inc_dec_peephole f =
    finish_peep f
      (peep_sweep (inc_dec_round (build_target_map f.code)) (length f.code - 1) 0 (all_kept f))

abbrev local_step_op : MirOp → Option MirOp
local_step_op MirOp.inc = some MirOp.inc_local
local_step_op MirOp.dec = some MirOp.dec_local
local_step_op _ = none

-- `code[i].op = op; code[i].b = 0`, with `a` kept.
unfoldable pub write_op_b : MirFunction → ℕ → MirOp → MirFunction
write_op_b f i op = elim (get_elem? f.code i) [
  | none ↦ f
  | some ins ↦ record f { code = set f.code i (record ins { op = op; b = pos 0 }) }
]

-- `LocalIncDecPeephole`: load, step and store of one local become one instruction.
unfoldable pub local_inc_dec_round : List Bool → PeepRound
unfolding same_op write_op_b
local_inc_dec_round t j s = do
  guard (not (marked t j || marked t (suc j) || marked t (suc (suc j))))
  x ← get_elem? s.fn.code j
  y ← get_elem? s.fn.code (suc j)
  z ← get_elem? s.fn.code (suc (suc j))
  guard (same_op x.op MirOp.load_local && same_op z.op MirOp.store_local)
  guard (eq_ℤ x.a z.a)
  op ← local_step_op y.op
  some (record {
    fn = write_op_b s.fn j op;
    keep = drop_at (drop_at s.keep (suc j)) (suc (suc j));
    changed = true;
  })

unfoldable pub local_inc_dec_peephole : MirFunction → MirFunction × Bool
unfolding build_target_map local_inc_dec_round peep_sweep finish_peep
local_inc_dec_peephole f =
    finish_peep f (
      peep_sweep (local_inc_dec_round (build_target_map f.code)) (length f.code - 2) 0 (all_kept f))
