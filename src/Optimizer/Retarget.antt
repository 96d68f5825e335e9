-- ===== src/Optimizer/Retarget.antt =====
-- `CompactWithKeepMask` of compiler/src/frontend/mir_opt.cpp: what happens to jumps when masked
-- instructions are removed.
use lpc_interpreter.Prelude.{
  ℕ, suc, ◌≤◌, ◌<◌, ◌≡◌, ◌∙◌, sym, refl, subst, inl, inr, Bool, true, false, some, List, length,
  get_elem?, get_or, arith,
}
use lpc_interpreter.Prelude.Int.{ℤ, pos}
use lpc_interpreter.Mir.{MirInstr}
use lpc_interpreter.Optimizer.Base.{marked, targets_a, targets_b}
use lpc_interpreter.Optimizer.Targets.{Names}
use lpc_interpreter.Optimizer.Compact.{
  kept_count, keep_masked, next_kept, next_kept_table, remap_operand, remap_instr, compact_code,
}
use lpc_interpreter.Optimizer.Marks.{marked-lt}
use lpc_interpreter.Optimizer.Rank.{
  rank, get_elem?-keep_masked, next_kept-rank, next_kept-removed, get_elem?-map,
}

-- The operand that a jump to point t has after the compaction.
abbrev pub new_target : List Bool → ℕ → ℤ
new_target keep t = remap_operand (next_kept_table keep) (length keep) (pos t)

remap_operand-next_kept :
    (keep : List Bool) (t : ℕ)
    → t ≤ length keep
    → new_target keep t ≡ pos (get_or (next_kept keep (kept_count keep) 0 (kept_count keep)) t 0)
unfolding remap_operand next_kept_table
remap_operand-next_kept keep t le = ground arith

-- The instruction of the same operation, with the operands that name no target.
abbrev pub Copies : MirInstr → MirInstr → Type 0
Copies ins out =
    (out.op ≡ ins.op)
    × (targets_a ins.op ≡ false → out.a ≡ ins.a)
    × (targets_b ins.op ≡ false → out.b ≡ ins.b)

-- In the code `out`, the copy of instruction `jump` stands at point j and names point t, where the
-- copy of `goal` stands.
pub record Lands (out : List MirInstr) (jump goal : MirInstr) (j t : ℕ) : Type 0 where
  pub moved : MirInstr
  pub found : get_elem? out j ≡ some moved
  pub copies : Copies jump moved
  pub names : Names moved t
  pub there : MirInstr
  pub found_there : get_elem? out t ≡ some there
  pub copies_there : Copies goal there

remap_instr-Copies :
    (table : List ℕ) (n : ℕ) (ins : MirInstr) → Copies ins (remap_instr table n ins)
unfolding remap_instr
remap_instr-Copies table n ins = (refl, λ e. rw e, λ e. rw e)

remap_instr-Names :
    (table : List ℕ) (n t k : ℕ) (ins : MirInstr)
    → remap_operand table n (pos t) ≡ pos k
    → Names ins t
    → Names (remap_instr table n ins) k
unfolding remap_instr
remap_instr-Names table n t k ins goes (inl (aims, e)) = inl (aims, rw (aims, e) goes)
remap_instr-Names table n t k ins goes (inr (aims, e)) = inr (aims, rw (aims, e) goes)

module _ (keep : List Bool) (code : List MirInstr) (size : length keep ≡ length code) where
  -- The instruction at a kept point of the code.
  found_moved :
      (j : ℕ) (ins : MirInstr)
      → marked keep j ≡ true
      → get_elem? code j ≡ some ins
      → get_elem? (compact_code keep code) (rank keep j)
        ≡ some (remap_instr (next_kept_table keep) (length code) ins)
  unfolding compact_code
  found_moved j ins m read =
      get_elem?-map (remap_instr (next_kept_table keep) (length code)) (keep_masked keep code)
        (rank keep j) ins (get_elem?-keep_masked keep code j m ∙ read)

  new_target-kept : (t : ℕ) → marked keep t ≡ true → new_target keep t ≡ pos (rank keep t)
  new_target-kept t m =
      let lt = marked-lt keep t m in
      remap_operand-next_kept keep t (omega arith)
      ∙ (rw (next_kept-rank keep (kept_count keep) 0 (kept_count keep) t m) (ground arith))

  new_target-removed :
      (t : ℕ)
      → marked keep (suc t) ≡ false
      → suc t < length keep
      → new_target keep (suc t) ≡ new_target keep t
  new_target-removed t gone lt =
      remap_operand-next_kept keep (suc t) (omega arith)
      ∙ ((rw (next_kept-removed keep (kept_count keep) 0 (kept_count keep) t gone lt))
          ∙ sym (remap_operand-next_kept keep t (omega arith)))

  moved-Lands :
      (j t s : ℕ) (jump goal : MirInstr)
      → marked keep j ≡ true
      → get_elem? code j ≡ some jump
      → Names jump s
      → new_target keep s ≡ pos (rank keep t)
      → marked keep t ≡ true
      → get_elem? code t ≡ some goal
      → Lands (compact_code keep code) jump goal (rank keep j) (rank keep t)
  moved-Lands j t s jump goal kept read names goes m goal_read = record {
    moved = remap_instr (next_kept_table keep) (length code) jump;
    found = found_moved j jump kept read;
    copies = remap_instr-Copies (next_kept_table keep) (length code) jump;
    names =
        remap_instr-Names (next_kept_table keep) (length code) s (rank keep t) jump
          (subst (λ n. remap_operand (next_kept_table keep) n (pos s) ≡ pos (rank keep t)) size
            goes)
          names;
    there = remap_instr (next_kept_table keep) (length code) goal;
    found_there = found_moved t goal m goal_read;
    copies_there = remap_instr-Copies (next_kept_table keep) (length code) goal;
  }

-- After the compaction by a mask of the length of the code, a kept jump to a kept instruction goes to
-- that instruction: the jump stands at its rank among the kept instructions, with its operation and
-- the operand that is no target, and its target is the rank of the instruction, where the same holds
-- of that one.
pub compact-jump_to_kept :
    (keep : List Bool) (code : List MirInstr) (j t : ℕ) (jump goal : MirInstr)
    → length keep ≡ length code
    → marked keep j ≡ true
    → get_elem? code j ≡ some jump
    → Names jump t
    → marked keep t ≡ true
    → get_elem? code t ≡ some goal
    → Lands (compact_code keep code) jump goal (rank keep j) (rank keep t)
compact-jump_to_kept keep code j t jump goal size kept read names m goal_read =
    moved-Lands keep code size j t t jump goal kept read names (new_target-kept keep code size t m)
      m goal_read

-- After such a compaction, a kept jump to an instruction that is removed behind one that is kept goes
-- back to that kept instruction, and not on to the next one that is kept.
pub compact-jump_to_removed :
    (keep : List Bool) (code : List MirInstr) (j t : ℕ) (jump goal : MirInstr)
    → length keep ≡ length code
    → marked keep j ≡ true
    → get_elem? code j ≡ some jump
    → Names jump (suc t)
    → marked keep t ≡ true
    → marked keep (suc t) ≡ false
    → suc t < length code
    → get_elem? code t ≡ some goal
    → Lands (compact_code keep code) jump goal (rank keep j) (rank keep t)
compact-jump_to_removed keep code j t jump goal size kept read names m gone lt goal_read =
    moved-Lands keep code size j t (suc t) jump goal kept read names
      (new_target-removed keep code size t gone (omega (arith, size))
        ∙ new_target-kept keep code size t m)
      m goal_read
