-- ===== src/Optimizer/Moved.antt =====
-- Where `RemoveUnreachable` of compiler/src/frontend/mir_opt.cpp moves an instruction, and the targets
-- that it names.
use lpc_interpreter.Prelude.{
  ℕ, suc, none, ltb, ltb→lt, ◌≤◌, ◌<◌, ◌≡◌, refl, ap, sym, ◌∙◌, subst, inl, inr, Bool, true, false,
  some, List, length, get_elem?, if◌then◌else◌, Bool-cases, arith, length-map,
}
use lpc_interpreter.Prelude.Int.{ℤ, pos, negsuc}
use lpc_interpreter.Mir.{MirOp, MirInstr}
use lpc_interpreter.Verifier.Depths.{get_elem?-lt}
use lpc_interpreter.Optimizer.Base.{targets_a, targets_b, marked}
use lpc_interpreter.Optimizer.Compact.{keep_masked}
use lpc_interpreter.Optimizer.Unreachable.{
  flow_targets, remap_visited, retarget, retarget_instr, drop_unvisited,
}
use lpc_interpreter.Optimizer.Marks.{HasTarget, marked-lt}
use lpc_interpreter.Optimizer.Flow.{
  falls, Follows, to_next, to_target, to_exit, Runs, Follows-HasTarget, HasTarget-Follows,
  Flows-Runs,
}
use lpc_interpreter.Optimizer.Search.{Flows, entry, along, Searched}
use lpc_interpreter.Optimizer.Rank.{
  rank, rank-suc, rank-le, rank_mono, remap_visited-past, get_elem?-keep_masked, remap_visited-rank,
  get_elem?-map, kept_from,
}

-- A successor of instruction `ins` at point i of the code that goes to point l.
abbrev pub Origin : List MirInstr → (ℕ → ℕ) → ℕ → MirInstr → ℕ → Type 0
Origin code to i ins l = (j : ℕ) × (j < length code) × Follows ins.op ins.a ins.b i j × (to j ≡ l)

-- Instruction `ins` at point i of the code stands at point `to i` of the other code: the same
-- operation, operands that name no target unchanged, each successor in the code moved along, and no
-- successor in the other code but those.
pub record Moved (code out : List MirInstr) (to : ℕ → ℕ) (i : ℕ) (ins : MirInstr) : Type 0 where
  pub moved : MirInstr
  pub found : get_elem? out (to i) ≡ some moved
  pub same_op : moved.op ≡ ins.op
  pub same_a : targets_a ins.op ≡ false → moved.a ≡ ins.a
  pub same_b : targets_b ins.op ≡ false → moved.b ≡ ins.b
  pub follows :
      (j : ℕ)
      → Follows ins.op ins.a ins.b i j
      → j < length code
      → Follows moved.op moved.a moved.b (to i) (to j)
  pub only :
      (l : ℕ) → Follows moved.op moved.a moved.b (to i) l → l < length out → Origin code to i ins l

module _ (vis : List Bool) where
  abbrev table : List ℤ
  table = remap_visited vis 0

  retarget-marked :
      (a : ℤ) (j : ℕ) → a ≡ pos j → marked vis j ≡ true → retarget table a ≡ pos (rank vis j)
  unfolding retarget
  retarget-marked a j e m = rw (e, retarget, remap_visited-rank vis 0 j m) (ground arith)

  next-marked :
      (i j : ℕ)
      → pos (suc i) ≡ pos j
      → marked vis i ≡ true
      → pos (suc (rank vis i)) ≡ pos (rank vis j)
  next-marked i j e m =
      let same : suc i ≡ j = cc in
      subst (λ x. pos (suc (rank vis i)) ≡ pos (rank vis x)) same (ap pos (sym (rank-suc vis i m)))

  retarget-follows :
      (op : MirOp) (a b : ℤ) (i j : ℕ)
      → HasTarget j (flow_targets op a b i)
      → marked vis i ≡ true
      → marked vis j ≡ true
      → HasTarget (rank vis j) (
          flow_targets op
            (if targets_a op then retarget table a else a)
            (if targets_b op then retarget table b else b)
            (rank vis i))
  unfolding flow_targets
  retarget-follows MirOp.jump a b i j (inl e) mi mj = inl (retarget-marked a j e mj)
  retarget-follows MirOp.jump a b i j (inr e) mi mj = absurd e
  retarget-follows MirOp.jump_if_false a b i j (inl e) mi mj = inl (retarget-marked a j e mj)
  retarget-follows MirOp.jump_if_false a b i j (inr (inl e)) mi mj =
      inr (inl (next-marked i j e mi))
  retarget-follows MirOp.jump_if_false a b i j (inr (inr e)) mi mj = absurd e
  retarget-follows MirOp.jump_if_true a b i j (inl e) mi mj = inl (retarget-marked a j e mj)
  retarget-follows MirOp.jump_if_true a b i j (inr (inl e)) mi mj = inr (inl (next-marked i j e mi))
  retarget-follows MirOp.jump_if_true a b i j (inr (inr e)) mi mj = absurd e
  retarget-follows MirOp.catch a b i j (inl e) mi mj = inl (retarget-marked a j e mj)
  retarget-follows MirOp.catch a b i j (inr (inl e)) mi mj = inr (inl (next-marked i j e mi))
  retarget-follows MirOp.catch a b i j (inr (inr e)) mi mj = absurd e
  retarget-follows MirOp.foreach_next a b i j (inl e) mi mj = inl (retarget-marked b j e mj)
  retarget-follows MirOp.foreach_next a b i j (inr (inl e)) mi mj = inr (inl (next-marked i j e mi))
  retarget-follows MirOp.foreach_next a b i j (inr (inr e)) mi mj = absurd e
  retarget-follows MirOp.return a b i j h mi mj = absurd h
  retarget-follows _ a b i j (inl e) mi mj = inl (next-marked i j e mi)
  retarget-follows _ a b i j (inr e) mi mj = absurd e

module _ (code : List MirInstr) (vis : List Bool) (s : Searched code vis) where
  -- Every point that control flows to is marked.
  pub Flows-marked : {i : ℕ} → Flows code i → i < length code → marked vis i ≡ true
  Flows-marked entry lt = s.entry_marked lt
  Flows-marked (along {i} {j} {ins} r read h) lt =
      s.closed i j ins (Flows-marked r (get_elem?-lt code i ins read)) read h lt

  -- A point of what is left comes from a point of the code of that rank.
  kept_point :
      (l : ℕ)
      → l < length (drop_unvisited vis code)
      → (i : ℕ) × (marked vis i ≡ true) × (rank vis i ≡ l)
  unfolding drop_unvisited
  kept_point l lt = kept_from vis code l (
      subst (λ n. l < n) (length-map (keep_masked vis code) (retarget_instr (remap_visited vis 0)))
        lt)

  kept_point-lt : (l : ℕ) → l < length (drop_unvisited vis code) → l < length code
  kept_point-lt l lt =
      let (i, m, e) = kept_point l lt in omega (arith, marked-lt vis i m, rank-le vis i, s.size, e)

  module _ (i : ℕ) (ins : MirInstr) (r : Flows code i) (read : get_elem? code i ≡ some ins) (l : ℕ)
      (lt : l < length (drop_unvisited vis code)) where
    target-Origin :
        (a : ℤ)
        → ((j : ℕ) → a ≡ pos j → Follows ins.op ins.a ins.b i j)
        → retarget (remap_visited vis 0) a ≡ pos l
        → Origin code (rank vis) i ins l
    unfolding retarget
    target-Origin (negsuc v) f e = cc
    target-Origin (pos v) f e = elim (Bool-cases (ltb v (length code))) [
      | inl inside ↦
          let below : v < length code = ltb→lt _ _ inside in
          let h = f v refl in
          let m = Flows-marked (along r read (Follows-HasTarget h)) below in
          let same : pos (rank vis v) ≡ pos l = sym (retarget-marked vis (pos v) v refl m) ∙ e in
          (v, below, h, cc)
      | inr outside ↦
          let past : get_elem? (remap_visited vis 0) v ≡ none =
            remap_visited-past vis 0 v (ground (arith, s.size)) in
          let same : pos v ≡ pos l = rw (retarget, past) at e in
          let at_l : v ≡ l = cc in
          let below : l < length code = kept_point-lt l lt in absurd (ground (arith, at_l, below))
    ]

    next-Origin : falls ins.op ≡ true → suc (rank vis i) ≡ l → Origin code (rank vis) i ins l
    next-Origin h e = elim (Bool-cases (ltb (suc i) (length code))) [
      | inl inside ↦ (
        suc i,
        ltb→lt _ _ inside,
        to_next h,
        rank-suc vis i (Flows-marked r (get_elem?-lt code i ins read)) ∙ e,
      )
      | inr outside ↦
          let (k, m, at_l) = kept_point l lt in
          let below = marked-lt vis k m in
          let least : rank vis k ≤ rank vis i = rank_mono vis k i (ground (arith, s.size)) in
          absurd (omega arith)
    ]

  moved-Origin :
      (i : ℕ) (ins : MirInstr) (l : ℕ)
      → Flows code i
      → get_elem? code i ≡ some ins
      → Follows ins.op
          (if targets_a ins.op then retarget (remap_visited vis 0) ins.a else ins.a)
          (if targets_b ins.op then retarget (remap_visited vis 0) ins.b else ins.b)
          (rank vis i)
          l
      → l < length (drop_unvisited vis code)
      → Origin code (rank vis) i ins l
  moved-Origin i ins l r read (to_next h) lt = next-Origin i ins r read l lt h refl
  moved-Origin i ins l r read (to_target h e) lt =
      target-Origin i ins r read l lt ins.a (λ j e. to_target h e) (rw h at e)
  moved-Origin i ins l r read (to_exit h e) lt =
      target-Origin i ins r read l lt ins.b (λ j e. to_exit h e) (rw h at e)

  pub drop_unvisited-Moved :
      (i : ℕ) (ins : MirInstr)
      → Flows code i
      → get_elem? code i ≡ some ins
      → Moved code (drop_unvisited vis code) (rank vis) i ins
  unfolding drop_unvisited retarget_instr
  drop_unvisited-Moved i ins r read =
      let m = Flows-marked r (get_elem?-lt code i ins read) in
      record {
        moved = retarget_instr (remap_visited vis 0) ins;
        found =
            get_elem?-map (retarget_instr (remap_visited vis 0)) (keep_masked vis code) (rank vis i)
              ins (get_elem?-keep_masked vis code i m ∙ read);
        same_op = refl;
        same_a = λ e. rw e;
        same_b = λ e. rw e;
        follows = λ j h lt.
            let onward = Follows-HasTarget h in
            HasTarget-Follows _ _ _ _ _ (
              retarget-follows vis ins.op ins.a ins.b i j onward m
                (Flows-marked (along r read onward) lt));
        only = λ l h lt. moved-Origin i ins l r read h lt;
      }

  pub drop_unvisited-only :
      (k : ℕ) → k < length (drop_unvisited vis code) → (i : ℕ) × Runs code i × (rank vis i ≡ k)
  unfolding drop_unvisited
  drop_unvisited-only k lt = let (i, m, e) = kept_point k lt in (i, Flows-Runs (s.sound i m), e)
