-- ===== src/Verifier/Edges.antt =====
-- The edges of the graph are those that the verifier enqueues, so a closed table knows every point
-- that a run meets.
use lpc_interpreter.Prelude.{
  ℕ, suc, ◌+◌, ◌≤◌, ◌<◌, ◌≡◌, ◌∙◌, subst, true, Option, none, some, List, length, arith,
}
use lpc_interpreter.Prelude.Int.{ℤ, pos, ◌+ℤ◌, ◌-ℤ◌}
use lpc_interpreter.Mir.{MirOp, MirInstr, MirFunction, MirModule}
use lpc_interpreter.Verifier.Check.{check_op, transfer}
use lpc_interpreter.Verifier.Loop.{depth_at, op_edges}
use lpc_interpreter.Verifier.Graph.{
  pops, pushes, goes_on, jumps, Edge, to_next, to_target, next_item, no_item, Reach, start, step,
}
use lpc_interpreter.Verifier.Depths.{get_elem?-lt}
use lpc_interpreter.Verifier.Enqueue.{AllArrive, Arrives}
use lpc_interpreter.Verifier.Invariant.{Leaves, Settled}
use lpc_interpreter.Verifier.Operands.{balance}

-- The edges of the graph against those that the verifier enqueues.
module _ (n : ℕ) (D : List (Option ℕ)) (i e : ℕ) where
  abbrev pub Reached : ℕ → ℕ → Type 0
  Reached j d = (j ≤ n) × (j < n → depth_at D j ≡ some d)

  Arrives-Reached : (t d : ℕ) → Arrives n D (pos t, pos d) → Reached t d
  Arrives-Reached t d (k, c, p, q, le, h) = ground (arith, h)

  next-Reached :
      (op : MirOp) (a b : ℤ)
      → i < n
      → goes_on op ≡ true
      → Leaves n D i e (op_edges op a b i e)
      → Reached (suc i) e
  unfolding op_edges Leaves AllArrive
  next-Reached MirOp.jump_if_false a b lt g h = Arrives-Reached (suc i) e h.1.0
  next-Reached MirOp.jump_if_true a b lt g h = Arrives-Reached (suc i) e h.1.0
  next-Reached MirOp.catch a b lt g h = Arrives-Reached (suc i) e h.1.0
  next-Reached MirOp.jump a b lt g h = cc
  next-Reached MirOp.return a b lt g h = cc
  next-Reached MirOp.foreach_next a b lt g h = cc
  next-Reached _ a b lt g h = (lt, h)

  target-Reached :
      (op : MirOp) (t : ℕ) (b : ℤ)
      → jumps op ≡ true
      → Leaves n D i e (op_edges op (pos t) b i e)
      → Reached t e
  unfolding op_edges Leaves AllArrive
  target-Reached MirOp.jump t b g h = Arrives-Reached t e h.0
  target-Reached MirOp.jump_if_false t b g h = Arrives-Reached t e h.0
  target-Reached MirOp.jump_if_true t b g h = Arrives-Reached t e h.0
  target-Reached MirOp.catch t b g h = Arrives-Reached t e h.0
  target-Reached _ t b g h = cc

  foreach-Reached :
      (k : ℕ) (b : ℤ)
      → Leaves n D i e (op_edges MirOp.foreach_next (pos k) b i e)
      → Reached (suc i) (e + k)
  unfolding op_edges Leaves AllArrive
  foreach-Reached k b h =
      let sum : pos e +ℤ pos k ≡ pos (e + k) = ground arith in
      Arrives-Reached (suc i) (e + k) (subst (λ z. Arrives n D (pos (suc i), z)) sum h.0)

  exit-Reached :
      (a : ℤ) (t d : ℕ)
      → e ≡ d + 2
      → Leaves n D i e (op_edges MirOp.foreach_next a (pos t) i e)
      → Reached t d
  unfolding op_edges Leaves AllArrive
  exit-Reached a t d h l =
      let rest : pos e -ℤ pos 2 ≡ pos d = ground arith in
      Arrives-Reached t d (subst (λ z. Arrives n D (pos t, z)) rest l.1.0)

foreach_depth :
    (op : MirOp) (a b : ℤ) (d after : ℕ)
    → op ≡ MirOp.foreach_next
    → d + pushes op a ≡ after + pops op a b
    → after ≡ d
unfolding pops pushes
foreach_depth op a b d after h bal =
    let bal' = subst (λ o. d + pushes o a ≡ after + pops o a b) h bal in omega arith

module _ (m : MirModule) (f : MirFunction) where
  abbrev n : ℕ
  n = length f.code

  -- Every edge out of a settled point is in the table.
  Edge-Reached :
      (D : List (Option ℕ)) (i d : ℕ) (ins : MirInstr) (after : ℕ)
      → i < n
      → check_op m f n ins.op ins.a ins.b d ≡ none
      → transfer ins d ≡ pos after
      → Leaves n D i after (op_edges ins.op ins.a ins.b i after)
      → {j e : ℕ} → Edge ins i d j e
      → Reached n D i after j e
  unfolding transfer
  Edge-Reached D i d ins after lt checked moved leaves {j} {e} (to_next g flow) =
      let bal = balance m f n ins.op ins.a ins.b d after checked moved in
      let same : after ≡ e = omega arith in
      subst (λ x. Reached n D i after j x) same
        (next-Reached n D i after ins.op ins.a ins.b lt g leaves)
  Edge-Reached D i d ins after lt checked moved leaves {j} {e} (to_target {t} g target flow) =
      let bal = balance m f n ins.op ins.a ins.b d after checked moved in
      let same : after ≡ e = omega arith in
      subst (λ x. Reached n D i after t x) same
        (target-Reached n D i after ins.op t ins.b g
          (subst (λ z. Leaves n D i after (op_edges ins.op z ins.b i after)) target leaves))
  Edge-Reached D i d ins after lt checked moved leaves (next_item {k} op arity) =
      let same =
        foreach_depth ins.op ins.a ins.b d after op
          (balance m f n ins.op ins.a ins.b d after checked moved) in
      subst (λ x. Reached n D i after (suc i) (x + k)) same
        (foreach-Reached n D i after k ins.b (
          subst (λ o. Leaves n D i after (op_edges o (pos k) ins.b i after)) op
            (subst (λ z. Leaves n D i after (op_edges ins.op z ins.b i after)) arity leaves)))
  Edge-Reached D i d ins after lt checked moved leaves (no_item {t} {e} op exit flow) =
      let same =
        foreach_depth ins.op ins.a ins.b d after op
          (balance m f n ins.op ins.a ins.b d after checked moved) in
      exit-Reached n D i after ins.a t e (same ∙ flow) (
        subst (λ o. Leaves n D i after (op_edges o ins.a (pos t) i after)) op
          (subst (λ z. Leaves n D i after (op_edges ins.op ins.a z i after)) exit leaves))

  abbrev pub IsClosed : List (Option ℕ) → Type 0
  IsClosed D = (p d : ℕ) → depth_at D p ≡ some d → Settled m f D p d

  -- A closed table that knows the entry knows every point that a run meets, with its depth.
  pub closed-Reach :
      (D : List (Option ℕ))
      → IsClosed D
      → depth_at D 0 ≡ some 0
      → {i d : ℕ} → Reach f i d
      → (i ≤ n) × (i < n → depth_at D i ≡ some d)
  closed-Reach D closed entry start = (omega arith, λ lt. entry)
  closed-Reach D closed entry (step {i} {d} {j} {e} {ins} r read edge) =
      let lt = get_elem?-lt f.code i ins read in
      let t = closed i d ((closed-Reach D closed entry r).1 lt) in
      let same : ins ≡ t.ins = cc (t.read) in
      Edge-Reached D i d t.ins t.after lt t.checked t.moved t.leaves
        (subst (λ x. Edge x i d j e) same edge)
