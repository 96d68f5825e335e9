-- ===== src/Optimizer/Search.antt =====
-- The search of `RemoveUnreachable` in compiler/src/frontend/mir_opt.cpp ends, and visits the points
-- that control can flow to from the first instruction and no other.
use lpc_interpreter.Prelude.{
  ℕ, zero, suc, ◌+◌, ◌*◌, ◌≤◌, ◌<◌, ◌≡◌, refl, ◌∙◌, ◌⊎◌, inl, inr, Bool, true, false, not, ◌&&◌,
  some, List, [], ◌∷◌, length, length-set, length-replicate, ltb, get_elem?, set, replicate,
  if◌then◌else◌, Bool-cases, Option-cases, arith, subst,
}
use native.Mathlib.Decide.{ℕ_discrete}
use lpc_interpreter.Prelude.Int.{ℤ, pos, negsuc}
use lpc_interpreter.Mir.{MirInstr}
use lpc_interpreter.Verifier.Enqueue.{◌∈◌}
use lpc_interpreter.Verifier.Depths.{get_elem?-none, get_elem?-lt}
use lpc_interpreter.Optimizer.Base.{marked}
use lpc_interpreter.Optimizer.Unreachable.{
  push_target, push_targets, flow_targets, visit_point, mark_reachable, reachable,
}
use lpc_interpreter.Optimizer.Marks.{
  marked-set_self, marked-set, marked-set_ne, not-marked-replicate, unmarked, unmarked-set,
  unmarked-replicate, HasTarget, push_targets-keeps, push_targets-all, length-push_targets,
  length-flow_targets,
}

-- Control flows from the first instruction to the point.
pub data Flows (code : List MirInstr) : ℕ → Type 0 where
  entry : Flows code 0
  along :
      {i j : ℕ} {ins : MirInstr}
      → Flows code i
      → get_elem? code i ≡ some ins
      → HasTarget j (flow_targets ins.op ins.a ins.b i)
      → Flows code j

mem-push_target :
    (vis : List Bool) (t : ℤ) (work : List ℕ) (j : ℕ)
    → j ∈ push_target vis t work
    → (j ∈ work) ⊎ (t ≡ pos j)
unfolding push_target
mem-push_target vis (negsuc t) work j m = inl m
mem-push_target vis (pos t) work j m =
    (elim (ltb t (length vis) && not (marked vis t))
        as (λ b. j ∈ (if b then t ∷ work else work) → (j ∈ work) ⊎ (pos t ≡ pos j)) [
          | true ↦ λ h. elim h [ inl e ↦ inr (rw e) | inr old ↦ inl old ]
          | false ↦ λ h. inl h
        ])
      m

mem-push_targets :
    (vis : List Bool) (ts : List ℤ) (work : List ℕ) (j : ℕ)
    → j ∈ push_targets vis ts work
    → (j ∈ work) ⊎ HasTarget j ts
unfolding push_targets
mem-push_targets vis [] work j m = inl m
mem-push_targets vis (t ∷ ts) work j m =
    elim (mem-push_targets vis ts (push_target vis t work) j m) [
      | inr h ↦ inr (inr h)
      | inl old ↦ elim (mem-push_target vis t work j old) [ inl o ↦ inl o | inr e ↦ inr (inl e) ]
    ]

module _ (code : List MirInstr) where
  -- Every target of a marked instruction is marked or waits on the stack, and only points that
  -- control flows to are there.
  record Inv (vis : List Bool) (work : List ℕ) : Type 0 where
    size : length vis ≡ length code
    closed :
        (p j : ℕ) (ins : MirInstr)
        → marked vis p ≡ true
        → get_elem? code p ≡ some ins
        → HasTarget j (flow_targets ins.op ins.a ins.b p)
        → j < length code
        → (marked vis j ≡ true) ⊎ (j ∈ work)
    begun : 0 < length code → (marked vis 0 ≡ true) ⊎ (0 ∈ work)
    sound : (p : ℕ) → marked vis p ≡ true → Flows code p
    waiting : (p : ℕ) → p ∈ work → Flows code p

  abbrev budget : List Bool → List ℕ → ℕ
  budget vis work = length work + 2 * unmarked vis

  -- The popped point needs no visit.
  Inv-skip :
      (vis : List Bool) (pc : ℕ) (work : List ℕ)
      → Inv vis (pc ∷ work)
      → ((marked vis pc ≡ true) ⊎ (length code ≤ pc))
      → Inv vis work
  Inv-skip vis pc work v why = record {
    size = v.size;
    closed = λ p j ins m r h lt. drop j lt (v.closed p j ins m r h lt);
    begun = λ lt. drop 0 lt (v.begun lt);
    sound = v.sound;
    waiting = λ p m. v.waiting p (inr m);
  }
    where
      drop :
          (j : ℕ)
          → j < length code
          → (marked vis j ≡ true) ⊎ (j ∈ pc ∷ work)
          → (marked vis j ≡ true) ⊎ (j ∈ work)
      drop j lt (inl m) = inl m
      drop j lt (inr (inr m)) = inr m
      drop j lt (inr (inl e)) = elim why [ inl m ↦ inl (rw e m) | inr past ↦ absurd (omega arith) ]

  -- The popped point is marked and its targets are pushed.
  Inv-visit :
      (vis : List Bool) (pc : ℕ) (work : List ℕ) (ins : MirInstr)
      → Inv vis (pc ∷ work)
      → get_elem? code pc ≡ some ins
      → Inv
          (set vis pc true)
          (push_targets (set vis pc true) (flow_targets ins.op ins.a ins.b pc) work)
  Inv-visit vis pc work ins v read = record {
    size = length-set vis pc true ∙ v.size;
    closed = λ p j i m r h lt. elim (ℕ_discrete p pc) [
      | no other ↦ stays j (v.closed p j i (marked-set_ne vis pc p other m) r h lt)
      | yes same ↦
          let i_is : i ≡ ins = cc (same) in
          push_targets-all seen ts work j
            (subst (λ x. HasTarget j (flow_targets x.op x.a x.b pc)) i_is
              (subst (λ q. HasTarget j (flow_targets i.op i.a i.b q)) same h))
            (rw (length-set vis pc true) (rw v.size lt))
    ];
    begun = λ lt. stays 0 (v.begun lt);
    sound = λ p m. elim (ℕ_discrete p pc) [
      | yes same ↦ v.waiting p (inl same)
      | no other ↦ v.sound p (marked-set_ne vis pc p other m)
    ];
    waiting = λ p m. elim (mem-push_targets seen ts work p m) [
      | inl old ↦ v.waiting p (inr old)
      | inr h ↦ along (v.waiting pc (inl refl)) read h
    ];
  }
    where
      seen : List Bool
      seen = set vis pc true

      ts : List ℤ
      ts = flow_targets ins.op ins.a ins.b pc

      stays :
          (j : ℕ)
          → (marked vis j ≡ true) ⊎ (j ∈ pc ∷ work)
          → (marked seen j ≡ true) ⊎ (j ∈ push_targets seen ts work)
      stays j (inl m) = inl (marked-set vis pc j m)
      stays j (inr (inr m)) = inr (push_targets-keeps seen ts work j m)
      stays j (inr (inl e)) =
          inl (rw e (marked-set_self vis pc (rw v.size (get_elem?-lt code pc ins read))))

  -- One round keeps the invariant and uses up budget.
  visit_point_lem :
      (vis : List Bool) (pc : ℕ) (work : List ℕ)
      → Inv vis (pc ∷ work)
      → Inv (visit_point code vis pc work).0 (visit_point code vis pc work).1
        × (budget (visit_point code vis pc work).0 (visit_point code vis pc work).1 + 1
            ≤ budget vis (pc ∷ work))
  unfolding visit_point
  visit_point_lem vis pc work v = elim (Option-cases (get_elem? code pc)) [
    | inl past ↦
        rw (past, visit_point)
          (Inv-skip vis pc work v (inr (get_elem?-none code pc past)), omega arith)
    | inr (ins, read) ↦
        rw (read, visit_point)
          (elim (Bool-cases (marked vis pc)) [
            | inl m ↦ rw m (Inv-skip vis pc work v (inl m), omega arith)
            | inr m ↦ rw m (Inv-visit vis pc work ins v read, spends ins read m)
          ])
  ]
    where
      spends :
          (ins : MirInstr)
          → get_elem? code pc ≡ some ins
          → marked vis pc ≡ false
          → budget
                (set vis pc true)
                (push_targets (set vis pc true) (flow_targets ins.op ins.a ins.b pc) work)
              + 1
            ≤ budget vis (pc ∷ work)
      spends ins read m = omega (
        arith,
        length-push_targets (set vis pc true) (flow_targets ins.op ins.a ins.b pc) work,
        length-flow_targets ins.op ins.a ins.b pc,
        unmarked-set vis pc m (rw v.size (get_elem?-lt code pc ins read)),
      )

  mark_reachable-ends :
      (fuel : ℕ) (vis : List Bool) (work : List ℕ)
      → Inv vis work
      → budget vis work ≤ fuel
      → (out : List Bool) × (mark_reachable code fuel vis work ≡ some out) × Inv out []
  unfolding mark_reachable
  mark_reachable-ends zero vis [] v le = (vis, refl, v)
  mark_reachable-ends (suc fuel) vis [] v le = (vis, refl, v)
  mark_reachable-ends zero vis (pc ∷ work) v le = absurd (omega arith)
  mark_reachable-ends (suc fuel) vis (pc ∷ work) v le =
      let (inv, spent) = visit_point_lem vis pc work v in
      mark_reachable-ends fuel (visit_point code vis pc work).0 (visit_point code vis pc work).1 inv
        (omega arith)

  -- The marks of the search.
  pub record Searched (vis : List Bool) : Type 0 where
    pub size : length vis ≡ length code
    pub entry_marked : 0 < length code → marked vis 0 ≡ true
    pub closed :
        (p j : ℕ) (ins : MirInstr)
        → marked vis p ≡ true
        → get_elem? code p ≡ some ins
        → HasTarget j (flow_targets ins.op ins.a ins.b p)
        → j < length code
        → marked vis j ≡ true
    pub sound : (p : ℕ) → marked vis p ≡ true → Flows code p

  pub reachable-Searched : (vis : List Bool) × (reachable code ≡ some vis) × Searched vis
  unfolding reachable
  reachable-Searched =
      let first =
        mark_reachable-ends (suc (2 * length code)) (replicate (length code) false) (0 ∷ []) start
          (omega (arith, unmarked-replicate (length code))) in
      (
        first.0,
        first.1,
        record {
          size = first.2.size;
          entry_marked = λ lt. marked_of _ (first.2.begun lt);
          closed = λ p j ins m r h lt. marked_of _ (first.2.closed p j ins m r h lt);
          sound = first.2.sound;
        },
      )
    where
      start : Inv (replicate (length code) false) (0 ∷ [])
      start = record {
        size = length-replicate (length code) false;
        closed = λ p j ins m r h lt. absurd (not-marked-replicate (length code) p m);
        begun = λ lt. inr (inl refl);
        sound = λ p m. absurd (not-marked-replicate (length code) p m);
        waiting = λ p m. elim m [ inl e ↦ rw e entry | inr q ↦ absurd q ];
      }

      marked_of : (b : Bool) → (b ≡ true) ⊎ ⊥ → b ≡ true
      marked_of b (inl m) = m
      marked_of b (inr q) = absurd q
