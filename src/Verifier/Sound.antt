-- ===== src/Verifier/Sound.antt =====
-- What an accepting verdict of `VerifyMirFunction` says of the runs of the code.
use lpc_interpreter.Prelude.{
  ℕ, ◌+◌, ◌≤◌, ◌<◌, ◌≡◌, refl, sym, subst, inl, inr, true, false, Option, none, some, List, length,
  get_elem?, replicate, length-replicate, ◌==◌, Bool-cases, arith,
}
use lpc_interpreter.Prelude.Int.{pos}
use lpc_interpreter.Mir.{MirInstr, MirFunction, MirModule}
use lpc_interpreter.Verifier.Check.{check_op, transfer}
use lpc_interpreter.Verifier.Loop.{
  Step, next, fail, Verify2Result, accepted, refuse, conclude, depth_at, is_foreach_next,
  verify_loop, verify_function, first_state,
}
use lpc_interpreter.Verifier.Graph.{pops, pushes, Reach}
use lpc_interpreter.Verifier.Depths.{
  Extends, replicate-none, unset-set, unset-replicate, depth_at-set_self, depth_unique,
}
use lpc_interpreter.Verifier.Enqueue.{Ensures}
use lpc_interpreter.Verifier.Invariant.{Settled}
use lpc_interpreter.Verifier.Operands.{balance}
use lpc_interpreter.Verifier.Run.{Ended, verify_loop-Ended, first_state-Done}
use lpc_interpreter.Verifier.Edges.{closed-Reach}

-- The instruction at point i, met at depth d, passes the tests of its operands and of the depth before
-- it, leaves a depth that is not below 0, and leaves the two values of an iterator if it is a step of
-- a `foreach`. The depth that it leaves covers what it takes and pushes.
pub record Passes (m : MirModule) (f : MirFunction) (i d : ℕ) : Type 0 where
  pub ins : MirInstr
  pub read : get_elem? f.code i ≡ some ins
  pub checked : check_op m f (length f.code) ins.op ins.a ins.b d ≡ none
  pub after : ℕ
  pub moved : transfer ins d ≡ pos after
  pub iterates : is_foreach_next ins.op ≡ true → 2 ≤ after
  pub fits : pops ins.op ins.a ins.b ≤ d + pushes ins.op ins.a

module _ (m : MirModule) (f : MirFunction) where
  abbrev n : ℕ
  n = length f.code

  Settled-Passes : (D : List (Option ℕ)) (i d : ℕ) → Settled m f D i d → Passes m f i d
  unfolding transfer
  Settled-Passes D i d t = record {
    ins = t.ins;
    read = t.read;
    checked = t.checked;
    after = t.after;
    moved = t.moved;
    iterates = t.iterates;
    fits = omega (arith, balance m f n t.ins.op t.ins.a t.ins.b d t.after t.checked t.moved);
  }

  -- The table behind an accepting verdict.
  pub record Certificate : Type 0 where
    pub table : List (Option ℕ)
    pub entry : depth_at table 0 ≡ some 0
    pub closed : (p d : ℕ) → depth_at table p ≡ some d → Settled m f table p d

  conclude-Certificate :
      (k : ℕ) (end : Step)
      → Ensures
          (λ s.
            Extends (first_state m f).in_depth s.in_depth
            × ((p d : ℕ) → depth_at s.in_depth p ≡ some d → Settled m f s.in_depth p d))
          end
      → (conclude k n end).ok ≡ true
      → 0 < n
      → Certificate
  unfolding conclude refuse
  conclude-Certificate k (fail message i) h ok lt = cc
  conclude-Certificate k (next s) (x, closed) ok lt = record {
    table = s.in_depth;
    entry =
        x 0 0 (
          depth_at-set_self (replicate n none) 0 0
            (rw (length-replicate {A = Option ℕ} n none) lt));
    closed = closed;
  }

  loop_ends : 0 < n → Ended m f (first_state m f).in_depth (verify_loop m f n (first_state m f))
  loop_ends lt =
      let unknown : depth_at (replicate n none) 0 ≡ none = replicate-none n 0 in
      let room : 0 < length (replicate {A = Option ℕ} n none) =
        rw (length-replicate {A = Option ℕ} n none) lt in
      verify_loop-Ended m f n _ _ false (first_state-Done m f lt)
        (omega (arith, unset-replicate n, unset-set (replicate n none) 0 0 unknown room))

  verify_function_runs :
      (k : ℕ) (lt : 0 < n) → verify_function m f k ≡ some (conclude k n (loop_ends lt).end)
  unfolding verify_function
  verify_function_runs k lt =
      let other : (n == 0) ≡ false = ground arith in
      rw (other, verify_function, (loop_ends lt).returns)

  pub verify_function-Certificate :
      (k : ℕ) (r : Verify2Result)
      → verify_function m f k ≡ some r
      → r.ok ≡ true
      → 0 < n
      → Certificate
  verify_function-Certificate k r h ok lt =
      let same : conclude k n (loop_ends lt).end ≡ r = cc (verify_function_runs k lt) in
      conclude-Certificate k (loop_ends lt).end (loop_ends lt).closed
        (subst (λ x. x.ok ≡ true) (sym same) ok) lt

  verify_function-ends : (k : ℕ) → (r : Verify2Result) × (verify_function m f k ≡ some r)
  unfolding verify_function
  verify_function-ends k = elim (Bool-cases (n == 0)) [
    | inl empty ↦ (accepted, rw (empty, verify_function))
    | inr code ↦ (_, verify_function_runs k (ground arith))
  ]

-- `VerifyMirFunction` ends on every function: the fuel of the worklist loop, the length of the
-- code, is never used up.
pub verify_function_total :
    (m : MirModule) (f : MirFunction) (k : ℕ)
    → (r : Verify2Result) × (verify_function m f k ≡ some r)
verify_function_total m f k = verify_function-ends m f k

-- In a function that `VerifyMirFunction` accepts, take any run of the code from its start with an
-- empty stack, and any point of the code that it meets: at the depth of that run the instruction there
-- passes the tests of its operands and of the depth before it, the depth after it is not below 0, and
-- after a step of a `foreach` it is 2 or more.
pub verify_function-Passes :
    (m : MirModule) (f : MirFunction) (k : ℕ) (r : Verify2Result)
    → verify_function m f k ≡ some r
    → r.ok ≡ true
    → {i d : ℕ} → Reach f i d
    → i < length f.code
    → Passes m f i d
verify_function-Passes m f k r h ok {i} {d} run lt =
    let c = verify_function-Certificate m f k r h ok (omega arith) in
    Settled-Passes m f c.table i d
      (c.closed i d ((closed-Reach m f c.table c.closed c.entry run).1 lt))

-- In a function that `VerifyMirFunction` accepts, two runs that meet a point of the code meet it
-- with the same depth of the stack.
pub verify_function-depth_unique :
    (m : MirModule) (f : MirFunction) (k : ℕ) (r : Verify2Result)
    → verify_function m f k ≡ some r
    → r.ok ≡ true
    → {i d e : ℕ} → Reach f i d
    → Reach f i e
    → i < length f.code
    → d ≡ e
verify_function-depth_unique m f k r h ok {i} {d} {e} run other lt =
    let c = verify_function-Certificate m f k r h ok (omega arith) in
    let known = (closed-Reach m f c.table c.closed c.entry run).1 lt in
    let again = (closed-Reach m f c.table c.closed c.entry other).1 lt in
    depth_unique c.table known again refl

-- In a function with code that `VerifyMirFunction` accepts, no run leaves the code but to the point
-- right behind its last instruction.
pub verify_function-in_code :
    (m : MirModule) (f : MirFunction) (k : ℕ) (r : Verify2Result)
    → verify_function m f k ≡ some r
    → r.ok ≡ true
    → 0 < length f.code
    → {i d : ℕ} → Reach f i d
    → i ≤ length f.code
verify_function-in_code m f k r h ok some_code run =
    let c = verify_function-Certificate m f k r h ok some_code in
    (closed-Reach m f c.table c.closed c.entry run).0
