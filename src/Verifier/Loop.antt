-- ===== src/Verifier/Loop.antt =====
-- `VerifyMirFunction` and `VerifyMirModule` of compiler/src/frontend/verifier.cpp: the worklist of
-- program points, the walk from a point to the end of its block, and the verdict.
-- `in_depth` holds `none` where the source holds -1.
use lpc_interpreter.Prelude.{
  ℕ, zero, suc, ◌-◌, Bool, true, false, Option, none, some, List, [], ◌∷◌, ◌++◌, ◌&&◌, String, ltb,
  leb, ◌==◌, if◌then◌else◌, length, get_elem?, set, replicate,
}
use lpc_interpreter.Prelude.Int.{ℤ, pos, negsuc, ◌+ℤ◌, ◌-ℤ◌}
use lpc_interpreter.Mir.{MirOp, MirInstr, MirFunction, MirModule}
use lpc_interpreter.Verifier.Check.{check_op, transfer}

pub record Verify2Result : Type 0 where
  pub ok : Bool
  pub message : String
  pub function_index : ℤ
  pub instr_index : ℤ

-- The state of the loop: `in_depth`, `work` and `has_return`.
pub record State : Type 0 where
  pub in_depth : List (Option ℕ)
  pub work : List ℕ
  pub has_return : Bool

-- An early `return fail(message, i)`, or the state to go on with.
pub data Step : Type 0 where
  next : State → Step
  fail : String → ℕ → Step

infixl 5 ◌>>=◌
abbrev pub ◌>>=◌ : Step → (State → Step) → Step
next s >>= k = k s
fail message i >>= k = fail message i

-- A read out of range is no read of the source; it gives `none`.
abbrev pub depth_at : List (Option ℕ) → ℕ → Option ℕ
depth_at [] i = none
depth_at (d ∷ ds) zero = d
depth_at (d ∷ ds) (suc i) = depth_at ds i

-- A point below n met at depth d: recorded and queued, or compared with the record.
unfoldable pub enqueue_point : State → ℕ → ℕ → ℕ → Step
enqueue_point s t d from = elim (depth_at s.in_depth t) [
  | none ↦ next (record s { in_depth = set s.in_depth t (some d); work = s.work ++ t ∷ [] })
  | some e ↦ if e == d then next s else fail "inconsistent stack depth at control-flow join" from
]

-- The lambda `enqueue(target, depth, from)`; n is the length of the code.
unfoldable pub enqueue : ℕ → ℤ → ℤ → ℕ → State → Step
unfolding enqueue_point
enqueue n (negsuc t) depth from s = fail "invalid jump target" from
enqueue n (pos t) (negsuc d) from s =
    if leb t n
    then fail "negative stack depth at control-flow edge" from
    else fail "invalid jump target" from
enqueue n (pos t) (pos d) from s =
    if leb t n
    then (if t == n then next s else enqueue_point s t d from)
    else fail "invalid jump target" from

-- How a block ends at instruction i with depth d after it: the edges to enqueue, in order.
-- `none` falls through to i + 1 in the same walk.
unfoldable pub op_edges : MirOp → ℤ → ℤ → ℕ → ℕ → Option (List (ℤ × ℤ))
op_edges MirOp.jump_if_false a b i d = some ((a, pos d) ∷ (pos (suc i), pos d) ∷ [])
op_edges MirOp.jump_if_true a b i d = some ((a, pos d) ∷ (pos (suc i), pos d) ∷ [])
op_edges MirOp.foreach_next a b i d = some ((pos (suc i), pos d +ℤ a) ∷ (b, pos d -ℤ pos 2) ∷ [])
op_edges MirOp.jump a b i d = some ((a, pos d) ∷ [])
op_edges MirOp.catch a b i d = some ((a, pos d) ∷ (pos (suc i), pos d) ∷ [])
op_edges MirOp.return a b i d = some []
op_edges _ a b i d = none

-- The `enqueue` calls of one block end, up to the first that fails.
unfoldable pub enqueue_all : ℕ → ℕ → List (ℤ × ℤ) → State → Step
enqueue_all n i [] s = next s
enqueue_all n i ((t, d) ∷ es) s = enqueue n t d i s >>= enqueue_all n i es

abbrev pub is_return : MirOp → Bool
is_return MirOp.return = true
is_return _ = false

abbrev pub is_foreach_next : MirOp → Bool
is_foreach_next MirOp.foreach_next = true
is_foreach_next _ = false

-- What one round of the walk decides: `break`, go on to the next instruction, or fail.
pub data Visit : Type 0 where
  stop : State → Visit
  go_on : ℕ → State → Visit
  reject : String → ℕ → Visit

unfoldable pub stop_after : Step → Visit
stop_after (next s) = stop s
stop_after (fail message i) = reject message i

-- The end of a round that falls through with depth d.
unfoldable pub fall_through : ℕ → ℕ → ℕ → State → Visit
fall_through n i d s =
    if ltb (suc i) n
    then elim (depth_at s.in_depth (suc i)) [
      | none ↦ go_on d (record s { in_depth = set s.in_depth (suc i) (some d) })
      | some e ↦ if e == d then go_on d s else reject "inconsistent stack depth on fallthrough" i
    ]
    else go_on d s

unfoldable pub leave_return : Bool → State → State
leave_return r s = record s { has_return = if r then true else s.has_return }

-- The round after the depth is updated to d.
unfoldable pub leave : ℕ → ℕ → MirInstr → ℕ → State → Visit
unfolding stop_after leave_return
leave n i ins d s = elim (op_edges ins.op ins.a ins.b i d) [
  | some es ↦ stop_after (enqueue_all n i es (leave_return (is_return ins.op) s))
  | none ↦ fall_through n i d s
]

unfoldable pub settle : ℕ → ℕ → MirInstr → ℤ → State → Visit
settle n i ins (negsuc d) s = reject "stack underflow by MIR instruction" i
settle n i ins (pos d) s =
    if is_foreach_next ins.op && ltb d 2
    then reject "foreach next requires iterator state on stack" i
    else leave n i ins d s

module _ (m : MirModule) (f : MirFunction) where
  -- One round of `for (int i = pc; i < n; ++i)`.
  unfoldable pub visit : ℕ → ℕ → State → Visit
  visit i d s = elim (get_elem? f.code i) [
    | none ↦ stop s
    | some ins ↦ elim (check_op m f (length f.code) ins.op ins.a ins.b d) [
      | some message ↦ reject message i
      | none ↦ settle (length f.code) i ins (transfer ins d) s
    ]
  ]

  -- The `for`, with the number of rounds left.
  unfoldable pub walk : ℕ → ℕ → ℕ → State → Step
  walk zero i d s = next s
  walk (suc left) i d s = elim (visit i d s) [
    | stop s' ↦ next s'
    | go_on d' s' ↦ walk left (suc i) d' s'
    | reject message k ↦ fail message k
  ]

  -- The body of `while (!work.empty())` at the popped point.
  unfoldable pub run_block : ℕ → State → Step
  run_block pc s = elim (depth_at s.in_depth pc) [
    | none ↦ next s
    | some d ↦ walk (length f.code - pc) pc d s
  ]

  -- The `while`, with fuel; `none` means that the fuel ran out.
  unfoldable pub verify_loop : ℕ → State → Option Step
  verify_loop zero s = elim s.work [ [] ↦ some (next s) | pc ∷ rest ↦ none ]
  verify_loop (suc fuel) s = elim s.work [
    | [] ↦ some (next s)
    | pc ∷ rest ↦ elim (run_block pc (record s { work = rest })) [
      | next s' ↦ verify_loop fuel s'
      | fail message i ↦ some (fail message i)
    ]
  ]

  abbrev pub first_state : State
  first_state = record {
    in_depth = set (replicate (length f.code) none) 0 (some 0);
    work = 0 ∷ [];
    has_return = false;
  }

abbrev pub accepted : Verify2Result
accepted = record { ok = true; message = ""; function_index = negsuc 0; instr_index = negsuc 0 }

unfoldable pub refuse : ℕ → String → ℕ → Verify2Result
refuse k message i = record {
  ok = false;
  message = message;
  function_index = pos k;
  instr_index = pos i;
}

-- The tests after the loop.
unfoldable pub conclude : ℕ → ℕ → Step → Verify2Result
unfolding refuse
conclude k n (fail message i) = refuse k message i
conclude k n (next s) =
    if s.has_return
    then elim (depth_at s.in_depth 0) [
      | none ↦ refuse k "invalid entry stack depth" 0
      | some d ↦ if d == 0 then accepted else refuse k "invalid entry stack depth" 0
    ]
    else refuse k "missing return instruction" (n - 1)

-- `VerifyMirFunction`; the fuel is the length of the code, since no point is queued twice.
unfoldable pub verify_function : MirModule → MirFunction → ℕ → Option Verify2Result
unfolding verify_loop run_block walk visit settle leave fall_through enqueue_all enqueue conclude
verify_function m f k =
    if length f.code == 0
    then some accepted
    else elim (verify_loop m f (length f.code) (first_state m f)) [
      | none ↦ none
      | some end ↦ some (conclude k (length f.code) end)
    ]

-- The functions in order, then the initialiser, up to the first refusal.
unfoldable pub verify_functions : MirModule → List MirFunction → ℕ → Option Verify2Result
verify_functions m [] k = verify_function m m.init_function k
verify_functions m (f ∷ fs) k = elim (verify_function m f k) [
  | none ↦ none
  | some r ↦ elim r.ok [ true ↦ verify_functions m fs (suc k) | false ↦ some r ]
]

-- `VerifyMirModule`.
unfoldable pub verify_module : MirModule → Option Verify2Result
verify_module m = verify_functions m m.functions 0
