-- ===== src/Optimizer/Tests.antt =====
-- Runs of the optimizer, and its theorems at concrete functions.
use lpc_interpreter.Prelude.{
  ℕ, ◌≡◌, ◌↔◌, inl, refl, true, false, some, List, [], ◌∷◌, length, ◌==◌, ltb, leb, arith,
}
use lpc_interpreter.Prelude.Int.{ℤ, pos}
use lpc_interpreter.Mir.{MirOp, MirInstr, MirFunction, MirModule}
use lpc_interpreter.Optimizer.Words.{wrap64}
use lpc_interpreter.Optimizer.Folding.{Doubles}
use lpc_interpreter.Optimizer.Base.{marked, build_target_map}
use lpc_interpreter.Optimizer.Targets.{Named, build_target_map_lem}
use lpc_interpreter.Optimizer.Compact.{compact_code}
use lpc_interpreter.Optimizer.Rank.{rank}
use lpc_interpreter.Optimizer.Unreachable.{remove_unreachable}
use lpc_interpreter.Optimizer.Folding.{fold_binary}
use lpc_interpreter.Optimizer.ConstFold.{constant_fold_and_simplify}
use lpc_interpreter.Optimizer.Control.{Kept, remove_unreachable-Kept}
use lpc_interpreter.Optimizer.Retarget.{Lands, compact-jump_to_kept, compact-jump_to_removed}
use lpc_interpreter.Optimizer.Pipeline.{optimize_function, optimize_mir_module, ends_in_return}
use lpc_interpreter.Optimizer.Pipeline.Total.{
  AllReturn, optimize_function_total, optimize_mir_module_total,
}

-- Doubles whose patterns count halves.
abbrev halves : Doubles
halves = record {
  fadd = λ x y. x;
  fsub = λ x y. x;
  fmul = λ x y. y;
  fdiv = λ x y. x;
  fneg = λ x. x;
  feq = λ x y. x == y;
  flt = λ x y. ltb x y;
  fle = λ x y. leb x y;
}

abbrev instr : MirOp → ℕ → MirInstr
instr op a = record { op = op; a = pos a; b = pos 0; line = 0 }

-- A function with this code and these integers.
abbrev function : List ℤ → List MirInstr → MirFunction
function pool code = record {
  name = "f";
  nargs = 0;
  locals = [];
  upvalues = [];
  upvalue_source_kind = [];
  upvalue_source_index = [];
  iconsts = pool;
  fconsts = [];
  sconsts = [];
  code = code;
  max_stack = 0;
}

-- return 2 + 3;
abbrev sum : MirFunction
sum = function (pos 2 ∷ pos 3 ∷ []) (
    instr MirOp.load_const 0
    ∷ instr MirOp.load_const 1
    ∷ instr MirOp.add 0
    ∷ instr MirOp.return 0
    ∷ [])

-- The fold writes the sum into the first load and empties the two points behind it.
sum_folds :
    (constant_fold_and_simplify sum).0.code
    ≡ instr MirOp.load_const 2
      ∷ instr MirOp.load_const 3
      ∷ instr MirOp.pop 0
      ∷ instr MirOp.return 0
      ∷ []
unfolding constant_fold_and_simplify fold_binary wrap64
sum_folds = refl

-- A jump over one instruction.
abbrev skipping : MirFunction
skipping = function [] (
    instr MirOp.jump 2
    ∷ instr MirOp.new_array 0
    ∷ instr MirOp.new_array 0
    ∷ instr MirOp.return 0
    ∷ [])

skipped :
    remove_unreachable skipping
    ≡ some (
      function [] (instr MirOp.jump 1 ∷ instr MirOp.new_array 0 ∷ instr MirOp.return 0 ∷ []),
      true,
    )
unfolding remove_unreachable
skipped = refl

abbrev one_function : MirModule
one_function = record {
  functions = sum ∷ [];
  global_variables = [];
  init_function = skipping;
  class_order = [];
}

remove_unreachable-Kept_example : Kept skipping
remove_unreachable-Kept_example = remove_unreachable-Kept skipping

compact-jump_to_kept_example :
    Lands
      (compact_code (true ∷ false ∷ true ∷ true ∷ []) skipping.code)
      (instr MirOp.jump 2)
      (instr MirOp.new_array 0)
      (rank (true ∷ false ∷ true ∷ true ∷ []) 0)
      (rank (true ∷ false ∷ true ∷ true ∷ []) 2)
compact-jump_to_kept_example =
    compact-jump_to_kept (true ∷ false ∷ true ∷ true ∷ []) skipping.code 0 2 (instr MirOp.jump 2)
      (instr MirOp.new_array 0) refl refl refl (inl (refl, refl)) refl refl

compact-jump_to_removed_example :
    Lands
      (compact_code (true ∷ true ∷ false ∷ true ∷ []) skipping.code)
      (instr MirOp.jump 2)
      (instr MirOp.new_array 0)
      (rank (true ∷ true ∷ false ∷ true ∷ []) 0)
      (rank (true ∷ true ∷ false ∷ true ∷ []) 1)
compact-jump_to_removed_example =
    compact-jump_to_removed (true ∷ true ∷ false ∷ true ∷ []) skipping.code 0 1 (instr MirOp.jump 2)
      (instr MirOp.new_array 0) refl refl refl (inl (refl, refl)) refl refl (omega arith) refl

optimize_function_total_example :
    (g : MirFunction) × (optimize_function halves sum ≡ some g)
    × (ends_in_return halves g.code ≡ true)
optimize_function_total_example = optimize_function_total halves sum

optimize_mir_module_total_example :
    (out : MirModule) × (optimize_mir_module halves one_function ≡ some out)
    × (length out.functions ≡ 1)
    × AllReturn halves out.functions
    × (ends_in_return halves out.init_function.code ≡ true)
optimize_mir_module_total_example = optimize_mir_module_total halves one_function

build_target_map_lem_example :
    (marked (build_target_map skipping.code) 2 ≡ true) ↔ Named skipping.code 2
build_target_map_lem_example = build_target_map_lem skipping.code 2 (omega arith)
