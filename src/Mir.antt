-- ===== src/Mir.antt =====
-- The mid-level code of compiler/include/frontend/mir.h: instructions, functions and modules.
-- An `int` field is an integer of `Prelude.Int`; sizes and argument counts are numbers; a `double`
-- constant is its 64-bit pattern. Class tables other than `class_order` stay with the writer.
use lpc_interpreter.Prelude.{ℕ, List, String}
use lpc_interpreter.Prelude.Int.{ℤ}

pub data MirOp : Type 0 where
  load_const load_fconst load_sconst load_function : MirOp
  load_local store_local load_upvalue store_upvalue : MirOp
  add sub mul div mod_op shl shr bit_and bit_or bit_xor logic_and logic_or : MirOp
  logic_not bit_not neg inc dec inc_local dec_local : MirOp
  lt lte gt gte eq neq : MirOp
  index store_index new_array new_class load_class_field store_class_field : MirOp
  call call_efun foreach_init foreach_next : MirOp
  jump_if_false jump_if_true jump return pop dup new_mapping catch : MirOp
  load_global store_global upset : MirOp

pub record MirInstr : Type 0 where
  pub op : MirOp
  pub a : ℤ
  pub b : ℤ
  pub line : ℕ

pub record MirFunction : Type 0 where
  pub name : String
  pub nargs : ℕ
  pub locals : List String
  pub upvalues : List String
  pub upvalue_source_kind : List ℤ
  pub upvalue_source_index : List ℤ
  pub iconsts : List ℤ
  pub fconsts : List ℕ
  pub sconsts : List String
  pub code : List MirInstr
  pub max_stack : ℕ

pub record MirModule : Type 0 where
  pub functions : List MirFunction
  pub global_variables : List String
  pub init_function : MirFunction
  pub class_order : List String
