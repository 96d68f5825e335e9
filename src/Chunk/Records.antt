-- ===== src/Chunk/Records.antt =====
-- A compiled module: `Chunk` of vm/include/vm/bytecode/chunk.h and its parts. A text is its bytes.
use lpc_interpreter.Prelude.{ℕ, List}
use lpc_interpreter.Prelude.Int.{ℤ}
use lpc_interpreter.Value.Word.{Value}
use lpc_interpreter.Chunk.Reader.{Bytes}
use lpc_interpreter.Chunk.Tree.{FieldDefault}

pub record UpvalueProto : Type 0 where
  pub source_kind : ℕ
  pub source_index : ℕ

pub record FunctionProto : Type 0 where
  pub name : Bytes
  pub arity : ℕ
  pub nlocals : ℕ
  pub max_stack : ℕ
  pub code_start : ℕ
  pub code_end : ℕ
  pub upvalues : List UpvalueProto

pub record FunctionDebugInfo : Type 0 where
  pub param_names : List Bytes
  pub local_names : List Bytes
  pub upvalue_names : List Bytes

-- The newest entry of `field_name_index` stands first.
pub record ClassInfo : Type 0 where
  pub name : Bytes
  pub nfields : ℕ
  pub parent_class_idx : ℕ
  pub field_names : List Bytes
  pub field_defaults : List FieldDefault
  pub field_name_index : List (Bytes × ℕ)

pub record LineEntry : Type 0 where
  pub line : ℕ
  pub pc : ℕ

pub record SourceMapEntry : Type 0 where
  pub output_line : ℤ
  pub source_line : ℤ
  pub source_path : Bytes

pub record DebugInfo : Type 0 where
  pub source_file : Bytes
  pub global_names : List Bytes
  pub function_debug : List FunctionDebugInfo
  pub source_map : List SourceMapEntry

pub record Chunk : Type 0 where
  pub format_version : ℕ
  pub flags : ℕ
  pub module_name : Bytes
  pub source_file : Bytes
  pub code : Bytes
  pub iconst : List ℤ
  pub fconst : List ℕ
  pub sconst : List Bytes
  pub functions : List FunctionProto
  pub classes : List ClassInfo
  pub line_table : List LineEntry
  pub init_code : Bytes
  pub globals : List Value
  pub debug_info : DebugInfo
  pub global_names : List Bytes
  pub create_idx : ℕ
  pub on_loadin_idx : ℕ
  pub on_destruct_idx : ℕ
