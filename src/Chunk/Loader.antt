-- ===== src/Chunk/Loader.antt =====
-- `DeserializeChunk` of vm/src/bytecode/chunk_serialization.cpp.
use lpc_interpreter.Prelude.{
  ℕ, suc, ◌%◌, ◌^◌, ◌&&◌, List, [], ◌∷◌, ltb, ◌==◌, if◌then◌else◌, length, replicate,
}
use lpc_interpreter.Value.Word.{nil_value}
use lpc_interpreter.Chunk.Reader.{
  Bytes, Reader, Result, ok, refused, pure, guard, ◌>>=◌, ◌>>◌, read_many,
}
use lpc_interpreter.Chunk.Bytes.{
  read_u16, read_u32, read_i64, read_f64, read_str, read_bytes, read_list, read_short_list,
}
use lpc_interpreter.Chunk.Tree.{FieldDefault}
use lpc_interpreter.Chunk.Default.{read_default}
use lpc_interpreter.Chunk.Records.{
  UpvalueProto, FunctionProto, FunctionDebugInfo, ClassInfo, LineEntry, Chunk,
}

-- `field_name_index[field_names[j]] = j` for each j.
unfoldable pub index_names : List Bytes → ℕ → List (Bytes × ℕ) → List (Bytes × ℕ)
index_names [] j index = index
index_names (n ∷ ns) j index = index_names ns (suc j) ((n, j % 2 ^ 16) ∷ index)

-- A name and a default for each field, with the fields left.
unfoldable pub read_fields : ℕ → ℕ → Reader (List (Bytes × FieldDefault))
read_fields fuel n = read_many (do s ← read_str; d ← read_default fuel; pure (s, d)) n

unfoldable pub names_of : List (Bytes × FieldDefault) → List Bytes
names_of [] = []
names_of ((n, d) ∷ fs) = n ∷ names_of fs

unfoldable pub defaults_of : List (Bytes × FieldDefault) → List FieldDefault
defaults_of [] = []
defaults_of ((n, d) ∷ fs) = d ∷ defaults_of fs

unfoldable pub read_class : ℕ → Reader ClassInfo
read_class fuel = do
  name ← read_str
  nfields ← read_u16
  parent ← read_u16
  nfn ← read_u32
  fields ← read_fields fuel nfn
  pure (record {
    name = name;
    nfields = nfields;
    parent_class_idx = parent;
    field_names = names_of fields;
    field_defaults = defaults_of fields;
    field_name_index = index_names (names_of fields) 0 [];
  })

unfoldable pub read_upvalue : Reader UpvalueProto
read_upvalue = do
  kind ← read_u16
  index ← read_u16
  pure (record { source_kind = kind; source_index = index })

unfoldable pub read_function : Reader FunctionProto
read_function = do
  name ← read_str
  arity ← read_u16
  nlocals ← read_u16
  max_stack ← read_u16
  code_start ← read_u32
  code_end ← read_u32
  upvalues ← read_short_list read_upvalue
  pure (record {
    name = name;
    arity = arity;
    nlocals = nlocals;
    max_stack = max_stack;
    code_start = code_start;
    code_end = code_end;
    upvalues = upvalues;
  })

unfoldable pub read_line : Reader LineEntry
read_line = do line ← read_u32; pc ← read_u32; pure (record { line = line; pc = pc })

unfoldable pub read_debug : Reader FunctionDebugInfo
read_debug = do
  params ← read_short_list read_str
  locals ← read_short_list read_str
  upvalues ← read_short_list read_str
  pure (record { param_names = params; local_names = locals; upvalue_names = upvalues })

-- `if (size > 0) ReadBytes(…)`: an empty block leaves what was there.
unfoldable pub read_block : Bytes → Reader Bytes
read_block old = do size ← read_u32; if ltb 0 size then read_bytes size else pure old

-- The part of `DeserializeChunk` behind the magic bytes.
unfoldable pub read_body : ℕ → Chunk → Reader Chunk
read_body fuel out = do
  version ← read_u32
  guard (version == 2)
  module_name ← read_str
  flags ← read_u32
  source_file ← read_str
  iconst ← read_list read_i64
  fconst ← read_list read_f64
  sconst ← read_list read_str
  classes ← read_list (read_class fuel)
  functions ← read_list read_function
  line_table ← read_list read_line
  code ← read_block out.code
  init_code ← read_block out.init_code
  global_names ← read_list read_str
  debug_file ← read_str
  debug_globals ← read_list read_str
  function_debug ← read_list read_debug
  pure (record out {
    format_version = 2;
    flags = flags;
    module_name = module_name;
    source_file = source_file;
    code = code;
    iconst = iconst;
    fconst = fconst;
    sconst = sconst;
    functions = functions;
    classes = classes;
    line_table = line_table;
    init_code = init_code;
    globals = replicate (length global_names) nil_value;
    debug_info = record (out.debug_info) {
      source_file = debug_file;
      global_names = debug_globals;
      function_debug = function_debug;
    };
    global_names = global_names;
  })

-- The tests of the first bytes: eight of them there, and three right. The fourth is not looked at.
unfoldable pub read_magic : Reader (Unit {0})
read_magic (a ∷ b ∷ c ∷ d ∷ rest) =
    if ltb (length rest) 4
    then refused
    else if (a == 0x4c) && (b == 0x50) && (c == 0x43)
    then ok (tt, rest)
    else refused
read_magic _ = refused

-- `DeserializeChunk`, with the chunk that it writes into; bytes behind the last part are left.
unfoldable pub deserialize : Bytes → Chunk → Result (Chunk × Bytes)
deserialize bytes out = (read_magic >>= λ _. read_body (length bytes) out) bytes
