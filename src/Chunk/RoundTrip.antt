-- ===== src/Chunk/RoundTrip.antt =====
-- A module that is written to a file is loaded from it.
use lpc_interpreter.Prelude.{
  ℕ, ◌≤◌, ◌≡◌, ◌∙◌, ap, refl, List, [], ◌∷◌, ◌++◌, true, false, map, drop, length, length-append,
  replicate, ltb, arith,
}
use mathlib.Core.List.{append_assoc}
use native.Mathlib.Nat.{mod-eq_of_lt}
use lpc_interpreter.Value.Word.{nil_value}
use lpc_interpreter.Chunk.Reader.{Bytes, ok, ◌>>=◌}
use lpc_interpreter.Chunk.Bytes.{
  write_le, write_u32, write_i64, write_f64, write_str, write_list, write_short_list, read_i64,
  read_f64, read_str, read_short_list,
}
use lpc_interpreter.Chunk.Records.{UpvalueProto, FunctionProto, FunctionDebugInfo, LineEntry, Chunk}
use lpc_interpreter.Chunk.Writer.{
  preamble, write_class, write_upvalue, write_function, write_line, write_debug, serialize,
}
use lpc_interpreter.Chunk.Loader.{
  read_upvalue, read_function, read_line, read_debug, read_block, read_body, read_magic,
  deserialize,
}
use lpc_interpreter.Chunk.Inverse.{
  Inverse, IsU16, IsU32, IsU64, IsI64, FitsStr, FitsList, FitsShort, IsU16-Inverse, IsU32-Inverse,
  IsI64-Inverse, f64-Inverse, bytes_inverse, str-Inverse, list-Inverse, short_list-Inverse,
}
use lpc_interpreter.Chunk.Classes.{FitsClass, restored_class, classes_inverse}

abbrev FitsUpvalue : UpvalueProto → Type 0
FitsUpvalue u = IsU16 u.source_kind × IsU16 u.source_index

upvalue-Inverse : Inverse FitsUpvalue read_upvalue write_upvalue
unfolding read_upvalue write_upvalue
upvalue-Inverse u (kind, index) rest =
    simp (append_assoc, IsU16-Inverse u.source_kind kind, IsU16-Inverse u.source_index index)

pub record FitsFunction (f : FunctionProto) : Type 0 where
  pub name : FitsStr f.name
  pub arity : IsU16 f.arity
  pub nlocals : IsU16 f.nlocals
  pub max_stack : IsU16 f.max_stack
  pub code_start : IsU32 f.code_start
  pub code_end : IsU32 f.code_end
  pub upvalues : FitsShort FitsUpvalue f.upvalues

function-Inverse : Inverse FitsFunction read_function write_function
unfolding read_function write_function
function-Inverse f fits rest = simp (
  append_assoc,
  str-Inverse f.name fits.name,
  IsU16-Inverse f.arity fits.arity,
  IsU16-Inverse f.nlocals fits.nlocals,
  IsU16-Inverse f.max_stack fits.max_stack,
  IsU32-Inverse f.code_start fits.code_start,
  IsU32-Inverse f.code_end fits.code_end,
  short_list-Inverse read_upvalue write_upvalue upvalue-Inverse f.upvalues fits.upvalues,
)

abbrev FitsLine : LineEntry → Type 0
FitsLine e = IsU32 e.line × IsU32 e.pc

line-Inverse : Inverse FitsLine read_line write_line
unfolding read_line write_line
line-Inverse e (line, pc) rest =
    simp (append_assoc, IsU32-Inverse e.line line, IsU32-Inverse e.pc pc)

abbrev FitsNames : List Bytes → Type 0
FitsNames ns = FitsShort FitsStr ns

abbrev FitsDebug : FunctionDebugInfo → Type 0
FitsDebug d = FitsNames d.param_names × FitsNames d.local_names × FitsNames d.upvalue_names

names-Inverse : Inverse FitsNames (read_short_list read_str) (write_short_list write_str)
names-Inverse = short_list-Inverse read_str write_str str-Inverse

debug-Inverse : Inverse FitsDebug read_debug write_debug
unfolding read_debug write_debug
debug-Inverse d (params, locals, upvalues) rest = simp (
  append_assoc,
  names-Inverse d.param_names params,
  names-Inverse d.local_names locals,
  names-Inverse d.upvalue_names upvalues,
)

-- A module that the format has room for.
pub record FitsChunk (c : Chunk) : Type 0 where
  pub module_name : FitsStr c.module_name
  pub flags : IsU32 c.flags
  pub source_file : FitsStr c.source_file
  pub iconst : FitsList IsI64 c.iconst
  pub fconst : FitsList IsU64 c.fconst
  pub sconst : FitsList FitsStr c.sconst
  pub classes : FitsList FitsClass c.classes
  pub functions : FitsList FitsFunction c.functions
  pub line_table : FitsList FitsLine c.line_table
  pub code : FitsStr c.code
  pub init_code : FitsStr c.init_code
  pub global_names : FitsList FitsStr c.global_names
  pub debug_file : FitsStr c.debug_info.source_file
  pub debug_globals : FitsList FitsStr c.debug_info.global_names
  pub function_debug : FitsList FitsDebug c.debug_info.function_debug

-- A block that is loaded over an older one.
unfoldable pub loaded_block : Bytes → Bytes → Bytes
loaded_block [] old = old
loaded_block (b ∷ bs) old = b ∷ bs

-- Module c as it is loaded into `out`: the parts that the format has no place for stay as they were.
unfoldable pub restored : Chunk → Chunk → Chunk
restored c out = record out {
  format_version = 2;
  flags = c.flags;
  module_name = c.module_name;
  source_file = c.source_file;
  code = loaded_block c.code out.code;
  iconst = c.iconst;
  fconst = c.fconst;
  sconst = c.sconst;
  functions = c.functions;
  classes = map restored_class c.classes;
  line_table = c.line_table;
  init_code = loaded_block c.init_code out.init_code;
  globals = replicate (length c.global_names) nil_value;
  debug_info = record (out.debug_info) {
    source_file = c.debug_info.source_file;
    global_names = c.debug_info.global_names;
    function_debug = c.debug_info.function_debug;
  };
  global_names = c.global_names;
}

block_inverse :
    (old s : Bytes)
    → FitsStr s
    → (rest : Bytes) → read_block old (write_str s ++ rest) ≡ ok (loaded_block s old, rest)
unfolding read_block write_str loaded_block
block_inverse old [] fits rest = simp (append_assoc, IsU32-Inverse 0 (omega arith))
block_inverse old (b ∷ s) fits rest =
    let some : ltb 0 (length (b ∷ s)) ≡ true = ground arith in
    simp (
      append_assoc,
      mod-eq_of_lt fits,
      IsU32-Inverse (length (b ∷ s)) fits,
      some,
      bytes_inverse (b ∷ s),
    )

body : Chunk → Bytes
body c = drop 4 (serialize c)

body_inverse :
    (c out : Chunk) (fuel : ℕ) (rest : Bytes)
    → FitsChunk c
    → length (write_list write_class c.classes) ≤ fuel
    → read_body fuel out (body c ++ rest) ≡ ok (restored c out, rest)
unfolding body serialize read_body restored
body_inverse c out fuel rest f enough = simp (
  append_assoc,
  IsU32-Inverse 2 (omega arith),
  str-Inverse c.module_name f.module_name,
  IsU32-Inverse c.flags f.flags,
  str-Inverse c.source_file f.source_file,
  list-Inverse read_i64 write_i64 IsI64-Inverse c.iconst f.iconst,
  list-Inverse read_f64 write_f64 f64-Inverse c.fconst f.fconst,
  list-Inverse read_str write_str str-Inverse c.sconst f.sconst,
  classes_inverse fuel c.classes f.classes.0 f.classes.1 enough,
  list-Inverse read_function write_function function-Inverse c.functions f.functions,
  list-Inverse read_line write_line line-Inverse c.line_table f.line_table,
  block_inverse out.code c.code f.code,
  block_inverse out.init_code c.init_code f.init_code,
  list-Inverse read_str write_str str-Inverse c.global_names f.global_names,
  str-Inverse c.debug_info.source_file f.debug_file,
  list-Inverse read_str write_str str-Inverse c.debug_info.global_names f.debug_globals,
  list-Inverse read_debug write_debug debug-Inverse c.debug_info.function_debug f.function_debug,
)

classes-le : (c : Chunk) → length (write_list write_class c.classes) ≤ length (serialize c)
unfolding serialize
classes-le c = simp length-append (omega arith)

body_long : (c : Chunk) (rest : Bytes) → ltb (length (body c ++ rest)) 4 ≡ false
unfolding body serialize write_u32 write_le
body_long c rest = ground arith

read_magic_lem :
    (bs : Bytes) → ltb (length bs) 4 ≡ false → read_magic (preamble ++ bs) ≡ ok (tt, bs)
unfolding read_magic
read_magic_lem bs long = rw long

-- What `SerializeChunk` wrote is loaded by `DeserializeChunk`, and the bytes behind it are left. The
-- parts that the format has no place for stay as they were.
pub deserialize-serialize :
    (c out : Chunk) (rest : Bytes)
    → FitsChunk c
    → deserialize (serialize c ++ rest) out ≡ ok (restored c out, rest)
unfolding deserialize
deserialize-serialize c out rest fits =
    let fuel = length (serialize c ++ rest) in
    let enough : length (write_list write_class c.classes) ≤ fuel =
      omega (arith, classes-le c, length-append (serialize c) rest) in
    let magic : serialize c ≡ preamble ++ body c = unfold serialize body in refl in
    ap (λ bs. (read_magic >>= λ _. read_body fuel out) (bs ++ rest)) magic
    ∙ rw (read_magic_lem (body c ++ rest) (body_long c rest))
        (body_inverse c out fuel rest fits enough)
