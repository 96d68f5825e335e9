-- ===== src/Chunk/Tests.antt =====
-- A small module, and the theorems of the file format at it.
use lpc_interpreter.Prelude.{◌≡◌, refl, [], ◌∷◌, ◌++◌, replicate, arith}
use lpc_interpreter.Prelude.Int.{pos, negsuc}
use lpc_interpreter.Chunk.Reader.{Bytes, refused, ok}
use lpc_interpreter.Chunk.Tree.{FieldDefault, int, string, mapping, no_pairs, pair}
use lpc_interpreter.Chunk.Bytes.{write_le, write_u32, write_str, write_all, write_list}
use lpc_interpreter.Chunk.Default.{count_pairs}
use lpc_interpreter.Chunk.Records.{FunctionProto, FunctionDebugInfo, ClassInfo, DebugInfo, Chunk}
use lpc_interpreter.Chunk.Writer.{serialize}
use lpc_interpreter.Chunk.Loader.{deserialize}
use lpc_interpreter.Chunk.Defaults.{FitsDefault}
use lpc_interpreter.Chunk.Classes.{no_field, field, FitsClass}
use lpc_interpreter.Chunk.RoundTrip.{FitsFunction, FitsChunk, restored, deserialize-serialize}
use lpc_interpreter.Chunk.Reads.{Within}
use lpc_interpreter.Chunk.Ends.{deserialize_ends, deserialize_truncated}

abbrev no_debug : DebugInfo
no_debug = record { source_file = []; global_names = []; function_debug = []; source_map = [] }

-- A module as the constructor leaves it.
abbrev fresh : Chunk
fresh = record {
  format_version = 1;
  flags = 0;
  module_name = [];
  source_file = [];
  code = [];
  iconst = [];
  fconst = [];
  sconst = [];
  functions = [];
  classes = [];
  line_table = [];
  init_code = [];
  globals = [];
  debug_info = no_debug;
  global_names = [];
  create_idx = 0xffff;
  on_loadin_idx = 0xffff;
  on_destruct_idx = 0xffff;
}

abbrev nested : FieldDefault
nested = mapping (pair (string (97 ∷ [])) (int (negsuc 0)) no_pairs)

abbrev point_class : ClassInfo
point_class = record {
  name = 112 ∷ [];
  nfields = 1;
  parent_class_idx = 0xffff;
  field_names = (120 ∷ []) ∷ [];
  field_defaults = nested ∷ [];
  field_name_index = [];
}

abbrev counter : FunctionProto
counter = record {
  name = 102 ∷ [];
  arity = 1;
  nlocals = 2;
  max_stack = 3;
  code_start = 0;
  code_end = 2;
  upvalues = record { source_kind = 1; source_index = 0 } ∷ [];
}

abbrev counter_names : FunctionDebugInfo
counter_names = record { param_names = (110 ∷ []) ∷ []; local_names = []; upvalue_names = [] }

abbrev sample : Chunk
sample = record fresh {
  module_name = 109 ∷ [];
  iconst = pos 7 ∷ negsuc 0 ∷ [];
  fconst = 0x3ff0_0000_0000_0000 ∷ [];
  sconst = (104 ∷ 105 ∷ []) ∷ [];
  classes = point_class ∷ [];
  functions = counter ∷ [];
  line_table = record { line = 1; pc = 0 } ∷ [];
  code = 1 ∷ 2 ∷ [];
  debug_info = record no_debug { function_debug = counter_names ∷ [] };
  global_names = (103 ∷ []) ∷ [];
  create_idx = 0;
}

nested-Fits : FitsDefault nested
unfolding count_pairs
nested-Fits = (omega arith, (omega arith, omega arith, tt))

point_class-Fits : FitsClass point_class
point_class-Fits = record {
  name = omega arith;
  nfields = omega arith;
  parent = omega arith;
  few = omega arith;
  fields = field (omega arith) nested-Fits no_field;
}

counter-Fits : FitsFunction counter
counter-Fits = record {
  name = omega arith;
  arity = omega arith;
  nlocals = omega arith;
  max_stack = omega arith;
  code_start = omega arith;
  code_end = omega arith;
  upvalues = (omega arith, ((omega arith, omega arith), tt));
}

sample-FitsChunk : FitsChunk sample
sample-FitsChunk = record {
  module_name = omega arith;
  flags = omega arith;
  source_file = omega arith;
  iconst = (omega arith, (omega arith, (omega arith, tt)));
  fconst = (omega arith, (omega arith, tt));
  sconst = (omega arith, (omega arith, tt));
  classes = (omega arith, (point_class-Fits, tt));
  functions = (omega arith, (counter-Fits, tt));
  line_table = (omega arith, ((omega arith, omega arith), tt));
  code = omega arith;
  init_code = omega arith;
  global_names = (omega arith, (omega arith, tt));
  debug_file = omega arith;
  debug_globals = (omega arith, tt);
  function_debug =
      (omega arith, (((omega arith, (omega arith, tt)), (omega arith, tt), (omega arith, tt)), tt));
}

deserialize-serialize_example :
    deserialize (serialize sample ++ (9 ∷ [])) fresh ≡ ok (restored sample fresh, 9 ∷ [])
deserialize-serialize_example = deserialize-serialize sample fresh (9 ∷ []) sample-FitsChunk

-- The index of the lifecycle function `create` is not in the file.
create_lost : (restored sample fresh).create_idx ≡ 0xffff
unfolding restored
create_lost = refl

deserialize_ends_example : Within 3 (deserialize (0x4c ∷ 0x50 ∷ 0x43 ∷ []) fresh)
deserialize_ends_example = deserialize_ends (0x4c ∷ 0x50 ∷ 0x43 ∷ []) fresh

fresh-FitsChunk : FitsChunk fresh
fresh-FitsChunk = record {
  module_name = omega arith;
  flags = omega arith;
  source_file = omega arith;
  iconst = (omega arith, tt);
  fconst = (omega arith, tt);
  sconst = (omega arith, tt);
  classes = (omega arith, tt);
  functions = (omega arith, tt);
  line_table = (omega arith, tt);
  code = omega arith;
  init_code = omega arith;
  global_names = (omega arith, tt);
  debug_file = omega arith;
  debug_globals = (omega arith, tt);
  function_debug = (omega arith, tt);
}

-- The file of `fresh`: the preamble and 15 empty parts.
abbrev fresh_start : Bytes
fresh_start = 0x4c ∷ 0x50 ∷ 0x43 ∷ 0 ∷ 2 ∷ 0 ∷ 0 ∷ 0 ∷ []

fresh_file : serialize fresh ≡ (fresh_start ++ replicate 59 0) ++ (0 ∷ [])
unfolding serialize write_str write_list write_all write_u32 write_le
fresh_file = refl

deserialize_truncated_example : deserialize (fresh_start ++ replicate 59 0) sample ≡ refused
deserialize_truncated_example =
    deserialize_truncated fresh sample (fresh_start ++ replicate 59 0) 0 [] fresh-FitsChunk
      fresh_file
