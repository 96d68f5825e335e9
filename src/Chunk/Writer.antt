-- ===== src/Chunk/Writer.antt =====
-- `SerializeChunk` of vm/src/bytecode/chunk_serialization.cpp.
use lpc_interpreter.Prelude.{◌%◌, ◌^◌, List, [], ◌∷◌, ◌++◌, length}
use lpc_interpreter.Chunk.Reader.{Bytes}
use lpc_interpreter.Chunk.Bytes.{
  write_u16, write_u32, write_i64, write_f64, write_str, write_list, write_short_list,
}
use lpc_interpreter.Chunk.Tree.{FieldDefault}
use lpc_interpreter.Chunk.Default.{write_default}
use lpc_interpreter.Chunk.Records.{
  UpvalueProto, FunctionProto, FunctionDebugInfo, ClassInfo, LineEntry, Chunk,
}

-- The fields of a class: a name without a default is written with the default `Zero`.
unfoldable pub write_fields : List Bytes → List FieldDefault → Bytes
write_fields [] defs = []
write_fields (n ∷ ns) [] = write_str n ++ (write_default FieldDefault.zero ++ write_fields ns [])
write_fields (n ∷ ns) (d ∷ defs) = write_str n ++ (write_default d ++ write_fields ns defs)

unfoldable pub write_class : ClassInfo → Bytes
write_class c =
    write_str c.name
    ++ (write_u16 c.nfields
        ++ (write_u16 c.parent_class_idx
            ++ (write_u32 (length c.field_names % 2 ^ 32)
                ++ write_fields c.field_names c.field_defaults)))

unfoldable pub write_upvalue : UpvalueProto → Bytes
write_upvalue u = write_u16 u.source_kind ++ write_u16 u.source_index

unfoldable pub write_function : FunctionProto → Bytes
write_function f =
    write_str f.name
    ++ (write_u16 f.arity
        ++ (write_u16 f.nlocals
            ++ (write_u16 f.max_stack
                ++ (write_u32 f.code_start
                    ++ (write_u32 f.code_end ++ write_short_list write_upvalue f.upvalues)))))

unfoldable pub write_line : LineEntry → Bytes
write_line e = write_u32 e.line ++ write_u32 e.pc

unfoldable pub write_debug : FunctionDebugInfo → Bytes
write_debug d =
    write_short_list write_str d.param_names
    ++ (write_short_list write_str d.local_names ++ write_short_list write_str d.upvalue_names)

-- "LPC\0" and the version.
abbrev pub preamble : Bytes
preamble = 0x4c ∷ 0x50 ∷ 0x43 ∷ 0x00 ∷ []

-- `SerializeChunk`.
unfoldable pub serialize : Chunk → Bytes
serialize c =
    preamble
    ++ (write_u32 2
        ++ (write_str c.module_name
            ++ (write_u32 c.flags
                ++ (write_str c.source_file
                    ++ (write_list write_i64 c.iconst
                        ++ (write_list write_f64 c.fconst
                            ++ (write_list write_str c.sconst
                                ++ (write_list write_class c.classes
                                    ++ (write_list write_function c.functions
                                        ++ (write_list write_line c.line_table
                                            ++ (write_str c.code
                                                ++ (write_str c.init_code
                                                    ++ (write_list write_str c.global_names
                                                        ++ (write_str c.debug_info.source_file
                                                            ++ (write_list write_str
                                                            c.debug_info.global_names
                                                            ++ write_list write_debug
                                                            c.debug_info.function_debug)))))))))))))))
