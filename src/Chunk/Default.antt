-- ===== src/Chunk/Default.antt =====
-- How vm/src/bytecode/chunk_serialization.cpp writes and reads the default values of class fields.
use lpc_interpreter.Prelude.{ℕ, zero, suc, ◌%◌, ◌^◌, [], ◌++◌, ◌==◌, if◌then◌else◌}
use lpc_interpreter.Chunk.Tree.{
  FieldDefault, Pairs, Items, int, float, string, mapping, array, no_pairs, pair, no_items, item,
}
use lpc_interpreter.Chunk.Reader.{Bytes, Reader, out_of_fuel, pure, ◌>>=◌}
use lpc_interpreter.Chunk.Bytes.{
  write_u8, write_u32, write_i64, write_f64, write_str, read_u8, read_u32, read_i64, read_f64,
  read_str,
}

unfoldable pub count_pairs : Pairs → ℕ
count_pairs no_pairs = 0
count_pairs (pair k v ps) = suc (count_pairs ps)

unfoldable pub count_items : Items → ℕ
count_items no_items = 0
count_items (item v xs) = suc (count_items xs)

-- `WriteFieldDefault`.
unfoldable mutual
  pub write_default : FieldDefault → Bytes
  write_default FieldDefault.zero = write_u8 0
  write_default (int v) = write_u8 1 ++ write_i64 v
  write_default (float v) = write_u8 2 ++ write_f64 v
  write_default (string s) = write_u8 3 ++ write_str s
  write_default (mapping ps) = write_u8 4 ++ (write_u32 (count_pairs ps % 2 ^ 32) ++ write_pairs ps)
  write_default (array xs) = write_u8 5 ++ (write_u32 (count_items xs % 2 ^ 32) ++ write_items xs)

  pub write_pairs : Pairs → Bytes
  write_pairs no_pairs = []
  write_pairs (pair k v ps) = write_default k ++ (write_default v ++ write_pairs ps)

  pub write_items : Items → Bytes
  write_items no_items = []
  write_items (item v xs) = write_default v ++ write_items xs

-- The loops over the entries, with the entries left.
unfoldable pub read_pairs : Reader FieldDefault → ℕ → Reader Pairs
read_pairs r zero = pure no_pairs
read_pairs r (suc n) = do k ← r; v ← r; ps ← read_pairs r n; pure (pair k v ps)

unfoldable pub read_items : Reader FieldDefault → ℕ → Reader Items
read_items r zero = pure no_items
read_items r (suc n) = do v ← r; xs ← read_items r n; pure (item v xs)

-- The `switch` of `ReadFieldDefault`, with the reader of the entries; another kind is `Zero`.
unfoldable pub read_kind : Reader FieldDefault → ℕ → Reader FieldDefault
read_kind r kind =
    if kind == 1
    then (do v ← read_i64; pure (int v))
    else if kind == 2
    then (do v ← read_f64; pure (float v))
    else if kind == 3
    then (do s ← read_str; pure (string s))
    else if kind == 4
    then (do n ← read_u32; ps ← read_pairs r n; pure (mapping ps))
    else if kind == 5
    then (do n ← read_u32; xs ← read_items r n; pure (array xs))
    else pure FieldDefault.zero

-- `ReadFieldDefault`. Each call reads a byte, so the length of the data is fuel enough.
unfoldable pub read_default : ℕ → Reader FieldDefault
read_default zero bs = out_of_fuel
read_default (suc fuel) bs = (read_u8 >>= λ kind. read_kind (read_default fuel) kind) bs
