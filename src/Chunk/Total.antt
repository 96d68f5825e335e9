-- ===== src/Chunk/Total.antt =====
-- `DeserializeChunk` of vm/src/bytecode/chunk_serialization.cpp ends on all data, and refuses a file
-- that was cut off.
use lpc_interpreter.Prelude.{
  ℕ, zero, suc, ◌≤◌, ◌<◌, Bool, true, false, [], ◌∷◌, ◌++◌, length, ltb, ◌==◌, if◌then◌else◌, arith,
}
use lpc_interpreter.Chunk.Reader.{Bytes, Reader, pure, ◌>>=◌}
use lpc_interpreter.Chunk.Bytes.{read_u8, read_str, read_bytes, read_short_list}
use lpc_interpreter.Chunk.Tree.{
  FieldDefault, int, float, string, mapping, array, no_pairs, pair, no_items, item,
}
use lpc_interpreter.Chunk.Default.{read_pairs, read_items, read_kind, read_default}
use lpc_interpreter.Chunk.Records.{Chunk}
use lpc_interpreter.Chunk.Loader.{
  read_fields, read_class, read_upvalue, read_function, read_line, read_debug, read_block,
  read_body,
}
use lpc_interpreter.Chunk.Reads.{
  Within, Same, Reads, no, after_refused, after_fuel, Within-mono, Reads-bind, Reads-pure,
  Reads-guard, Reads-bytes, Reads-u16, Reads-u32, Reads-i64, Reads-f64, Reads-str, Reads-many,
  Reads-list, Reads-short_list,
}

module _ {n : ℕ} (r r' : Reader FieldDefault) (h : Reads n r r') where
  Reads-pairs : (k : ℕ) → Reads n (read_pairs r k) (read_pairs r' k)
  unfolding read_pairs
  Reads-pairs zero = Reads-pure no_pairs
  Reads-pairs (suc k) = Reads-bind _ _ _ _ h λ x.
      Reads-bind _ _ _ _ h λ y. Reads-bind _ _ _ _ (Reads-pairs k) λ ps. Reads-pure (pair x y ps)

  Reads-items : (k : ℕ) → Reads n (read_items r k) (read_items r' k)
  unfolding read_items
  Reads-items zero = Reads-pure no_items
  Reads-items (suc k) =
      Reads-bind _ _ _ _ h λ x. Reads-bind _ _ _ _ (Reads-items k) λ xs. Reads-pure (item x xs)

  Reads-if :
      (b : Bool) {x x' y y' : Reader FieldDefault}
      → Reads n x x'
      → Reads n y y'
      → Reads n (if b then x else y) (if b then x' else y')
  Reads-if true hx hy = hx
  Reads-if false hx hy = hy

  Reads-kind : (kind : ℕ) → Reads n (read_kind r kind) (read_kind r' kind)
  unfolding read_kind
  Reads-kind kind = Reads-if (kind == 1) (Reads-bind _ _ _ _ Reads-i64 λ v. Reads-pure (int v)) (
      Reads-if (kind == 2) (Reads-bind _ _ _ _ Reads-f64 λ v. Reads-pure (float v)) (
        Reads-if (kind == 3) (Reads-bind _ _ _ _ Reads-str λ s. Reads-pure (string s)) (
          Reads-if (kind == 4)
            (Reads-bind _ _ _ _ Reads-u32
              λ k. Reads-bind _ _ _ _ (Reads-pairs k) λ ps. Reads-pure (mapping ps))
            (Reads-if (kind == 5)
              (Reads-bind _ _ _ _ Reads-u32
                λ k. Reads-bind _ _ _ _ (Reads-items k) λ xs. Reads-pure (array xs))
              (Reads-pure FieldDefault.zero)))))

Reads-byte :
    {A : Type 0} (n : ℕ) (f f' : ℕ → Reader A)
    → ((b : ℕ) → Reads n (f b) (f' b))
    → Reads (suc n) (read_u8 >>= f) (read_u8 >>= f')
unfolding read_u8
Reads-byte n f f' h = record {
  within = λ bs lt.
      elim bs as (λ l. length l < suc n → Within (length l) ((read_u8 >>= f) l)) [
        | [] ↦ λ _. no
        | b ∷ rest ↦ λ short. Within-mono (omega arith) ((h b).within rest (omega arith))
      ]
        lt;
  stable = λ bs more.
      elim bs as (λ l. Same more ((read_u8 >>= f) l) ((read_u8 >>= f') (l ++ more))) [
        | [] ↦ after_refused
        | b ∷ rest ↦ (h b).stable rest more
      ];
}

-- Each call takes a byte before it reads with less fuel.
Reads-default :
    (fuel fuel' : ℕ) → fuel ≤ fuel' → Reads fuel (read_default fuel) (read_default fuel')
unfolding read_default
Reads-default zero fuel' le = record {
  within = λ bs lt. absurd (omega arith);
  stable = λ bs more. after_fuel;
}
Reads-default (suc fuel) zero le = absurd (omega arith)
Reads-default (suc fuel) (suc fuel') le =
    Reads-byte fuel _ _ λ kind. Reads-kind _ _ (Reads-default fuel fuel' (omega arith)) kind

module _ (n : ℕ) where
  Reads-upvalue : Reads n read_upvalue read_upvalue
  unfolding read_upvalue
  Reads-upvalue =
      Reads-bind _ _ _ _ Reads-u16 λ kind. Reads-bind _ _ _ _ Reads-u16 λ index. Reads-pure _

  Reads-function : Reads n read_function read_function
  unfolding read_function
  Reads-function = Reads-bind _ _ _ _ Reads-str λ name. Reads-bind _ _ _ _ Reads-u16 λ arity.
      Reads-bind _ _ _ _ Reads-u16 λ nlocals. Reads-bind _ _ _ _ Reads-u16 λ max_stack.
        Reads-bind _ _ _ _ Reads-u32 λ code_start. Reads-bind _ _ _ _ Reads-u32 λ code_end.
          Reads-bind _ _ _ _ (Reads-short_list _ _ Reads-upvalue) λ upvalues. Reads-pure _

  Reads-line : Reads n read_line read_line
  unfolding read_line
  Reads-line = Reads-bind _ _ _ _ Reads-u32 λ line. Reads-bind _ _ _ _ Reads-u32 λ pc. Reads-pure _

  Reads-names : Reads n (read_short_list read_str) (read_short_list read_str)
  Reads-names = Reads-short_list _ _ Reads-str

  Reads-debug : Reads n read_debug read_debug
  unfolding read_debug
  Reads-debug = Reads-bind _ _ _ _ Reads-names λ params.
      Reads-bind _ _ _ _ Reads-names
        λ locals. Reads-bind _ _ _ _ Reads-names λ upvalues. Reads-pure _

  Reads-block : (old : Bytes) → Reads n (read_block old) (read_block old)
  unfolding read_block
  Reads-block old = Reads-bind _ _ _ _ Reads-u32 λ size. choose (ltb 0 size) size
    where
      choose :
          (b : Bool) (size : ℕ)
          → Reads n
              (if b then read_bytes size else pure old)
              (if b then read_bytes size else pure old)
      choose true size = Reads-bytes size
      choose false size = Reads-pure old

module _ (fuel fuel' : ℕ) (le : fuel ≤ fuel') where
  Reads-class : Reads fuel (read_class fuel) (read_class fuel')
  unfolding read_class read_fields
  Reads-class = Reads-bind _ _ _ _ Reads-str λ name. Reads-bind _ _ _ _ Reads-u16 λ nfields.
      Reads-bind _ _ _ _ Reads-u16 λ parent. Reads-bind _ _ _ _ Reads-u32 λ nfn.
        Reads-bind _ _ _ _
          (Reads-many _ _
            (Reads-bind _ _ _ _ Reads-str
              λ s. Reads-bind _ _ _ _ (Reads-default fuel fuel' le) λ d. Reads-pure _)
            nfn)
          λ fields. Reads-pure _

  pub Reads-body : (out : Chunk) → Reads fuel (read_body fuel out) (read_body fuel' out)
  unfolding read_body
  Reads-body out = Reads-bind _ _ _ _ Reads-u32 λ version.
      Reads-bind _ _ _ _ (Reads-guard (version == 2)) λ _.
        Reads-bind _ _ _ _ Reads-str λ module_name. Reads-bind _ _ _ _ Reads-u32 λ flags.
          Reads-bind _ _ _ _ Reads-str λ source_file.
            Reads-bind _ _ _ _ (Reads-list _ _ Reads-i64) λ iconst.
              Reads-bind _ _ _ _ (Reads-list _ _ Reads-f64) λ fconst.
                Reads-bind _ _ _ _ (Reads-list _ _ Reads-str) λ sconst.
                  Reads-bind _ _ _ _ (Reads-list _ _ Reads-class) λ classes.
                    Reads-bind _ _ _ _ (Reads-list _ _ (Reads-function fuel)) λ functions.
                      Reads-bind _ _ _ _ (Reads-list _ _ (Reads-line fuel)) λ lines.
                        Reads-bind _ _ _ _ (Reads-block fuel out.code) λ code.
                          Reads-bind _ _ _ _ (Reads-block fuel out.init_code) λ init_code.
                            Reads-bind _ _ _ _ (Reads-list _ _ Reads-str) λ global_names.
                              Reads-bind _ _ _ _ Reads-str λ debug_file.
                                Reads-bind _ _ _ _ (Reads-list _ _ Reads-str) λ debug_globals.
                                  Reads-bind _ _ _ _ (Reads-list _ _ (Reads-debug fuel))
                                    λ debug. Reads-pure _
