-- ===== src/Chunk/Tree.antt =====
-- Default values of class fields, `ClassInfo::FieldDefault` of vm/include/vm/bytecode/chunk.h. The
-- source keeps the content of every kind side by side and looks at the one that `kind` names; here a
-- kind has its content.
use lpc_interpreter.Prelude.{ℕ}
use lpc_interpreter.Prelude.Int.{ℤ}
use lpc_interpreter.Chunk.Reader.{Bytes}

mutual
  pub data FieldDefault : Type 0 where
    zero : FieldDefault
    int : ℤ → FieldDefault
    float : ℕ → FieldDefault
    string : Bytes → FieldDefault
    mapping : Pairs → FieldDefault
    array : Items → FieldDefault

  pub data Pairs : Type 0 where
    no_pairs : Pairs
    pair : FieldDefault → FieldDefault → Pairs → Pairs

  pub data Items : Type 0 where
    no_items : Items
    item : FieldDefault → Items → Items
