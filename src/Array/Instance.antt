-- ===== src/Array/Instance.antt =====
-- `LpcClass` of vm/include/vm/value/lpc_class.h and vm/src/value/lpc_class.cpp: the fields of a class
-- instance, four of them in place.
use lpc_interpreter.Prelude.{
  ℕ, Bool, true, false, not, ◌||◌, ◌==◌, List, leb, if◌then◌else◌, length, replicate,
}
use lpc_interpreter.Value.Word.{Value, nil_value}
use lpc_interpreter.Array.Storage.{Storage, copy_cells, fill_cells, calloc}

pub record LpcClass : Type 0 where
  pub data_at : Storage
  pub nfields : ℕ
  pub inline_data : List Value

-- `kInlineCapacity`, and that many cells without a value.
abbrev pub inline_fields : ℕ
inline_fields = 4

abbrev pub blank_fields : List Value
blank_fields = replicate inline_fields nil_value

abbrev pub is_null : Storage → Bool
is_null Storage.null = true
is_null _ = false

abbrev pub is_inline : Storage → Bool
is_inline Storage.inline = true
is_inline _ = false

-- `Clear`.
unfoldable pub clear_fields : LpcClass → LpcClass
clear_fields c = record { data_at = Storage.null; nfields = 0; inline_data = blank_fields }

-- The end of `Reset`: the count, and the loop over the fields, once `data_` is set.
abbrev pub fill_at : Storage → ℕ → Value → LpcClass → LpcClass
fill_at Storage.null n fill c = record c { data_at = Storage.null; nfields = 0 }
fill_at Storage.inline n fill c = record c {
  data_at = Storage.inline;
  nfields = n;
  inline_data = fill_cells n fill c.inline_data;
}
fill_at (Storage.buffer b) n fill c = record c {
  data_at = Storage.buffer (fill_cells n fill b);
  nfields = n;
}

-- `data_` after a `memcpy` to it.
abbrev pub copy_at : Storage → List Value → LpcClass → LpcClass
copy_at Storage.null vs c = record c { data_at = Storage.null }
copy_at Storage.inline vs c = record c {
  data_at = Storage.inline;
  inline_data = copy_cells vs c.inline_data;
}
copy_at (Storage.buffer b) vs c = record c { data_at = Storage.buffer (copy_cells vs b) }

module _ (has_memory : ℕ → Bool) where
  -- Memory of the right size is used again.
  unfoldable pub reset_data : LpcClass → ℕ → Storage
  reset_data c n =
      if leb n inline_fields
      then Storage.inline
      else if is_inline c.data_at || is_null c.data_at || not (c.nfields == n)
      then calloc has_memory n
      else c.data_at

  -- `Reset`.
  unfoldable pub reset_fields : LpcClass → ℕ → Value → LpcClass
  reset_fields c n fill = if n == 0 then clear_fields c else fill_at (reset_data c n) n fill c

  -- `InitFromVector`.
  unfoldable pub init_fields : LpcClass → List Value → LpcClass
  init_fields c vec =
      let n = length vec in
      let d = record c { nfields = n } in
      if n == 0
      then record d { data_at = Storage.null }
      else copy_at (if leb n inline_fields then Storage.inline else calloc has_memory n) vec d
