-- ===== src/Value/Content.antt =====
-- What a `Value` of vm/include/vm/value/value.h stands for, apart from its bits.
use lpc_interpreter.Prelude.{ℕ, ◌^◌, ◌<◌, ◌≡◌, ◌⊎◌, ◌%◌, ◌-◌, Bool, ◌/◌}
use lpc_interpreter.Prelude.Int.{ℤ, pos, negsuc}
use lpc_interpreter.Value.Word.{
  ValueTag, Value, canon_nan, tag, as_bool, as_i64, as_f64, as_obj, closure_id, boxed_int_idx,
  nil_value, from_bool, from_i64, from_f64, from_obj, from_closure, from_boxed_int,
}

pub data Content : Type 0 where
  nil : Content
  bool : Bool → Content
  int : ℤ → Content
  float : ℕ → Content
  object : ℕ → Content
  closure : ℕ → Content
  boxed : ℕ → Content

-- The value of a content, by the constructor that the virtual machine calls for it.
unfoldable pub encode : Content → Value
encode Content.nil = nil_value
encode (Content.bool b) = from_bool b
encode (Content.int i) = from_i64 i
encode (Content.float d) = from_f64 d
encode (Content.object raw) = from_obj raw
encode (Content.closure cid) = from_closure cid
encode (Content.boxed idx) = from_boxed_int idx

-- The content of a value, read by the accessor of a tag.
unfoldable pub content_as : Value → ValueTag → Content
content_as v ValueTag.nil = Content.nil
content_as v ValueTag.bool = Content.bool (as_bool v)
content_as v ValueTag.int64 = Content.int (as_i64 v)
content_as v ValueTag.float64 = Content.float (as_f64 v)
content_as v ValueTag.obj_ref = Content.object (as_obj v)
content_as v ValueTag.closure = Content.closure (closure_id v)
content_as v ValueTag.boxed_int = Content.boxed (boxed_int_idx v)

-- By the accessor of its own tag.
unfoldable pub decode : Value → Content
decode v = content_as v (tag v)

-- From `kIntMinInline` to `kIntMaxInline`.
abbrev pub FitsInline : ℤ → Type 0
FitsInline (pos n) = n < 2 ^ 46
FitsInline (negsuc n) = n < 2 ^ 46

-- The pattern of a double that is a number or an infinity, or the one NaN: the exponent is not full
-- or the fraction is empty.
abbrev pub IsPlain : ℕ → Type 0
IsPlain d = (d ≡ canon_nan) ⊎ ((d / 2 ^ 52 % 2 ^ 11 < 2 ^ 11 - 1) ⊎ (d % 2 ^ 52 ≡ 0))

-- The contents that a word has room for.
abbrev pub Fits : Content → Type 0
Fits (Content.int i) = FitsInline i
Fits (Content.float d) = (d < 2 ^ 64) × IsPlain d
Fits (Content.object raw) = raw < 2 ^ 47
Fits (Content.closure cid) = cid < 2 ^ 32
Fits (Content.boxed idx) = idx < 2 ^ 47
Fits _ = Unit
