-- ===== src/Value/RoundTrip.antt =====
-- Every content that a word of vm/include/vm/value/value.h has room for is read back from it.
use lpc_interpreter.Prelude.{ℕ, ◌%◌, ◌^◌, ◌<◌, ◌≡◌, ◌∙◌, ap, refl, Bool, true, false, arith}
use lpc_interpreter.Prelude.Int.{ℤ, to_bits}
use lpc_interpreter.Value.Word.{
  ValueTag, Value, tag, as_bool, as_obj, closure_id, boxed_int_idx, nil_value, from_bool, from_i64,
  from_f64, from_obj, from_closure, from_boxed_int,
}
use lpc_interpreter.Value.Content.{Content, encode, decode, content_as, Fits}
use lpc_interpreter.Value.Fields.{word, or_payload, and_mask, and_payload, tag-word}
use lpc_interpreter.Value.Floats.{as_f64-from_f64, tag-from_f64}
use lpc_interpreter.Value.Integers.{from_i64-word, as_i64-from_i64}

abbrev of_word : ℕ → Value
of_word b = record { bits = b }

pub from_obj-word : (raw : ℕ) → from_obj raw ≡ word 0x1_fff3 (raw % 2 ^ 47)
unfolding from_obj
from_obj-word raw =
    rw (and_payload raw) (ap of_word (or_payload 0x1_fff3 (raw % 2 ^ 47) (omega arith)))

from_closure-word : (cid : ℕ) → cid < 2 ^ 47 → from_closure cid ≡ word 0x1_fff4 cid
unfolding from_closure
from_closure-word cid fits = ap of_word (or_payload 0x1_fff4 cid fits)

from_boxed_int-word : (idx : ℕ) → idx < 2 ^ 47 → from_boxed_int idx ≡ word 0x1_fff5 idx
unfolding from_boxed_int
from_boxed_int-word idx fits = ap of_word (or_payload 0x1_fff5 idx fits)

pub tag-from_i64 : (i : ℤ) → tag (from_i64 i) ≡ ValueTag.int64
tag-from_i64 i = rw (from_i64-word i) (tag-word 0x1_fff2 (to_bits i % 2 ^ 47) (omega arith) refl)

decode-from_bool : (b : Bool) → decode (from_bool b) ≡ Content.bool b
unfolding decode content_as from_bool tag as_bool
decode-from_bool true = refl
decode-from_bool false = refl

pub as_obj-word : (h p : ℕ) → p < 2 ^ 47 → as_obj (word h p) ≡ p
unfolding as_obj
as_obj-word h p fits = and_mask h p fits

pub tag-from_obj : (raw : ℕ) → tag (from_obj raw) ≡ ValueTag.obj_ref
tag-from_obj raw = rw (from_obj-word raw) (tag-word 0x1_fff3 (raw % 2 ^ 47) (omega arith) refl)

pub as_obj-from_obj : (raw : ℕ) → raw < 2 ^ 47 → as_obj (from_obj raw) ≡ raw
as_obj-from_obj raw fits =
    rw (from_obj-word raw, as_obj-word 0x1_fff3 (raw % 2 ^ 47) (omega arith)) (omega arith)

pub tag-from_closure : (cid : ℕ) → cid < 2 ^ 32 → tag (from_closure cid) ≡ ValueTag.closure
tag-from_closure cid fits =
    rw (from_closure-word cid (omega arith)) (tag-word 0x1_fff4 cid (omega arith) refl)

pub closure_id-from_closure : (cid : ℕ) → cid < 2 ^ 32 → closure_id (from_closure cid) ≡ cid
unfolding closure_id
closure_id-from_closure cid fits =
    rw (from_closure-word cid (omega arith), and_mask 0x1_fff4 cid (omega arith)) (omega arith)

pub tag-from_boxed_int : (idx : ℕ) → idx < 2 ^ 47 → tag (from_boxed_int idx) ≡ ValueTag.boxed_int
tag-from_boxed_int idx fits = rw (from_boxed_int-word idx fits) (tag-word 0x1_fff5 idx fits refl)

pub boxed_int_idx-from_boxed_int :
    (idx : ℕ) → idx < 2 ^ 47 → boxed_int_idx (from_boxed_int idx) ≡ idx
unfolding boxed_int_idx
boxed_int_idx-from_boxed_int idx fits =
    rw (from_boxed_int-word idx fits) (and_mask 0x1_fff5 idx fits)

-- The value of tag t is decoded by its accessor.
decode-as : (v : Value) (t : ValueTag) → tag v ≡ t → decode v ≡ content_as v t
unfolding decode
decode-as v t h = ap (content_as v) h

-- What is written into a word is read back from it by the accessor of its tag, for every content that
-- a word has room for: integers of 47 bits, doubles that are no NaN or the one NaN, payloads of 47
-- bits and closure ids of 32.
pub decode-encode : (c : Content) → Fits c → decode (encode c) ≡ c
unfolding encode content_as tag
decode-encode Content.nil fits = decode-as nil_value ValueTag.nil refl
decode-encode (Content.bool b) fits = decode-from_bool b
decode-encode (Content.int i) fits =
    decode-as (from_i64 i) ValueTag.int64 (tag-from_i64 i) ∙ ap Content.int (as_i64-from_i64 i fits)
decode-encode (Content.float d) (fits, plain) =
    decode-as (from_f64 d) ValueTag.float64 (tag-from_f64 d fits)
    ∙ ap Content.float (as_f64-from_f64 d fits plain)
decode-encode (Content.object raw) fits =
    decode-as (from_obj raw) ValueTag.obj_ref (tag-from_obj raw)
    ∙ ap Content.object (as_obj-from_obj raw fits)
decode-encode (Content.closure cid) fits =
    decode-as (from_closure cid) ValueTag.closure (tag-from_closure cid fits)
    ∙ ap Content.closure (closure_id-from_closure cid fits)
decode-encode (Content.boxed idx) fits =
    decode-as (from_boxed_int idx) ValueTag.boxed_int
      (rw (from_boxed_int-word idx fits) (tag-word 0x1_fff5 idx fits refl))
    ∙ ap Content.boxed (boxed_int_idx-from_boxed_int idx fits)
