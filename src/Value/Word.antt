-- ===== src/Value/Word.antt =====
-- `Value` of vm/include/vm/value/value.h: a 64-bit word that is either a double or a tag of four bits
-- with a payload of 47 bits under the pattern of a NaN. A double is its bit pattern.
use Prim.Native.Nat
use lpc_interpreter.Prelude.{
  ℕ, ◌-◌, ◌*◌, ◌/◌, ◌%◌, ◌^◌, Bool, true, false, not, ◌&&◌, ◌==◌, if◌then◌else◌,
}
use lpc_interpreter.Prelude.Int.{ℤ, to_bits, from_bits}

pub data ValueTag : Type 0 where
  nil : ValueTag
  bool : ValueTag
  int64 : ValueTag
  float64 : ValueTag
  obj_ref : ValueTag
  closure : ValueTag
  boxed_int : ValueTag

pub record Value : Type 0 where
  pub bits : ℕ

abbrev pub q_nan_bits : ℕ
q_nan_bits = 0xfff8_0000_0000_0000

abbrev pub tag_mask : ℕ
tag_mask = 0xf * 2 ^ 47

abbrev pub payload_mask : ℕ
payload_mask = 2 ^ 47 - 1

abbrev pub canon_nan : ℕ
canon_nan = 0x7ff8_0000_0000_0000

-- `kQNaNBits | (tag << kTagShift)`
abbrev pub tag_bits : ℕ → ℕ
tag_bits tag = Nat.bit_or q_nan_bits (tag * 2 ^ 47)

abbrev pub tag_bits_mask : ℕ
tag_bits_mask = Nat.bit_or q_nan_bits tag_mask

-- The tags 1 to 5 (a nil has 0).
abbrev pub bool_tag_bits : ℕ
bool_tag_bits = tag_bits 1

abbrev pub int64_tag_bits : ℕ
int64_tag_bits = tag_bits 2

abbrev pub obj_ref_tag_bits : ℕ
obj_ref_tag_bits = tag_bits 3

abbrev pub closure_tag_bits : ℕ
closure_tag_bits = tag_bits 4

abbrev pub boxed_int_tag_bits : ℕ
boxed_int_tag_bits = tag_bits 5

unfoldable pub is_inline_int64 : Value → Bool
is_inline_int64 v = Nat.bit_and v.bits tag_bits_mask == int64_tag_bits

unfoldable pub is_inline_float64 : Value → Bool
is_inline_float64 v = not (Nat.bit_and v.bits q_nan_bits == q_nan_bits)

unfoldable pub both_inline_int64 : Value → Value → Bool
both_inline_int64 a b =
    Nat.bit_and (Nat.bit_or (Nat.bit_xor a.bits int64_tag_bits) (Nat.bit_xor b.bits int64_tag_bits))
      tag_bits_mask
    == 0

unfoldable pub both_inline_float64 : Value → Value → Bool
both_inline_float64 a b = not (Nat.bit_and (Nat.bit_or a.bits b.bits) q_nan_bits == q_nan_bits)

unfoldable pub is_tagged : Value → Bool
is_tagged v = Nat.bit_and v.bits q_nan_bits == q_nan_bits

-- The `switch` of `Tag`.
abbrev pub tag_of : ℕ → ValueTag
tag_of t =
    if t == 0
    then ValueTag.nil
    else if t == 1
    then ValueTag.bool
    else if t == 2
    then ValueTag.int64
    else if t == 3
    then ValueTag.obj_ref
    else if t == 4
    then ValueTag.closure
    else if t == 5
    then ValueTag.boxed_int
    else ValueTag.nil

-- `Tag`.
unfoldable pub tag : Value → ValueTag
unfolding is_tagged
tag v =
    if not (is_tagged v) then ValueTag.float64 else tag_of (Nat.bit_and v.bits tag_mask / 2 ^ 47)

unfoldable pub is_obj_ref : Value → Bool
unfolding tag
is_obj_ref v = elim (tag v) [ ValueTag.obj_ref ↦ true | _ ↦ false ]

unfoldable pub is_closure : Value → Bool
unfolding tag
is_closure v = elim (tag v) [ ValueTag.closure ↦ true | _ ↦ false ]

unfoldable pub is_boxed_int : Value → Bool
unfolding tag
is_boxed_int v = elim (tag v) [ ValueTag.boxed_int ↦ true | _ ↦ false ]

-- `IsInt64`: inline or boxed.
unfoldable pub is_int64 : Value → Bool
unfolding tag
is_int64 v = elim (tag v) [ ValueTag.int64 ↦ true | ValueTag.boxed_int ↦ true | _ ↦ false ]

abbrev pub payload : Value → ℕ
payload v = Nat.bit_and v.bits payload_mask

unfoldable pub as_bool : Value → Bool
as_bool v = not (payload v == 0)

-- `AsI64`: the payload with its sign, bit 46, spread over the high bits.
unfoldable pub as_i64 : Value → ℤ
unfolding from_bits
as_i64 v =
    let sign = Nat.bit_and (payload v / 2 ^ 46) 1 in
    from_bits
      (Nat.bit_or (payload v) (Nat.bit_and ((2 ^ 64 - sign) % 2 ^ 64) (2 ^ 64 - 1 - payload_mask)))

unfoldable pub as_f64 : Value → ℕ
as_f64 v = v.bits

unfoldable pub as_obj : Value → ℕ
as_obj v = payload v

-- A cast to 32 bits.
unfoldable pub closure_id : Value → ℕ
closure_id v = payload v % 2 ^ 32

unfoldable pub boxed_int_idx : Value → ℕ
boxed_int_idx v = payload v

abbrev pub nil_value : Value
nil_value = record { bits = tag_bits 0 }

unfoldable pub from_bool : Bool → Value
from_bool b = record { bits = Nat.bit_or bool_tag_bits (if b then 1 else 0) }

unfoldable pub from_i64 : ℤ → Value
unfolding to_bits
from_i64 i = record { bits = Nat.bit_or int64_tag_bits (Nat.bit_and (to_bits i) payload_mask) }

-- `FromF64` writes every NaN as one pattern.
unfoldable pub from_f64 : ℕ → Value
from_f64 b = record {
  bits =
      if Nat.bit_and (b / 2 ^ 52) 0x7ff == 0x7ff && not (Nat.bit_and b 0x000f_ffff_ffff_ffff == 0)
      then canon_nan
      else b;
}

unfoldable pub from_obj : ℕ → Value
from_obj raw = record { bits = Nat.bit_or obj_ref_tag_bits (Nat.bit_and raw payload_mask) }

unfoldable pub from_closure : ℕ → Value
from_closure cid = record { bits = Nat.bit_or closure_tag_bits cid }

unfoldable pub from_boxed_int : ℕ → Value
from_boxed_int idx = record { bits = Nat.bit_or boxed_int_tag_bits idx }
