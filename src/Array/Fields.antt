-- ===== src/Array/Fields.antt =====
-- `Reset` and `InitFromVector` of vm/src/value/lpc_class.cpp give an instance its fields.
use lpc_interpreter.Prelude.{
  ==_iff, ℕ, zero, suc, ◌≤◌, ◌<◌, ◌≡◌, ◌≢◌, ◌∙◌, refl, ap, Bool, true, false, not, ◌||◌, ◌==◌, List,
  [], ◌∷◌, leb, leb→le, length, take, replicate, length-replicate, Bool-cases, inl, inr, arith,
}
use lpc_interpreter.Value.Word.{Value}
use lpc_interpreter.Array.Storage.{Storage, cells_at, copy_cells}
use lpc_interpreter.Array.Refines.{
  length-copy_cells, take-copy_cells, length-fill_cells, take-fill_cells,
}
use lpc_interpreter.Array.Instance.{
  LpcClass, inline_fields, clear_fields, fill_at, copy_at, is_inline, is_null, reset_data,
  reset_fields, init_fields,
}

abbrev pub field_cells : LpcClass → List Value
field_cells c = cells_at c.data_at c.inline_data

pub record IsSoundInstance (c : LpcClass) : Type 0 where
  pub backed : c.nfields ≤ length (field_cells c)
  pub in_place : length c.inline_data ≡ inline_fields

-- A sound instance with the values of a list in its fields.
abbrev pub HasFields : LpcClass → List Value → Type 0
HasFields c vs = IsSoundInstance c × (take c.nfields (field_cells c) ≡ vs)

fill_at-HasFields :
    (d : Storage) (n : ℕ) (fill : Value) (c : LpcClass)
    → n ≤ length (cells_at d c.inline_data)
    → 0 < n
    → length c.inline_data ≡ inline_fields
    → HasFields (fill_at d n fill c) (replicate n fill)
fill_at-HasFields Storage.null n fill c fits some_field in_place = absurd (omega arith)
fill_at-HasFields Storage.inline n fill c fits some_field in_place =
    let same = length-fill_cells n fill c.inline_data in
    (
      record { backed = omega (arith, same); in_place = omega (arith, same) },
      take-fill_cells n fill c.inline_data fits,
    )
fill_at-HasFields (Storage.buffer b) n fill c fits some_field in_place = (
  record { backed = omega (arith, length-fill_cells n fill b); in_place = in_place },
  take-fill_cells n fill b fits,
)

last_test : (a b x : Bool) → (a || b || not x) ≡ false → x ≡ true
last_test true b x e = cc
last_test false true x e = cc
last_test false false true e = refl
last_test false false false e = cc

last_true : (a b : Bool) → (a || b || true) ≡ true
last_true true b = refl
last_true false true = refl
last_true false false = refl

copy_at-HasFields :
    (d : Storage) (vs : List Value) (c : LpcClass)
    → c.nfields ≡ length vs
    → length vs ≤ length (cells_at d c.inline_data)
    → 0 < length vs
    → length c.inline_data ≡ inline_fields
    → HasFields (copy_at d vs c) vs
copy_at-HasFields Storage.null vs c count fits some_field in_place = absurd (omega arith)
copy_at-HasFields Storage.inline vs c count fits some_field in_place =
    let same = length-copy_cells vs c.inline_data in
    (
      record { backed = omega (arith, same); in_place = omega (arith, same) },
      ap (λ n. take n (copy_cells vs c.inline_data)) count ∙ take-copy_cells vs c.inline_data fits,
    )
copy_at-HasFields (Storage.buffer b) vs c count fits some_field in_place = (
  record { backed = omega (arith, length-copy_cells vs b); in_place = in_place },
  ap (λ n. take n (copy_cells vs b)) count ∙ take-copy_cells vs b fits,
)

module _ (has_memory : ℕ → Bool) where
  -- Where the fields go has room for them, or there is no memory.
  reset_data-fits :
      (c : LpcClass) (n : ℕ)
      → IsSoundInstance c
      → has_memory n ≡ true
      → n ≤ length (cells_at (reset_data has_memory c n) c.inline_data)
  unfolding reset_data
  reset_data-fits c n s enough = elim (Bool-cases (leb n inline_fields)) [
    | inl small ↦ rw small (omega (arith, s.in_place, leb→le n inline_fields small))
    | inr large ↦
        elim (Bool-cases (is_inline c.data_at || is_null c.data_at || not (c.nfields == n))) [
          | inl fresh ↦
              rw (large, fresh, enough)
                (omega (arith, length-replicate {A = Value} n (record { bits = 0 })))
          | inr again ↦
              let same : c.nfields ≡ n =
                (==_iff c.nfields n).0
                  (last_test (is_inline c.data_at) (is_null c.data_at) (c.nfields == n) again) in
              rw (large, again) (omega (arith, s.backed, same))
        ]
  ]

  -- After `Reset` a sound instance has n fields with the value, whatever it had before, and is sound;
  -- there is memory for n values.
  pub reset_fields-HasFields :
      (c : LpcClass) (n : ℕ) (fill : Value)
      → IsSoundInstance c
      → has_memory n ≡ true
      → HasFields (reset_fields has_memory c n fill) (replicate n fill)
  unfolding reset_fields clear_fields
  reset_fields-HasFields c zero fill s enough =
      (record { backed = omega arith; in_place = refl }, refl)
  reset_fields-HasFields c (suc k) fill s enough =
      let some_field : (suc k == 0) ≡ false = ground arith in
      rw some_field (
        fill_at-HasFields (reset_data has_memory c (suc k)) (suc k) fill c
          (reset_data-fits c (suc k) s enough) (omega arith) s.in_place)

  -- After `InitFromVector` a sound instance has the values of the vector in its fields, and is sound;
  -- there is memory for them.
  pub init_fields-HasFields :
      (c : LpcClass) (vs : List Value)
      → IsSoundInstance c
      → has_memory (length vs) ≡ true
      → HasFields (init_fields has_memory c vs) vs
  unfolding init_fields
  init_fields-HasFields c [] s enough =
      (record { backed = omega arith; in_place = s.in_place }, refl)
  init_fields-HasFields c (w ∷ ws) s enough =
      let vs : List Value = w ∷ ws in
      let some_field : (length (w ∷ ws) == 0) ≡ false = ground arith in
      elim (Bool-cases (leb (length vs) inline_fields)) [
        | inl small ↦
            rw (some_field, small)
              (copy_at-HasFields Storage.inline vs (record c { nfields = length vs }) refl
                (omega (arith, s.in_place, leb→le _ _ small)) (omega arith) s.in_place)
        | inr large ↦
            let long = length-replicate {A = Value} (length vs) (record { bits = 0 }) in
            rw (some_field, large, enough)
              (copy_at-HasFields (Storage.buffer (replicate (length vs) (record { bits = 0 }))) vs
                (record c { nfields = length vs }) refl (omega (arith, long)) (omega arith)
                s.in_place)
      ]

  -- A `Reset` that needs memory, for more than four fields and another count than before, and finds
  -- none leaves a sound instance without fields.
  pub reset_fields_no_memory :
      (c : LpcClass) (n : ℕ) (fill : Value)
      → IsSoundInstance c
      → has_memory n ≡ false
      → inline_fields < n
      → c.nfields ≢ n
      → HasFields (reset_fields has_memory c n fill) []
  unfolding reset_fields reset_data
  reset_fields_no_memory c n fill s without large other =
      let some_field : (n == 0) ≡ false = ground arith in
      let beyond : leb n inline_fields ≡ false = ground arith in
      let fresh : (c.nfields == n) ≡ false = ground arith in
      rw (some_field, beyond, fresh, last_true (is_inline c.data_at) (is_null c.data_at), without)
        (record { backed = omega arith; in_place = s.in_place }, refl)
