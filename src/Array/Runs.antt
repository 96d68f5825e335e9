-- ===== src/Array/Runs.antt =====
-- Runs of the operations of `LpcArray` in vm/src/value/lpc_array.cpp against a list.
use lpc_interpreter.Prelude.{
  ℕ, zero, suc, ◌≤◌, ◌<◌, ◌≡◌, ◌∙◌, refl, ap, sym, Bool, true, false, ◌==◌, List, [], ◌∷◌, ◌++◌,
  Option, none, some, ltb, leb, leb→le, ltb→lt, if◌then◌else◌, length, set, take, replicate,
  length-set, length-replicate, Bool-cases, inl, inr, arith,
}
use mathlib.Core.Option.{some-injective, none-ne-some}
use lpc_interpreter.Optimizer.Base.{◌>>=◌}
use lpc_interpreter.Value.Word.{Value}
use lpc_interpreter.Array.Storage.{
  Storage, LpcArray, inline_capacity, blank, cells, write_at, write, clear_array, move_array,
  make_array, push_back, init_from_vector,
}
use lpc_interpreter.Array.Refines.{
  IsSound, Holds, copied, write-Wrote, take_all, take-fill_cells, length-fill_cells,
}
use lpc_interpreter.Array.Pushing.{clear_array-Holds, move_array-Holds, push_back-Holds}

take-set : (n : ℕ) (cs : List Value) (i : ℕ) (v : Value) → take n (set cs i v) ≡ set (take n cs) i v
take-set zero cs i v = refl
take-set (suc n) [] i v = refl
take-set (suc n) (c ∷ cs) zero v = refl
take-set (suc n) (c ∷ cs) (suc i) v = ap (λ l. c ∷ l) (take-set n cs i v)

-- `Set` at an element.
write-Holds :
    (a : LpcArray) (i : ℕ) (v : Value) (xs : List Value)
    → Holds a xs
    → i < length xs
    → (b : LpcArray) × (write a i v ≡ some b) × Holds b (set xs i v)
write-Holds a i v xs (s, same) lt =
    let size : length xs ≡ a.size =
      ap length (sym same) ∙ take_all a.size (cells a) (omega (arith, s.room, s.backed)) in
    let w = write-Wrote a i v (omega (arith, s.room, s.backed)) in
    (
      write_at a.data_at a i v,
      w.done,
      (
        record {
          room = omega (arith, w.size, w.capacity, s.room);
          backed =
              omega (arith, w.capacity, s.backed, ap length w.cells_of, length-set (cells a) i v);
          in_place = w.in_place ∙ s.in_place;
        },
        ap (λ n. take n (cells (write_at a.data_at a i v))) w.size
            ∙ ap (take a.size) w.cells_of
            ∙ take-set a.size (cells a) i v
            ∙ ap (λ l. set l i v) same,
      ),
    )

as_list : {a : LpcArray} {xs ys : List Value} → Holds a xs → xs ≡ ys → Holds a ys
as_list (s, same) e = (s, same ∙ e)

pub data Op : Type 0 where
  push : Value → Op
  put : ℕ → Value → Op
  clear : Op
  init : List Value → Op
  move : Op

-- The operation on a list; there is no element outside of it to put.
unfoldable pub list_op : Op → List Value → Option (List Value)
list_op (push v) xs = some (xs ++ v ∷ [])
list_op (put i v) xs = if ltb i (length xs) then some (set xs i v) else none
list_op clear xs = some []
list_op (init vs) xs = some vs
list_op move xs = some xs

unfoldable pub list_run : List Op → List Value → Option (List Value)
list_run [] xs = some xs
list_run (o ∷ os) xs = do ys ← list_op o xs; list_run os ys

module _ (has_memory : ℕ → Bool) where
  unfoldable pub array_op : Op → LpcArray → Option LpcArray
  array_op (push v) a = push_back has_memory a v
  array_op (put i v) a = write a i v
  array_op clear a = some (clear_array a)
  array_op (init vs) a = some (init_from_vector has_memory a vs)
  array_op move a = some (move_array a).0

  unfoldable pub array_run : List Op → LpcArray → Option LpcArray
  array_run [] a = some a
  array_run (o ∷ os) a = do b ← array_op o a; array_run os b

module _ (has_memory : ℕ → Bool) (enough : (n : ℕ) → has_memory n ≡ true) where
  make_array-Holds :
      (n : ℕ) (fill : Value) → Holds (make_array has_memory n fill) (replicate n fill)
  unfolding make_array
  make_array-Holds zero fill =
      (record { room = omega arith; backed = omega arith; in_place = refl }, refl)
  make_array-Holds (suc k) fill =
      let n = suc k in
      let some_there : (suc k == 0) ≡ false = ground arith in
      elim (Bool-cases (leb n inline_capacity)) [
        | inl small ↦
            rw (some_there, small)
              (
                record {
                  room = leb→le _ _ small;
                  backed = omega (arith, length-fill_cells n fill blank);
                  in_place = length-fill_cells n fill blank;
                },
                take-fill_cells n fill blank (leb→le _ _ small),
              )
        | inr large ↦
            let z : Value = record { bits = 0 } in
            rw (some_there, large, enough n)
              (
                record {
                  room = omega arith;
                  backed = omega (
                    arith,
                    length-fill_cells n fill (replicate n z),
                    length-replicate {A = Value} n z,
                  );
                  in_place = refl;
                },
                take-fill_cells n fill (replicate n z)
                    (omega (arith, length-replicate {A = Value} n z)),
              )
      ]

  init_from_vector-Holds :
      (a : LpcArray) (vs : List Value) → IsSound a → Holds (init_from_vector has_memory a vs) vs
  unfolding init_from_vector
  init_from_vector-Holds a [] s =
      (record { room = omega arith; backed = omega arith; in_place = s.in_place }, refl)
  init_from_vector-Holds a (w ∷ ws) s =
      let vs : List Value = w ∷ ws in
      let some_there : (length (w ∷ ws) == 0) ≡ false = ground arith in
      elim (Bool-cases (leb (length vs) inline_capacity)) [
        | inl small ↦
            let le : length vs ≤ inline_capacity = leb→le _ _ small in
            rw (some_there, small)
              (copied Storage.inline vs (record a { size = length vs; capacity = inline_capacity })
                (omega (arith, s.in_place)) refl le (omega (arith, s.in_place)) s.in_place)
        | inr large ↦
            let long = length-replicate {A = Value} (length vs) (record { bits = 0 }) in
            rw (some_there, large, enough (length vs))
              (copied (Storage.buffer (replicate (length vs) (record { bits = 0 }))) vs
                (record a { size = length vs; capacity = length vs }) (omega (arith, long)) refl
                (omega arith) (omega (arith, long)) s.in_place)
      ]

  array_op-Holds :
      (o : Op) (a : LpcArray) (xs ys : List Value)
      → Holds a xs
      → list_op o xs ≡ some ys
      → (b : LpcArray) × (array_op has_memory o a ≡ some b) × Holds b ys
  unfolding array_op list_op
  array_op-Holds (push v) a xs ys h e =
      let (b, eq, h₂) = push_back-Holds has_memory enough a v xs h in
      (b, eq, as_list h₂ (some-injective _ _ e))
  array_op-Holds (put i v) a xs ys h e = elim (Bool-cases (ltb i (length xs))) [
    | inl inside ↦
        let (b, eq, h₂) = write-Holds a i v xs h (ltb→lt _ _ inside) in
        (b, eq, as_list h₂ (some-injective _ _ (rw inside at e)))
    | inr outside ↦ absurd (none-ne-some ys (rw outside at e))
  ]
  array_op-Holds clear a xs ys h e =
      (clear_array a, refl, as_list (clear_array-Holds a) (some-injective _ _ e))
  array_op-Holds (init vs) a xs ys h e = (
    init_from_vector has_memory a vs,
    refl,
    as_list (init_from_vector-Holds a vs h.0) (some-injective _ _ e),
  )
  array_op-Holds move a xs ys h e =
      ((move_array a).0, refl, as_list (move_array-Holds a xs h).0 (some-injective _ _ e))

  array_run-Holds :
      (os : List Op) (a : LpcArray) (xs ys : List Value)
      → Holds a xs
      → list_run os xs ≡ some ys
      → (b : LpcArray) × (array_run has_memory os a ≡ some b) × Holds b ys
  unfolding array_run list_run
  array_run-Holds [] a xs ys h e = (a, refl, as_list h (some-injective _ _ e))
  array_run-Holds (o ∷ os) a xs ys h e =
      go (λ b zs h₂ after. array_run-Holds os b zs ys h₂ after) (list_op o xs) refl e
    where
      go :
          ((b : LpcArray) (zs : List Value)
            → Holds b zs
            → list_run os zs ≡ some ys
            → (c : LpcArray) × (array_run has_memory os b ≡ some c) × Holds c ys)
          → (x : Option (List Value)) → list_op o xs ≡ x
          → (x >>= list_run os) ≡ some ys
          → (b : LpcArray) × ((array_op has_memory o a >>= array_run has_memory os) ≡ some b)
            × Holds b ys
      go rest none eq after = absurd (none-ne-some ys after)
      go rest (some zs) eq after =
          let (b, first, h₂) = array_op-Holds o a xs zs h eq in
          let (c, second, h₃) = rest b zs h₂ after in
          (c, ap (λ y. y >>= array_run has_memory os) first ∙ second, h₃)

  -- An array that is made with n copies of a value, and then changed by any operations, goes through
  -- them whenever a list of n copies does, and then has the elements of that list. There is memory.
  pub made_run-Holds :
      (n : ℕ) (fill : Value) (os : List Op) (ys : List Value)
      → list_run os (replicate n fill) ≡ some ys
      → (b : LpcArray) × (array_run has_memory os (make_array has_memory n fill) ≡ some b)
        × Holds b ys
  made_run-Holds n fill os ys e =
      array_run-Holds os (make_array has_memory n fill) (replicate n fill) ys
        (make_array-Holds n fill) e
