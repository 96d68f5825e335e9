-- ===== src/Array/Pushing.antt =====
-- `PushBack` of vm/src/value/lpc_array.cpp, and the operations that give an array its elements.
use lpc_interpreter.Prelude.{
  ℕ, suc, ◌≤◌, ◌<◌, ◌≡◌, ◌∙◌, refl, ap, sym, Bool, true, false, ◌&&◌, ◌==◌, List, [], ◌∷◌, ◌++◌,
  Option, none, some, ltb, leb, if◌then◌else◌, length, take, length-set, Bool-cases, inl, inr,
  arith,
}
use lpc_interpreter.Optimizer.Base.{◌>>=◌}
use lpc_interpreter.Value.Word.{Value}
use lpc_interpreter.Array.Storage.{
  Storage, LpcArray, inline_capacity, blank, cells_at, cells, write_at, write, reset_inline_data,
  clear_array, move_from, move_array, grow_to, grow, push_back,
}
use lpc_interpreter.Array.Refines.{
  Holds, copied, write-Wrote, take-set_last, take_all, double_until_total, grow_to-Holds,
  size-grow_to, capacity-grow_to,
}

-- `Clear` leaves no elements.
pub clear_array-Holds : (a : LpcArray) → Holds (clear_array a) []
unfolding clear_array reset_inline_data
clear_array-Holds a = (record { room = omega arith; backed = omega arith; in_place = refl }, refl)

-- The new array has the elements of the old, which has none.
pub move_array-Holds :
    (a : LpcArray) (xs : List Value)
    → Holds a xs
    → Holds (move_array a).0 xs × Holds (move_array a).1 []
unfolding move_array
move_array-Holds a xs (s, same) = go a.data_at refl
  where
    kept : (d : Storage) → a.data_at ≡ d → cells_at d a.inline_data ≡ cells a
    kept d e = ap (λ x. cells_at x a.inline_data) (sym e)

    left : {d : Storage} → Holds (record a { data_at = d; size = 0; capacity = 0 }) []
    left = (record { room = omega arith; backed = omega arith; in_place = s.in_place }, refl)

    go : (d : Storage) → a.data_at ≡ d → Holds (move_from d a).0 xs × Holds (move_from d a).1 []
    go Storage.null e = (
      (
        record {
          room = s.room;
          backed = omega (arith, s.backed, ap length (kept Storage.null e));
          in_place = refl;
        },
        ap (take a.size) (kept Storage.null e) ∙ same,
      ),
      left,
    )
    go Storage.inline e =
        let own = kept Storage.inline e in
        let fits : a.size ≤ inline_capacity =
          omega (arith, s.room, s.backed, s.in_place, ap length own) in
        let short = take_all a.size a.inline_data (omega (arith, s.in_place)) in
        let (sound, moved) =
          copied Storage.inline (take a.size a.inline_data)
            (record {
              data_at = Storage.inline;
              size = a.size;
              capacity = inline_capacity;
              inline_data = blank;
            })
            (omega (arith, short)) (sym short) fits (omega arith) refl in
        (
          (sound, moved ∙ ap (take a.size) own ∙ same),
          (record { room = omega arith; backed = omega arith; in_place = refl }, refl),
        )
    go (Storage.buffer b) e = (
      (
        record {
          room = s.room;
          backed = omega (arith, s.backed, ap length (kept (Storage.buffer b) e));
          in_place = refl;
        },
        ap (take a.size) (kept (Storage.buffer b) e) ∙ same,
      ),
      left,
    )

-- The count of elements goes up by one.
abbrev count_up : LpcArray → Option LpcArray
count_up d = some (record d { size = suc d.size })

module _ (has_memory : ℕ → Bool) (enough : (n : ℕ) → has_memory n ≡ true) where
  push_last :
      (b : LpcArray) (v : Value) (xs : List Value)
      → Holds b xs
      → b.size < b.capacity
      → (c : LpcArray) × ((write b b.size v >>= count_up) ≡ some c) × Holds c (xs ++ v ∷ [])
  push_last b v xs (s, same) lt =
      let inside : b.size < length (cells b) = omega (arith, s.backed) in
      let w = write-Wrote b b.size v inside in
      let d = write_at b.data_at b b.size v in
      (
        record d { size = suc d.size },
        ap (λ x. x >>= count_up) w.done,
        (
          record {
            room = omega (arith, w.size, w.capacity);
            backed =
                omega (
                  arith,
                  w.capacity,
                  s.backed,
                  ap length w.cells_of,
                  length-set (cells b) b.size v,
                );
            in_place = w.in_place ∙ s.in_place;
          },
          ap (λ n. take (suc n) (cells d)) w.size
              ∙ ap (take (suc b.size)) w.cells_of
              ∙ take-set_last (cells b) b.size v inside
              ∙ ap (λ l. l ++ v ∷ []) same,
        ),
      )

  grow-Holds :
      (a : LpcArray) (xs : List Value)
      → Holds a xs
      → (b : LpcArray) × (grow has_memory a (suc a.size) ≡ some b)
        × Holds b xs
        × (b.size < b.capacity)
  unfolding grow
  grow-Holds a xs (s, same) =
      let start = if a.capacity == 0 then 8 else a.capacity in
      let positive : 0 < start = ground arith in
      let (c, eq, le) =
        double_until_total (suc (suc a.size)) start (suc a.size) positive (omega arith)
          (omega arith) in
      let (sound, kept) = grow_to-Holds has_memory enough a c s (omega arith) in
      (
        grow_to has_memory a c,
        ap (λ x. x >>= λ n. some (grow_to has_memory a n)) eq,
        (sound, kept ∙ same),
        omega (arith, size-grow_to has_memory enough a c, capacity-grow_to has_memory enough a c),
      )

  -- `PushBack` ends and adds an element at the end, whether the array has to grow or not.
  pub push_back-Holds :
      (a : LpcArray) (v : Value) (xs : List Value)
      → Holds a xs
      → (c : LpcArray) × (push_back has_memory a v ≡ some c) × Holds c (xs ++ v ∷ [])
  unfolding push_back
  push_back-Holds a v xs (s, same) = elim (Bool-cases (leb a.capacity a.size)) [
    | inl full ↦
        let (b, eq, h, lt) = grow-Holds a xs (s, same) in
        let (c, eq₂, h₂) = push_last b v xs h lt in (c, rw (full, eq) eq₂, h₂)
    | inr space ↦ let (c, eq, h) = push_last a v xs (s, same) (ground arith) in (c, rw space eq, h)
  ]

grow_to_no_memory : (a : LpcArray) (n : ℕ) → 0 < a.capacity → cells (grow_to (λ _. false) a n) ≡ []
unfolding grow_to
grow_to_no_memory a n some_room =
    let used : ((a.capacity == 0) && leb n inline_capacity) ≡ false = ground arith in rw used refl

write_nowhere : (a : LpcArray) (i : ℕ) (v : Value) → cells a ≡ [] → write a i v ≡ none
unfolding write
write_nowhere a i v e = let off : ltb i 0 ≡ false = ground arith in rw (e, off) refl

-- Without memory, `PushBack` on a full array that has room for one element or more writes through a
-- null pointer.
pub push_back_no_memory :
    (a : LpcArray) (v : Value)
    → 0 < a.capacity
    → a.capacity ≤ a.size
    → push_back (λ _. false) a v ≡ none
unfolding push_back grow
push_back_no_memory a v some_room full =
    let test : leb a.capacity a.size ≡ true = ground arith in
    let used : (a.capacity == 0) ≡ false = ground arith in
    let (c, eq, le) =
      double_until_total (suc (suc a.size)) a.capacity (suc a.size) some_room (omega arith)
        (omega arith) in
    let b = grow_to (λ _. false) a c in
    rw (test, used, eq)
      (ap (λ x. x >>= count_up) (write_nowhere b b.size v (grow_to_no_memory a c some_room)))
