-- ===== src/Array/Refines.antt =====
-- The operations of `LpcArray` in vm/src/value/lpc_array.cpp do to the elements what those of a list do.
use lpc_interpreter.Prelude.{
  ℕ, zero, suc, ◌+◌, ◌*◌, ◌≤◌, ◌<◌, ◌≡◌, ◌∙◌, refl, ap, sym, Bool, true, ◌&&◌, ◌==◌, List, [], ◌∷◌,
  ◌++◌, some, ltb, leb, ltb→lt, lt→ltb, length, set, take, replicate, length-set, length-take,
  length-replicate, Bool-cases, inl, inr, arith,
}
use lpc_interpreter.Value.Word.{Value}
use lpc_interpreter.Array.Storage.{
  Storage, LpcArray, inline_capacity, blank, cells_at, cells, copy_cells, fill_cells, write_at,
  write, copy_to, double_until, grow_to,
}

-- The elements.
abbrev pub contents : LpcArray → List Value
contents a = take a.size (cells a)

pub record IsSound (a : LpcArray) : Type 0 where
  pub room : a.size ≤ a.capacity
  pub backed : a.capacity ≤ length (cells a)
  pub in_place : length a.inline_data ≡ inline_capacity

-- A sound array with the elements of a list.
abbrev pub Holds : LpcArray → List Value → Type 0
Holds a xs = IsSound a × (contents a ≡ xs)

pub length-copy_cells : (vs cs : List Value) → length (copy_cells vs cs) ≡ length cs
unfolding copy_cells
length-copy_cells [] cs = refl
length-copy_cells (v ∷ vs) [] = refl
length-copy_cells (v ∷ vs) (c ∷ cs) = ap suc (length-copy_cells vs cs)

pub take-copy_cells :
    (vs cs : List Value) → length vs ≤ length cs → take (length vs) (copy_cells vs cs) ≡ vs
unfolding copy_cells
take-copy_cells [] cs le = refl
take-copy_cells (v ∷ vs) [] le = absurd (omega arith)
take-copy_cells (v ∷ vs) (c ∷ cs) le = ap (λ l. v ∷ l) (take-copy_cells vs cs (omega arith))

pub length-fill_cells :
    (n : ℕ) (v : Value) (cs : List Value) → length (fill_cells n v cs) ≡ length cs
unfolding fill_cells
length-fill_cells zero v cs = refl
length-fill_cells (suc n) v [] = refl
length-fill_cells (suc n) v (c ∷ cs) = ap suc (length-fill_cells n v cs)

pub take-fill_cells :
    (n : ℕ) (v : Value) (cs : List Value)
    → n ≤ length cs
    → take n (fill_cells n v cs) ≡ replicate n v
unfolding fill_cells
take-fill_cells zero v cs le = refl
take-fill_cells (suc n) v [] le = absurd (omega arith)
take-fill_cells (suc n) v (c ∷ cs) le = ap (λ l. v ∷ l) (take-fill_cells n v cs (omega arith))

pub take-set_last :
    (cs : List Value) (n : ℕ) (v : Value)
    → n < length cs
    → take (suc n) (set cs n v) ≡ take n cs ++ v ∷ []
take-set_last [] n v lt = absurd (omega arith)
take-set_last (c ∷ cs) zero v lt = refl
take-set_last (c ∷ cs) (suc n) v lt = ap (λ l. c ∷ l) (take-set_last cs n v (omega arith))

pub take_all : (n : ℕ) (cs : List Value) → n ≤ length cs → length (take n cs) ≡ n
take_all n cs le = omega (arith, length-take n cs)

-- A write inside of the cells.
pub record Wrote (a : LpcArray) (i : ℕ) (v : Value) (b : LpcArray) : Type 0 where
  pub done : write a i v ≡ some b
  pub cells_of : cells b ≡ set (cells a) i v
  pub size : b.size ≡ a.size
  pub capacity : b.capacity ≡ a.capacity
  pub in_place : length b.inline_data ≡ length a.inline_data

pub write-Wrote :
    (a : LpcArray) (i : ℕ) (v : Value)
    → i < length (cells a)
    → Wrote a i v (write_at a.data_at a i v)
unfolding write
write-Wrote a i v lt = record {
  done = rw (lt→ltb i (length (cells a)) lt) refl;
  cells_of = at_cells a.data_at;
  size = at_size a.data_at;
  capacity = at_capacity a.data_at;
  in_place = at_inline a.data_at;
}
  where
    at_cells : (d : Storage) → cells (write_at d a i v) ≡ set (cells_at d a.inline_data) i v
    at_cells Storage.null = refl
    at_cells Storage.inline = refl
    at_cells (Storage.buffer b) = refl

    at_size : (d : Storage) → (write_at d a i v).size ≡ a.size
    at_size Storage.null = refl
    at_size Storage.inline = refl
    at_size (Storage.buffer b) = refl

    at_capacity : (d : Storage) → (write_at d a i v).capacity ≡ a.capacity
    at_capacity Storage.null = refl
    at_capacity Storage.inline = refl
    at_capacity (Storage.buffer b) = refl

    at_inline : (d : Storage) → length (write_at d a i v).inline_data ≡ length a.inline_data
    at_inline Storage.null = refl
    at_inline Storage.inline = length-set a.inline_data i v
    at_inline (Storage.buffer b) = refl

nothing : (vs : List Value) → length vs ≤ 0 → vs ≡ []
nothing [] le = refl
nothing (v ∷ vs) le = absurd (omega arith)

pub take_none : (n : ℕ) (cs : List Value) → n ≤ 0 → take n cs ≡ []
take_none zero cs le = refl
take_none (suc n) cs le = absurd (omega arith)

-- Values that are copied to the cells of an array of that size.
pub copied :
    (d : Storage) (vs : List Value) (a : LpcArray)
    → length vs ≤ length (cells_at d a.inline_data)
    → a.size ≡ length vs
    → a.size ≤ a.capacity
    → a.capacity ≤ length (cells_at d a.inline_data)
    → length a.inline_data ≡ inline_capacity
    → Holds (copy_to d vs a) vs
copied Storage.null vs a fits size room backed in_place = (
  record { room = room; backed = backed; in_place = in_place },
  take_none a.size [] (omega arith) ∙ sym (nothing vs (omega arith)),
)
copied Storage.inline vs a fits size room backed in_place =
    let same = length-copy_cells vs a.inline_data in
    (
      record { room = room; backed = omega (arith, same); in_place = omega (arith, same) },
      ap (λ n. take n (copy_cells vs a.inline_data)) size ∙ take-copy_cells vs a.inline_data fits,
    )
copied (Storage.buffer b) vs a fits size room backed in_place = (
  record { room = room; backed = omega (arith, length-copy_cells vs b); in_place = in_place },
  ap (λ n. take n (copy_cells vs b)) size ∙ take-copy_cells vs b fits,
)

pub double_until_total :
    (fuel cap min_cap : ℕ)
    → 0 < cap
    → 0 < fuel
    → min_cap < fuel + cap
    → (c : ℕ) × (double_until fuel cap min_cap ≡ some c) × (min_cap ≤ c)
unfolding double_until
double_until_total zero cap min_cap pos fuelled enough = absurd (omega arith)
double_until_total (suc fuel) cap min_cap pos fuelled enough = elim (Bool-cases (ltb cap min_cap)) [
  | inl more ↦
      let (c, eq, le) =
        double_until_total fuel (cap * 2) min_cap (omega arith) (omega (arith, ltb→lt _ _ more))
          (omega (arith, ltb→lt _ _ more)) in
      (c, rw more eq, le)
  | inr done ↦ (cap, rw done refl, ground arith)
]

module _ (has_memory : ℕ → Bool) (enough : (n : ℕ) → has_memory n ≡ true) where
  pub grow_to-Holds :
      (a : LpcArray) (new_cap : ℕ)
      → IsSound a
      → a.size ≤ new_cap
      → Holds (grow_to has_memory a new_cap) (contents a)
  unfolding grow_to
  grow_to-Holds a new_cap s le =
      elim (Bool-cases ((a.capacity == 0) && leb new_cap inline_capacity)) [
        | inl small ↦
            let none_there : a.size ≤ 0 = ground (arith, s.room) in
            let vs = take a.size (cells_at a.data_at blank) in
            let short : length vs ≡ a.size =
              ap length (take_none a.size _ none_there) ∙ omega arith in
            let (sound, same) =
              copied Storage.inline vs
                (record a { inline_data = blank; capacity = inline_capacity }) (omega arith)
                (omega arith) (omega arith) (omega arith) refl in
            rw small (
              sound,
              same ∙ take_none a.size _ none_there ∙ sym (take_none a.size (cells a) none_there),
            )
        | inr large ↦
            let vs = take a.size (cells a) in
            let short : length vs ≡ a.size =
              take_all a.size (cells a) (omega (arith, s.room, s.backed)) in
            let long = length-replicate {A = Value} new_cap (record { bits = 0 }) in
            rw (large, enough new_cap)
              (copied (Storage.buffer (replicate new_cap (record { bits = 0 }))) vs
                (record a { capacity = new_cap }) (omega (arith, short, long)) (omega arith) le
                (omega (arith, long)) s.in_place)
      ]

  pub size-grow_to : (a : LpcArray) (new_cap : ℕ) → (grow_to has_memory a new_cap).size ≡ a.size
  unfolding grow_to
  size-grow_to a new_cap = elim (Bool-cases ((a.capacity == 0) && leb new_cap inline_capacity)) [
    | inl small ↦ rw small refl
    | inr large ↦ rw (large, enough new_cap) refl
  ]

  pub capacity-grow_to :
      (a : LpcArray) (new_cap : ℕ) → new_cap ≤ (grow_to has_memory a new_cap).capacity
  unfolding grow_to
  capacity-grow_to a new_cap =
      elim (Bool-cases ((a.capacity == 0) && leb new_cap inline_capacity)) [
        | inl small ↦ rw small (ground arith)
        | inr large ↦ rw (large, enough new_cap) (omega arith)
      ]
