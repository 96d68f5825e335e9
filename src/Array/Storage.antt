-- ===== src/Array/Storage.antt =====
-- `LpcArray` of vm/include/vm/value/lpc_array.h and vm/src/value/lpc_array.cpp.
use lpc_interpreter.Prelude.{
  ℕ, zero, suc, ◌*◌, Bool, ◌&&◌, ◌==◌, List, [], ◌∷◌, Option, none, some, ltb, leb, if◌then◌else◌,
  length, set, take, replicate,
}
use lpc_interpreter.Optimizer.Base.{◌>>=◌}
use lpc_interpreter.Value.Word.{Value, nil_value}

-- What `data_` points to: nothing, `inline_data_`, or memory of its own.
pub data Storage : Type 0 where
  null inline : Storage
  buffer : List Value → Storage

pub record LpcArray : Type 0 where
  pub data_at : Storage
  pub size : ℕ
  pub capacity : ℕ
  pub inline_data : List Value

-- `kInlineCapacity`
abbrev pub inline_capacity : ℕ
inline_capacity = 8

-- Eight cells without a value.
abbrev pub blank : List Value
blank = replicate inline_capacity nil_value

-- The cells that `data_` points to.
abbrev pub cells_at : Storage → List Value → List Value
cells_at Storage.null inl = []
cells_at Storage.inline inl = inl
cells_at (Storage.buffer b) inl = b

abbrev pub cells : LpcArray → List Value
cells a = cells_at a.data_at a.inline_data

-- `std::memcpy` of the values to the first cells, and the loop that writes one value to n cells.
unfoldable pub copy_cells : List Value → List Value → List Value
copy_cells [] cs = cs
copy_cells (v ∷ vs) [] = []
copy_cells (v ∷ vs) (c ∷ cs) = v ∷ copy_cells vs cs

unfoldable pub fill_cells : ℕ → Value → List Value → List Value
fill_cells zero fill cs = cs
fill_cells (suc n) fill [] = []
fill_cells (suc n) fill (c ∷ cs) = fill ∷ fill_cells n fill cs

-- `data_[i] = v`; outside of the cells, or through a null pointer, it has no meaning.
abbrev pub write_at : Storage → LpcArray → ℕ → Value → LpcArray
write_at Storage.null a i v = record a { data_at = Storage.null }
write_at Storage.inline a i v = record a {
  data_at = Storage.inline;
  inline_data = set a.inline_data i v;
}
write_at (Storage.buffer b) a i v = record a { data_at = Storage.buffer (set b i v) }

unfoldable pub write : LpcArray → ℕ → Value → Option LpcArray
write a i v = if ltb i (length (cells a)) then some (write_at a.data_at a i v) else none

-- `data_` after a `memcpy` to its cells.
abbrev pub copy_to : Storage → List Value → LpcArray → LpcArray
copy_to Storage.null vs a = record a { data_at = Storage.null }
copy_to Storage.inline vs a = record a {
  data_at = Storage.inline;
  inline_data = copy_cells vs a.inline_data;
}
copy_to (Storage.buffer b) vs a = record a { data_at = Storage.buffer (copy_cells vs b) }

-- The default constructor.
abbrev pub empty_array : LpcArray
empty_array = record { data_at = Storage.null; size = 0; capacity = 0; inline_data = blank }

-- `ResetInlineData`.
unfoldable pub reset_inline_data : LpcArray → LpcArray
reset_inline_data a = record a { inline_data = blank }

-- `Clear`.
unfoldable pub clear_array : LpcArray → LpcArray
unfolding reset_inline_data
clear_array a = reset_inline_data (record a { data_at = Storage.null; size = 0; capacity = 0 })

-- The loop of `Grow`, with fuel.
unfoldable pub double_until : ℕ → ℕ → ℕ → Option ℕ
double_until zero cap min_cap = none
double_until (suc fuel) cap min_cap =
    let rest = double_until fuel (cap * 2) min_cap in if ltb cap min_cap then rest else some cap

-- The move constructor: the new array, and what is left of the other.
abbrev pub move_from : Storage → LpcArray → LpcArray × LpcArray
move_from Storage.inline other = (
  record {
    data_at = Storage.inline;
    size = other.size;
    capacity = inline_capacity;
    inline_data = copy_cells (take other.size other.inline_data) blank;
  },
  record other { size = 0; capacity = 0; inline_data = blank },
)
move_from d other = (
  record { data_at = d; size = other.size; capacity = other.capacity; inline_data = blank },
  record other { data_at = Storage.null; size = 0; capacity = 0 },
)

unfoldable pub move_array : LpcArray → LpcArray × LpcArray
move_array other = move_from other.data_at other

-- What follows takes from the platform whether there is memory for n values.
module _ (has_memory : ℕ → Bool) where
  -- `std::calloc`; a value of zero bits.
  abbrev pub calloc : ℕ → Storage
  calloc n =
      if has_memory n then Storage.buffer (replicate n (record { bits = 0 })) else Storage.null

  -- `LpcArray(n, fill)`.
  unfoldable pub make_array : ℕ → Value → LpcArray
  make_array n fill =
      if n == 0
      then empty_array
      else if leb n inline_capacity
      then record {
        data_at = Storage.inline;
        size = n;
        capacity = inline_capacity;
        inline_data = fill_cells n fill blank;
      }
      else record {
        data_at = elim (calloc n) [
          | Storage.buffer b ↦ Storage.buffer (fill_cells n fill b)
          | d ↦ d
        ];
        size = n;
        capacity = n;
        inline_data = blank;
      }

  -- `Grow`, once the new capacity is known. Only values that are there are copied.
  unfoldable pub grow_to : LpcArray → ℕ → LpcArray
  grow_to a new_cap =
      if (a.capacity == 0) && leb new_cap inline_capacity
      then (let b = record a { inline_data = blank } in
          copy_to Storage.inline (take b.size (cells b)) (record b { capacity = inline_capacity }))
      else copy_to (calloc new_cap) (take a.size (cells a)) (record a { capacity = new_cap })

  -- `Grow`.
  unfoldable pub grow : LpcArray → ℕ → Option LpcArray
  grow a min_cap = do
    new_cap ← double_until (suc min_cap) (if a.capacity == 0 then 8 else a.capacity) min_cap
    some (grow_to a new_cap)

  -- `PushBack`.
  unfoldable pub push_back : LpcArray → Value → Option LpcArray
  push_back a v = do
    b ← if leb a.capacity a.size then grow a (suc a.size) else some a
    c ← write b b.size v
    some (record c { size = suc c.size })

  -- `InitFromVector`.
  unfoldable pub init_from_vector : LpcArray → List Value → LpcArray
  init_from_vector a vec =
      let n = length vec in
      if n == 0
      then record a { data_at = Storage.null; size = 0; capacity = 0 }
      else if leb n inline_capacity
      then copy_to Storage.inline vec (record a { size = n; capacity = inline_capacity })
      else copy_to (calloc n) vec (record a { size = n; capacity = n })
