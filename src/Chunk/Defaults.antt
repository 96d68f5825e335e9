-- ===== src/Chunk/Defaults.antt =====
-- Default values of class fields are read back, whatever their nesting.
use lpc_interpreter.Prelude.{
  ℕ, zero, suc, ◌%◌, ◌^◌, ◌<◌, ◌≤◌, ◌≡◌, refl, ◌++◌, length, length-append, arith,
}
use Prim.Native.Nat.{max}
use mathlib.Core.List.{append_assoc}
use native.Mathlib.Nat.{mod-eq_of_lt}
use lpc_interpreter.Chunk.Reader.{Bytes, ok}
use lpc_interpreter.Chunk.Bytes.{write_u8, write_u32, read_u8}
use lpc_interpreter.Chunk.Tree.{
  FieldDefault, Pairs, Items, int, float, string, mapping, array, no_pairs, pair, no_items, item,
}
use lpc_interpreter.Chunk.Default.{
  count_pairs, count_items, write_default, write_pairs, write_items, read_pairs, read_items,
  read_kind, read_default,
}
use lpc_interpreter.Chunk.Inverse.{
  IsI64, IsU64, FitsStr, IsI64-Inverse, f64-Inverse, str-Inverse, IsU32-Inverse,
}

abbrev mutual
  pub FitsDefault : FieldDefault → Type 0
  FitsDefault FieldDefault.zero = Unit
  FitsDefault (int v) = IsI64 v
  FitsDefault (float v) = IsU64 v
  FitsDefault (string s) = FitsStr s
  FitsDefault (mapping ps) = (count_pairs ps < 2 ^ 32) × FitsPairs ps
  FitsDefault (array xs) = (count_items xs < 2 ^ 32) × FitsItems xs

  pub FitsPairs : Pairs → Type 0
  FitsPairs no_pairs = Unit
  FitsPairs (pair k v ps) = FitsDefault k × FitsDefault v × FitsPairs ps

  pub FitsItems : Items → Type 0
  FitsItems no_items = Unit
  FitsItems (item v xs) = FitsDefault v × FitsItems xs

-- How deep the value is nested.
unfoldable mutual
  pub depth : FieldDefault → ℕ
  depth FieldDefault.zero = 1
  depth (int v) = 1
  depth (float v) = 1
  depth (string s) = 1
  depth (mapping ps) = suc (depth_pairs ps)
  depth (array xs) = suc (depth_items xs)

  pub depth_pairs : Pairs → ℕ
  depth_pairs no_pairs = 0
  depth_pairs (pair k v ps) = max (depth k) (max (depth v) (depth_pairs ps))

  pub depth_items : Items → ℕ
  depth_items no_items = 0
  depth_items (item v xs) = max (depth v) (depth_items xs)

mutual
  unfolding read_default write_default write_u8 read_u8 read_kind depth read_pairs read_items
      count_pairs count_items

  pub default_inverse :
      (d : FieldDefault) (fuel : ℕ)
      → FitsDefault d
      → depth d ≤ fuel
      → (rest : Bytes) → read_default fuel (write_default d ++ rest) ≡ ok (d, rest)
  default_inverse FieldDefault.zero zero fits enough rest = absurd (omega arith)
  default_inverse FieldDefault.zero (suc fuel) fits enough rest = refl
  default_inverse (int v) zero fits enough rest = absurd (omega arith)
  default_inverse (int v) (suc fuel) fits enough rest = rw (IsI64-Inverse v fits rest)
  default_inverse (float v) zero fits enough rest = absurd (omega arith)
  default_inverse (float v) (suc fuel) fits enough rest = rw (f64-Inverse v fits rest)
  default_inverse (string s) zero fits enough rest = absurd (omega arith)
  default_inverse (string s) (suc fuel) fits enough rest = rw (str-Inverse s fits rest)
  default_inverse (mapping ps) zero fits enough rest = absurd (omega arith)
  default_inverse (mapping ps) (suc fuel) (few, fits) enough rest =
      rw (mod-eq_of_lt few, append_assoc)
        (rw (
          IsU32-Inverse (count_pairs ps) few (write_pairs ps ++ rest),
          pairs_inverse ps fuel fits (omega arith) rest,
        ))
  default_inverse (array xs) zero fits enough rest = absurd (omega arith)
  default_inverse (array xs) (suc fuel) (few, fits) enough rest =
      rw (mod-eq_of_lt few, append_assoc)
        (rw (
          IsU32-Inverse (count_items xs) few (write_items xs ++ rest),
          items_inverse xs fuel fits (omega arith) rest,
        ))

  pub pairs_inverse :
      (ps : Pairs) (fuel : ℕ)
      → FitsPairs ps
      → depth_pairs ps ≤ fuel
      → (rest : Bytes)
      → read_pairs (read_default fuel) (count_pairs ps) (write_pairs ps ++ rest) ≡ ok (ps, rest)
  pairs_inverse no_pairs fuel fits enough rest = refl
  pairs_inverse (pair k v ps) fuel (fits_k, fits_v, fits) enough rest = simp (
    append_assoc,
    default_inverse k fuel fits_k (omega arith),
    default_inverse v fuel fits_v (omega arith),
    pairs_inverse ps fuel fits (omega arith),
  )

  pub items_inverse :
      (xs : Items) (fuel : ℕ)
      → FitsItems xs
      → depth_items xs ≤ fuel
      → (rest : Bytes)
      → read_items (read_default fuel) (count_items xs) (write_items xs ++ rest) ≡ ok (xs, rest)
  items_inverse no_items fuel fits enough rest = refl
  items_inverse (item v xs) fuel (fits_v, fits) enough rest = simp (
    append_assoc,
    default_inverse v fuel fits_v (omega arith),
    items_inverse xs fuel fits (omega arith),
  )

-- A value is not nested deeper than the bytes that it takes.
mutual
  unfolding write_default write_u8 depth

  pub depth-le-length : (d : FieldDefault) → depth d ≤ length (write_default d)
  depth-le-length FieldDefault.zero = omega arith
  depth-le-length (int v) = omega arith
  depth-le-length (float v) = omega arith
  depth-le-length (string s) = omega arith
  depth-le-length (mapping ps) = omega (
    arith,
    length-append (write_u32 (count_pairs ps % 2 ^ 32)) (write_pairs ps),
    depth_pairs-le-length ps,
  )
  depth-le-length (array xs) = omega (
    arith,
    length-append (write_u32 (count_items xs % 2 ^ 32)) (write_items xs),
    depth_items-le-length xs,
  )

  pub depth_pairs-le-length : (ps : Pairs) → depth_pairs ps ≤ length (write_pairs ps)
  depth_pairs-le-length no_pairs = omega arith
  depth_pairs-le-length (pair k v ps) = omega (
    arith,
    length-append (write_default k) (write_default v ++ write_pairs ps),
    length-append (write_default v) (write_pairs ps),
    depth-le-length k,
    depth-le-length v,
    depth_pairs-le-length ps,
  )

  pub depth_items-le-length : (xs : Items) → depth_items xs ≤ length (write_items xs)
  depth_items-le-length no_items = omega arith
  depth_items-le-length (item v xs) = omega (
    arith,
    length-append (write_default v) (write_items xs),
    depth-le-length v,
    depth_items-le-length xs,
  )
