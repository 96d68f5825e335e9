-- ===== src/Chunk/Classes.antt =====
-- Classes are read back, with the index of their fields built anew.
use lpc_interpreter.Prelude.{
  ℕ, ◌%◌, ◌^◌, ◌<◌, ◌≤◌, ◌≡◌, ap, refl, List, [], ◌∷◌, ◌++◌, map, length, length-append, arith,
}
use mathlib.Core.List.{append_assoc}
use native.Mathlib.Nat.{mod-eq_of_lt}
use lpc_interpreter.Chunk.Reader.{Bytes, ok, read_many}
use lpc_interpreter.Chunk.Bytes.{write_u32, write_str, write_all, write_list, read_list}
use lpc_interpreter.Chunk.Tree.{FieldDefault}
use lpc_interpreter.Chunk.Default.{write_default}
use lpc_interpreter.Chunk.Records.{ClassInfo}
use lpc_interpreter.Chunk.Writer.{write_fields, write_class}
use lpc_interpreter.Chunk.Loader.{index_names, read_fields, names_of, defaults_of, read_class}
use lpc_interpreter.Chunk.Inverse.{All, IsU16, FitsStr, IsU16-Inverse, IsU32-Inverse, str-Inverse}
use lpc_interpreter.Chunk.Defaults.{FitsDefault, depth, default_inverse, depth-le-length}

-- Names with a default each.
pub data Fields : List Bytes → List FieldDefault → Type 0 where
  no_field : Fields [] []
  field :
      {n : Bytes} {d : FieldDefault} {ns : List Bytes} {defs : List FieldDefault}
      → FitsStr n
      → FitsDefault d
      → Fields ns defs
      → Fields (n ∷ ns) (d ∷ defs)

abbrev pub AllDeep : ℕ → List FieldDefault → Type 0
AllDeep fuel defs = All (λ d. depth d ≤ fuel) defs

AllDeep-mono : (defs : List FieldDefault) (m n : ℕ) → m ≤ n → AllDeep m defs → AllDeep n defs
AllDeep-mono [] m n le all = tt
AllDeep-mono (d ∷ defs) m n le (deep, all) = (omega arith, AllDeep-mono defs m n le all)

zip : List Bytes → List FieldDefault → List (Bytes × FieldDefault)
zip [] defs = []
zip (n ∷ ns) [] = []
zip (n ∷ ns) (d ∷ defs) = (n, d) ∷ zip ns defs

Fields-inverse :
    (fuel : ℕ) {ns : List Bytes} {defs : List FieldDefault}
    → Fields ns defs
    → AllDeep fuel defs
    → (rest : Bytes)
    → read_fields fuel (length ns) (write_fields ns defs ++ rest) ≡ ok (zip ns defs, rest)
unfolding read_fields read_many write_fields zip
Fields-inverse fuel no_field deep rest = refl
Fields-inverse fuel (field {n} {d} {ns} {defs} fits_n fits_d fs) (deep, all) rest = simp (
  append_assoc,
  str-Inverse n fits_n,
  default_inverse d fuel fits_d deep,
  Fields-inverse fuel fs all,
)

names_of-zip :
    {ns : List Bytes} {defs : List FieldDefault} → Fields ns defs → names_of (zip ns defs) ≡ ns
unfolding names_of zip
names_of-zip no_field = refl
names_of-zip (field {n} a b fs) = ap (λ l. n ∷ l) (names_of-zip fs)

defaults_of-zip :
    {ns : List Bytes} {defs : List FieldDefault} → Fields ns defs → defaults_of (zip ns defs) ≡ defs
unfolding defaults_of zip
defaults_of-zip no_field = refl
defaults_of-zip (field {d} a b fs) = ap (λ l. d ∷ l) (defaults_of-zip fs)

AllDeep-Fields :
    {ns : List Bytes} {defs : List FieldDefault}
    → Fields ns defs
    → AllDeep (length (write_fields ns defs)) defs
unfolding write_fields
AllDeep-Fields no_field = tt
AllDeep-Fields (field {n} {d} {ns} {defs} fits_n fits_d fs) =
    let bytes = length-append (write_str n) (write_default d ++ write_fields ns defs) in
    let more = length-append (write_default d) (write_fields ns defs) in
    (
      omega (arith, bytes, more, depth-le-length d),
      AllDeep-mono defs (length (write_fields ns defs)) _ (omega (arith, bytes, more))
          (AllDeep-Fields fs),
    )

-- A class that the format has room for, with a default for each field.
pub record FitsClass (c : ClassInfo) : Type 0 where
  pub name : FitsStr c.name
  pub nfields : IsU16 c.nfields
  pub parent : IsU16 c.parent_class_idx
  pub few : length c.field_names < 2 ^ 32
  pub fields : Fields c.field_names c.field_defaults

-- The class as it is loaded.
unfoldable pub restored_class : ClassInfo → ClassInfo
restored_class c = record c { field_name_index = index_names c.field_names 0 [] }

class_inverse :
    (fuel : ℕ) (c : ClassInfo)
    → FitsClass c
    → AllDeep fuel c.field_defaults
    → (rest : Bytes) → read_class fuel (write_class c ++ rest) ≡ ok (restored_class c, rest)
unfolding read_class write_class restored_class
class_inverse fuel c fits deep rest = simp (
  append_assoc,
  str-Inverse c.name fits.name,
  IsU16-Inverse c.nfields fits.nfields,
  IsU16-Inverse c.parent_class_idx fits.parent,
  mod-eq_of_lt fits.few,
  IsU32-Inverse (length c.field_names) fits.few,
  Fields-inverse fuel fits.fields deep,
  names_of-zip fits.fields,
  defaults_of-zip fits.fields,
)

class-le :
    (c : ClassInfo) → length (write_fields c.field_names c.field_defaults) ≤ length (write_class c)
unfolding write_class
class-le c = simp length-append (omega arith)

classes_inverse_from :
    (fuel : ℕ) (cs : List ClassInfo)
    → All FitsClass cs
    → length (write_all write_class cs) ≤ fuel
    → (rest : Bytes)
    → read_many (read_class fuel) (length cs) (write_all write_class cs ++ rest)
      ≡ ok (map restored_class cs, rest)
unfolding read_many write_all
classes_inverse_from fuel [] all enough rest = refl
classes_inverse_from fuel (c ∷ cs) (fits, all) enough rest =
    let bytes = length-append (write_class c) (write_all write_class cs) in
    let deep =
      AllDeep-mono c.field_defaults _ fuel (omega (arith, bytes, class-le c))
        (AllDeep-Fields fits.fields) in
    simp (
      append_assoc,
      class_inverse fuel c fits deep,
      classes_inverse_from fuel cs all (omega (arith, bytes)),
    )

pub classes_inverse :
    (fuel : ℕ) (cs : List ClassInfo)
    → length cs < 2 ^ 32
    → All FitsClass cs
    → length (write_list write_class cs) ≤ fuel
    → (rest : Bytes)
    → read_list (read_class fuel) (write_list write_class cs ++ rest)
      ≡ ok (map restored_class cs, rest)
unfolding read_list write_list
classes_inverse fuel cs few all enough rest =
    let bytes = length-append (write_u32 (length cs % 2 ^ 32)) (write_all write_class cs) in
    simp (
      append_assoc,
      mod-eq_of_lt few,
      IsU32-Inverse (length cs) few,
      classes_inverse_from fuel cs all (omega (arith, bytes)),
    )
