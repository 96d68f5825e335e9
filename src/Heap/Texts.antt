-- ===== src/Heap/Texts.antt =====
-- The index of the texts of the heap, `string_intern_`, agrees with the pool.
use lpc_interpreter.Prelude.{
  ℕ, ◌-◌, ◌^◌, ◌<◌, ◌≡◌, ◌≢◌, ◌∙◌, refl, ap, sym, inl, inr, true, false, ◌==◌, ==_iff, List, [],
  ◌∷◌, none, some, length, get_or, Bool-cases,
}
use mathlib.Core.Option.{some-injective}
use lpc_interpreter.Verifier.Enqueue.{◌∈◌}
use lpc_interpreter.Value.Word.{Value}
use lpc_interpreter.Value.Handles.{make_heap_string_handle}
use lpc_interpreter.Value.Pools.{Handle, make, name, name-make}
use lpc_interpreter.Value.Boxing.{Distinct}
use lpc_interpreter.Chunk.Reader.{Bytes}
use lpc_interpreter.Heap.Pools.{StringPool}
use lpc_interpreter.Heap.Strings.{same_text, is_empty, find, erase}

abbrev pub text : StringPool → ℕ → Bytes
text p i = get_or p.texts i []

-- The index has the text of each slot in use, with the handle of the slot, and no other text; the
-- free list names the empty slots, each once.
pub record IsIndexed (p : StringPool) : Type 0 where
  pub few : length p.texts < 2 ^ 30
  pub empty : (i : ℕ) → i ∈ p.free → (i < length p.texts) × (text p i ≡ [])
  pub vacant : (i : ℕ) → i < length p.texts → text p i ≡ [] → i ∈ p.free
  pub distinct : Distinct p.free
  pub listed :
      (i : ℕ)
      → is_empty (text p i) ≡ false
      → find p.intern (text p i) ≡ some (make_heap_string_handle i)
  pub there :
      (s : Bytes) (v : Value)
      → find p.intern s ≡ some v
      → (i : ℕ) × (v ≡ make_heap_string_handle i)
        × (i < length p.texts)
        × (text p i ≡ s)
        × (is_empty s ≡ false)

pub same_text_refl : (s : Bytes) → same_text s s ≡ true
unfolding same_text
same_text_refl [] = refl
same_text_refl (b ∷ bs) = rw ((==_iff b b).1 refl) (same_text_refl bs)

pub same_text-eq : (s t : Bytes) → same_text s t ≡ true → s ≡ t
unfolding same_text
same_text-eq [] [] e = refl
same_text-eq [] (b ∷ bs) e = cc
same_text-eq (a ∷ l) [] e = cc
same_text-eq (a ∷ l) (b ∷ bs) e = elim (Bool-cases (a == b)) [
  | inl same ↦
      ap (λ x. x ∷ l) ((==_iff a b).0 same) ∙ ap (λ y. b ∷ y) (same_text-eq l bs (rw same at e))
  | inr other ↦ (let never : false ≡ true = rw other at e in cc)
]

pub find-erase_self : (es : List (Bytes × Value)) (s : Bytes) → find (erase es s) s ≡ none
unfolding find erase
find-erase_self [] s = refl
find-erase_self ((t, v) ∷ es) s = elim (Bool-cases (same_text t s)) [
  | inl same ↦ rw same (find-erase_self es s)
  | inr other ↦ rw other (rw other (find-erase_self es s))
]

pub find-erase_ne :
    (es : List (Bytes × Value)) (s u : Bytes) → s ≢ u → find (erase es s) u ≡ find es u
unfolding find erase
find-erase_ne [] s u ne = refl
find-erase_ne ((t, v) ∷ es) s u ne = elim (Bool-cases (same_text t s)) [
  | inl same ↦ elim (Bool-cases (same_text t u)) [
    | inl both ↦ absurd (ne (sym (same_text-eq t s same) ∙ same_text-eq t u both))
    | inr other ↦ rw (same, other) (find-erase_ne es s u ne)
  ]
  | inr off ↦ elim (Bool-cases (same_text t u)) [
    | inl here ↦ rw (off, here) refl
    | inr other ↦ rw (off, other) (find-erase_ne es s u ne)
  ]
]

-- Slots below the limit have different handles.
pub handle-injective :
    (i j : ℕ)
    → i < 2 ^ 30 - 1
    → j < 2 ^ 30 - 1
    → make_heap_string_handle i ≡ make_heap_string_handle j
    → i ≡ j
unfolding make
handle-injective i j fits_i fits_j e =
    let named : some (Handle.heap_string i) ≡ some (Handle.heap_string j) =
      sym (name-make (Handle.heap_string i) fits_i).0
      ∙ ap name e
      ∙ (name-make (Handle.heap_string j) fits_j).0 in
    ap index_of (some-injective _ _ named)
  where
    index_of : Handle → ℕ
    index_of (Handle.heap_string k) = k
    index_of _ = 0
