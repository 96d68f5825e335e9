-- ===== src/Heap/Sound.antt =====
-- A sound pool: the free list and the flags agree.
use lpc_interpreter.Prelude.{
  ℕ, zero, suc, ◌<◌, ◌≡◌, ◌≢◌, refl, ap, Bool, true, false, List, [], ◌∷◌, ◌++◌, some, length,
  get_or, get_elem?, arith,
}
use lpc_interpreter.Verifier.Enqueue.{◌∈◌}
use lpc_interpreter.Value.Boxing.{Distinct}
use lpc_interpreter.Heap.Pools.{Pool}
use lpc_interpreter.Heap.Slots.{update}

module _ {A : Type 0} where
  abbrev pub is_free : Pool A → ℕ → Bool
  is_free p i = get_or p.slot_free i false

  -- There is a flag for each slot, and the free list names the slots that are flagged, each once.
  pub record IsSound (p : Pool A) : Type 0 where
    pub size : length p.slot_free ≡ length p.items
    pub flagged : (i : ℕ) → i ∈ p.free → (i < length p.items) × (is_free p i ≡ true)
    pub listed : (i : ℕ) → i < length p.items → is_free p i ≡ true → i ∈ p.free
    pub distinct : Distinct p.free

  -- A slot of the pool that is not flagged.
  abbrev pub InUse : Pool A → ℕ → Type 0
  InUse p i = (i < length p.items) × (is_free p i ≡ false)

  -- Slot j is in use in q with the entry that it has in p.
  abbrev pub Keeps : Pool A → Pool A → ℕ → Type 0
  Keeps p q j = InUse q j × (get_elem? q.items j ≡ get_elem? p.items j)

module _ {ℓ} {A : Type ℓ} where
  pub length-update : (f : A → A) (xs : List A) (i : ℕ) → length (update f xs i) ≡ length xs
  unfolding update
  length-update f [] i = refl
  length-update f (x ∷ xs) zero = refl
  length-update f (x ∷ xs) (suc i) = ap suc (length-update f xs i)

  pub get_elem?-update_ne :
      (f : A → A) (xs : List A) (i j : ℕ) → j ≢ i → get_elem? (update f xs i) j ≡ get_elem? xs j
  unfolding update
  get_elem?-update_ne f [] i j ne = refl
  get_elem?-update_ne f (x ∷ xs) zero zero ne = absurd (ne refl)
  get_elem?-update_ne f (x ∷ xs) zero (suc j) ne = refl
  get_elem?-update_ne f (x ∷ xs) (suc i) zero ne = refl
  get_elem?-update_ne f (x ∷ xs) (suc i) (suc j) ne = get_elem?-update_ne f xs i j (omega arith)

  pub get_elem?-update_self :
      (f : A → A) (xs : List A) (i : ℕ) (x : A)
      → get_elem? xs i ≡ some x
      → get_elem? (update f xs i) i ≡ some (f x)
  unfolding update
  get_elem?-update_self f [] i x e = cc
  get_elem?-update_self f (y ∷ xs) zero x e = cc
  get_elem?-update_self f (y ∷ xs) (suc i) x e = get_elem?-update_self f xs i x e

  pub get_elem?-append_left :
      (xs ys : List A) (i : ℕ) → i < length xs → get_elem? (xs ++ ys) i ≡ get_elem? xs i
  get_elem?-append_left [] ys i lt = elim lt [ ]
  get_elem?-append_left (x ∷ xs) ys zero lt = refl
  get_elem?-append_left (x ∷ xs) ys (suc i) lt = get_elem?-append_left xs ys i (omega arith)

  pub get_elem?-append_last : (xs : List A) (v : A) → get_elem? (xs ++ v ∷ []) (length xs) ≡ some v
  get_elem?-append_last [] v = refl
  get_elem?-append_last (x ∷ xs) v = get_elem?-append_last xs v
