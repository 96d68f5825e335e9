-- ===== src/Heap/Holds.antt =====
-- The values that an entry of the heap holds, read from the pools of vm/include/vm/runtime/vm.h, and
-- that `MarkValue` of vm/src/runtime/vm_gc.cpp visits just those.
use lpc_interpreter.Prelude.{
  ℕ, zero, suc, ◌≡◌, refl, sym, subst, ap, ◌∙◌, ◌⊎◌, inl, inr, List, [], ◌∷◌, some, get_or,
  get_elem?,
}
use mathlib.Core.Option.{some-injective, none-ne-some}
use lpc_interpreter.Value.Word.{Value}
use lpc_interpreter.Heap.Pools.{
  LpcClosure, ClassInstance, LpcObject, Heap, Kind, Slot, entry_values, fields_at, globals_at,
  upvalues_at, refs,
}
use lpc_interpreter.Heap.Marked.{Among}

-- The value stands in the list.
abbrev pub StandsIn : Value → List Value → Type 0
StandsIn v xs = (j : ℕ) × (get_elem? xs j ≡ some v)

-- The value is a key or a value of the mapping.
abbrev pub IsKeyOrValue : Value → List (Value × Value) → Type 0
IsKeyOrValue v es =
    (j : ℕ) × (k : Value) × (w : Value) × (get_elem? es j ≡ some (k, w)) × ((v ≡ k) ⊎ (v ≡ w))

-- The entry of the slot holds the value: an element of an array, a key or a value of a mapping, a
-- field of a class instance, a global of an object, an upvalue of a closure.
abbrev pub Holds : Heap → Slot → Value → Type 0
Holds h (Kind.strings, i) v = ⊥
Holds h (Kind.arrays, i) v =
    (xs : List Value) × (get_elem? h.arrays.items i ≡ some xs) × StandsIn v xs
Holds h (Kind.mappings, i) v =
    (es : List (Value × Value)) × (get_elem? h.mappings.items i ≡ some es) × IsKeyOrValue v es
Holds h (Kind.classes, i) v =
    (c : ClassInstance) × (get_elem? h.classes.items i ≡ some c) × StandsIn v c.fields
Holds h (Kind.objects, i) v =
    (o : LpcObject) × (get_elem? h.objects.items i ≡ some o) × StandsIn v o.globals
Holds h (Kind.closures, i) v =
    (c : LpcClosure) × (get_elem? h.closures.items i ≡ some c) × StandsIn v c.upvalues
Holds h (Kind.boxed_ints, i) v = ⊥

pub Among-StandsIn : (v : Value) (xs : List Value) → Among v xs → StandsIn v xs
Among-StandsIn v [] a = absurd a
Among-StandsIn v (x ∷ xs) (inl e) = (0, ap some (sym e))
Among-StandsIn v (x ∷ xs) (inr a) = let (j, e) = Among-StandsIn v xs a in (suc j, e)

pub StandsIn-Among : (v : Value) (xs : List Value) → StandsIn v xs → Among v xs
StandsIn-Among v [] (j, e) = absurd (none-ne-some v e)
StandsIn-Among v (x ∷ xs) (zero, e) = inl (sym (some-injective x v e))
StandsIn-Among v (x ∷ xs) (suc j, e) = inr (StandsIn-Among v xs (j, e))

Among-IsKeyOrValue :
    (v : Value) (es : List (Value × Value)) → Among v (entry_values es) → IsKeyOrValue v es
unfolding entry_values
Among-IsKeyOrValue v [] a = absurd a
Among-IsKeyOrValue v ((k, w) ∷ es) (inl e) = (0, k, w, refl, inl e)
Among-IsKeyOrValue v ((k, w) ∷ es) (inr (inl e)) = (0, k, w, refl, inr e)
Among-IsKeyOrValue v ((k, w) ∷ es) (inr (inr a)) =
    let (j, k', w', read, e) = Among-IsKeyOrValue v es a in (suc j, k', w', read, e)

IsKeyOrValue-Among :
    (v : Value) (es : List (Value × Value)) → IsKeyOrValue v es → Among v (entry_values es)
unfolding entry_values
IsKeyOrValue-Among v [] (j, k, w, read, e) = absurd (none-ne-some (k, w) read)
IsKeyOrValue-Among v ((a, b) ∷ es) (zero, k, w, read, e) =
    let same = some-injective (a, b) (k, w) read in
    elim e [
      | inl is_key ↦ inl (is_key ∙ sym (ap (λ p. p.0) same))
      | inr is_value ↦ inr (inl (is_value ∙ sym (ap (λ p. p.1) same)))
    ]
IsKeyOrValue-Among v ((a, b) ∷ es) (suc j, k, w, read, e) =
    inr (inr (IsKeyOrValue-Among v es (j, k, w, read, e)))

-- A reading `at` of the values `of` the entry at an index.
module _ {A : Type 0} (of : A → List Value) (at : List A → ℕ → List Value)
    (past : (i : ℕ) → at [] i ≡ []) (first : (x : A) (xs : List A) → at (x ∷ xs) zero ≡ of x)
    (next : (x : A) (xs : List A) (i : ℕ) → at (x ∷ xs) (suc i) ≡ at xs i) where
  Among-entry :
      (xs : List A) (i : ℕ) (v : Value)
      → Among v (at xs i)
      → (x : A) × (get_elem? xs i ≡ some x) × Among v (of x)
  Among-entry [] i v a = absurd (subst (Among v) (past i) a)
  Among-entry (x ∷ xs) zero v a = (x, refl, subst (Among v) (first x xs) a)
  Among-entry (x ∷ xs) (suc i) v a = Among-entry xs i v (subst (Among v) (next x xs i) a)

  entry-Among :
      (xs : List A) (i : ℕ) (v : Value) (x : A)
      → get_elem? xs i ≡ some x
      → Among v (of x)
      → Among v (at xs i)
  entry-Among [] i v x e a = absurd (none-ne-some x e)
  entry-Among (y ∷ xs) zero v x e a =
      subst (Among v) (sym (first y xs))
        (subst (λ z. Among v (of z)) (sym (some-injective y x e)) a)
  entry-Among (y ∷ xs) (suc i) v x e a =
      subst (Among v) (sym (next y xs i)) (entry-Among xs i v x e a)

pub Among-Holds : (h : Heap) (s : Slot) (v : Value) → Among v (refs h s) → Holds h s v
unfolding refs fields_at globals_at upvalues_at entry_values
Among-Holds h (Kind.strings, i) v a = a
Among-Holds h (Kind.boxed_ints, i) v a = a
Among-Holds h (Kind.arrays, i) v a =
    let (x, read, b) =
      Among-entry (λ x. x) (λ xs i. get_or xs i []) (λ i. refl) (λ x xs. refl) (λ x xs i. refl)
        h.arrays.items i v a in
    (x, read, Among-StandsIn v x b)
Among-Holds h (Kind.mappings, i) v a =
    let (x, read, b) =
      Among-entry entry_values (λ xs i. entry_values (get_or xs i [])) (λ i. refl) (λ x xs. refl)
        (λ x xs i. refl) h.mappings.items i v a in
    (x, read, Among-IsKeyOrValue v x b)
Among-Holds h (Kind.classes, i) v a =
    let (x, read, b) =
      Among-entry (λ x. x.fields) fields_at (λ i. refl) (λ x xs. refl) (λ x xs i. refl)
        h.classes.items i v a in
    (x, read, Among-StandsIn v x.fields b)
Among-Holds h (Kind.objects, i) v a =
    let (x, read, b) =
      Among-entry (λ x. x.globals) globals_at (λ i. refl) (λ x xs. refl) (λ x xs i. refl)
        h.objects.items i v a in
    (x, read, Among-StandsIn v x.globals b)
Among-Holds h (Kind.closures, i) v a =
    let (x, read, b) =
      Among-entry (λ x. x.upvalues) upvalues_at (λ i. refl) (λ x xs. refl) (λ x xs i. refl)
        h.closures.items i v a in
    (x, read, Among-StandsIn v x.upvalues b)

pub Holds-Among : (h : Heap) (s : Slot) (v : Value) → Holds h s v → Among v (refs h s)
unfolding refs fields_at globals_at upvalues_at entry_values
Holds-Among h (Kind.strings, i) v a = a
Holds-Among h (Kind.boxed_ints, i) v a = a
Holds-Among h (Kind.arrays, i) v (x, read, b) =
    entry-Among (λ x. x) (λ xs i. get_or xs i []) (λ i. refl) (λ x xs. refl) (λ x xs i. refl)
      h.arrays.items i v x read (StandsIn-Among v x b)
Holds-Among h (Kind.mappings, i) v (x, read, b) =
    entry-Among entry_values (λ xs i. entry_values (get_or xs i [])) (λ i. refl) (λ x xs. refl)
      (λ x xs i. refl) h.mappings.items i v x read (IsKeyOrValue-Among v x b)
Holds-Among h (Kind.classes, i) v (x, read, b) =
    entry-Among (λ x. x.fields) fields_at (λ i. refl) (λ x xs. refl) (λ x xs i. refl)
      h.classes.items i v x read (StandsIn-Among v x.fields b)
Holds-Among h (Kind.objects, i) v (x, read, b) =
    entry-Among (λ x. x.globals) globals_at (λ i. refl) (λ x xs. refl) (λ x xs i. refl)
      h.objects.items i v x read (StandsIn-Among v x.globals b)
Holds-Among h (Kind.closures, i) v (x, read, b) =
    entry-Among (λ x. x.upvalues) upvalues_at (λ i. refl) (λ x xs. refl) (λ x xs i. refl)
      h.closures.items i v x read (StandsIn-Among v x.upvalues b)
