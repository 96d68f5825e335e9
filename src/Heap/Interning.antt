-- ===== src/Heap/Interning.antt =====
-- `InternString` of vm/include/vm/runtime/vm.h and the loop over the texts in `Sweep` of
-- vm/src/runtime/vm_gc.cpp keep the index of the texts.
use lpc_interpreter.Prelude.{
  ==_iff, ℕ, zero, suc, ◌+◌, ◌≤◌, ◌<◌, ◌≡◌, ◌≢◌, ◌∙◌, refl, ap, sym, subst, inl, inr, Bool, true,
  false, ◌==◌, List, [], ◌∷◌, length, get_or, set, length-set, Bool-cases, arith,
}
use mathlib.Core.Option.{some-injective, none-ne-some}
use lpc_interpreter.Value.Boxing.{get_or-set_self, get_or-set_ne}
use lpc_interpreter.Chunk.Reader.{Bytes}
use lpc_interpreter.Heap.Pools.{StringPool}
use lpc_interpreter.Heap.Strings.{is_empty, find, erase, sweep_string, sweep_strings}
use lpc_interpreter.Heap.Texts.{text, IsIndexed, find-erase_self, find-erase_ne, handle-injective}
use lpc_interpreter.Value.Sweeping.{is_marked}

-- A text that is there stands below the end of the pool.
pub text-lt : (xs : List Bytes) (i : ℕ) → is_empty (get_or xs i []) ≡ false → i < length xs
unfolding is_empty
text-lt [] i e = cc
text-lt (x ∷ xs) zero e = omega arith
text-lt (x ∷ xs) (suc i) e = omega (arith, text-lt xs i e)

-- The pool q after the rounds for the slots of `done`, from pool p.
pub record SweptTexts (marks : List Bool) (done : ℕ → Type 0) (p q : StringPool) : Type 0 where
  pub indexed : IsIndexed q
  pub size : length q.texts ≡ length p.texts
  pub keeps : (j : ℕ) → is_marked marks j ≡ true → text q j ≡ text p j
  pub stays_empty : (j : ℕ) → text p j ≡ [] → text q j ≡ []
  pub empties : (j : ℕ) → done j → is_marked marks j ≡ false → text q j ≡ []

abbrev release : StringPool → ℕ → StringPool
release p i = record {
  texts = set p.texts i [];
  free = i ∷ p.free;
  intern = erase p.intern (text p i);
}

set-empty : (xs : List Bytes) (i j : ℕ) → get_or xs j [] ≡ [] → get_or (set xs i []) j [] ≡ []
set-empty [] i j e = e
set-empty (x ∷ xs) zero zero e = refl
set-empty (x ∷ xs) zero (suc j) e = e
set-empty (x ∷ xs) (suc i) zero e = e
set-empty (x ∷ xs) (suc i) (suc j) e = set-empty xs i j e

pub not_empty : {t : Bytes} → is_empty t ≡ false → t ≢ []
unfolding is_empty
not_empty {t} some_byte e = let never : true ≡ false = sym (ap is_empty e) ∙ some_byte in cc

is_empty-eq : (t : Bytes) → is_empty t ≡ true → t ≡ []
unfolding is_empty
is_empty-eq [] e = refl
is_empty-eq (b ∷ bs) e = cc

module _ (marks : List Bool) (p : StringPool) (s : IsIndexed p) (i : ℕ) where
  release-SweptTexts :
      is_marked marks i ≡ false
      → is_empty (text p i) ≡ false
      → SweptTexts marks (λ j. j ≡ i) p (release p i)
  release-SweptTexts unmarked used =
      let lt = text-lt p.texts i used in
      let kept = length-set p.texts i [] in
      let own : text (release p i) i ≡ [] = get_or-set_self p.texts i [] [] lt in
      let at_i : (j : ℕ) → j ≡ i → text (release p i) j ≡ [] =
        λ j e. subst (λ k. text (release p i) k ≡ []) (sym e) own in
      let other : (j : ℕ) → j ≢ i → text (release p i) j ≡ text p j =
        λ j ne. get_or-set_ne p.texts i j [] [] ne in
      record {
        indexed = record {
          few = omega (arith, kept, s.few);
          empty = λ j m. elim m [
            | inl e ↦ (omega (arith, kept, ap (λ k. k) e), at_i j e)
            | inr old ↦
                let (below, e) = s.empty j old in (omega (arith, kept), set-empty p.texts i j e)
          ];
          vacant = λ j below e. elim (Bool-cases (j == i)) [
            | inl here ↦ inl ((==_iff j i).0 here)
            | inr off ↦
                let ne : j ≢ i = ground arith in
                inr (s.vacant j (omega (arith, kept)) (sym (other j ne) ∙ e))
          ];
          distinct = (λ m. let (below, e) = s.empty i m in not_empty used e, s.distinct);
          listed = λ j some_text.
              let ne : j ≢ i = λ e. not_empty some_text (at_i j e) in
              let before : is_empty (text p j) ≡ false =
                sym (ap is_empty (other j ne)) ∙ some_text in
              let below = text-lt p.texts j before in
              let differ : text p i ≢ text p j = λ eq. ne (
                handle-injective j i (omega (arith, s.few)) (omega (arith, s.few)) (
                  some-injective _ _
                    (sym (s.listed j before) ∙ sym (ap (find p.intern) eq) ∙ s.listed i used))) in
              ap (find (erase p.intern (text p i))) (other j ne)
              ∙ find-erase_ne p.intern (text p i) (text p j) differ
              ∙ s.listed j before;
          there = λ u v found.
              let differ : text p i ≢ u = λ eq. none-ne-some v (
                sym (find-erase_self p.intern (text p i))
                ∙ ap (find (erase p.intern (text p i))) eq
                ∙ found) in
              let (k, handle, below, holds, some_byte) =
                s.there u v (sym (find-erase_ne p.intern (text p i) u differ) ∙ found) in
              let ne : k ≢ i = λ e. differ (ap (text p) (sym e) ∙ holds) in
              (k, handle, omega (arith, kept), other k ne ∙ holds, some_byte);
        };
        size = kept;
        keeps = λ j m. other j (λ e. cc);
        stays_empty = λ j e. set-empty p.texts i j e;
        empties = λ j e m. at_i j e;
      }

  leave-SweptTexts :
      ((is_marked marks i ≡ false) → text p i ≡ []) → SweptTexts marks (λ j. j ≡ i) p p
  leave-SweptTexts why = record {
    indexed = s;
    size = refl;
    keeps = λ j m. refl;
    stays_empty = λ j e. e;
    empties = λ j e m. subst (λ k. is_marked marks k ≡ false → text p k ≡ []) (sym e) why m;
  }

  sweep_string-SweptTexts : SweptTexts marks (λ j. j ≡ i) p (sweep_string marks i p)
  unfolding sweep_string
  sweep_string-SweptTexts = elim (Bool-cases (is_marked marks i)) [
    | inl marked ↦ rw marked (leave-SweptTexts (λ m. cc))
    | inr unmarked ↦ elim (Bool-cases (is_empty (text p i))) [
      | inl none_there ↦
          rw (unmarked, none_there) (leave-SweptTexts (λ m. is_empty-eq (text p i) none_there))
      | inr used ↦ rw (unmarked, used) (release-SweptTexts unmarked used)
    ]
  ]

SweptTexts-join :
    (marks : List Bool) (left i : ℕ) {p q r : StringPool}
    → SweptTexts marks (λ j. j ≡ i) p q
    → SweptTexts marks (λ j. (suc i ≤ j) × (j < suc i + left)) q r
    → SweptTexts marks (λ j. (i ≤ j) × (j < i + suc left)) p r
SweptTexts-join marks left i a b = record {
  indexed = b.indexed;
  size = b.size ∙ a.size;
  keeps = λ j m. b.keeps j m ∙ a.keeps j m;
  stays_empty = λ j e. b.stays_empty j (a.stays_empty j e);
  empties = λ j (lo, hi) m. elim (Bool-cases (j == i)) [
    | inl same ↦ b.stays_empty j (a.empties j ((==_iff j i).0 same) m)
    | inr other ↦ b.empties j (ground arith, omega arith) m
  ];
}

-- The rounds of the loop over a range of texts.
pub sweep_strings-SweptTexts :
    (marks : List Bool) (left i : ℕ) (p : StringPool)
    → IsIndexed p
    → SweptTexts marks (λ j. (i ≤ j) × (j < i + left)) p (sweep_strings marks left i p)
unfolding sweep_strings
sweep_strings-SweptTexts marks zero i p s = record {
  indexed = s;
  size = refl;
  keeps = λ j m. refl;
  stays_empty = λ j e. e;
  empties = λ j (lo, hi) m. absurd (omega arith);
}
sweep_strings-SweptTexts marks (suc left) i p s =
    let one = sweep_string-SweptTexts marks p s i in
    SweptTexts-join marks left i one
      (sweep_strings-SweptTexts marks left (suc i) (sweep_string marks i p) one.indexed)
