-- ===== src/Value/Boxing.antt =====
-- Integers of any size survive the boxing of vm/include/vm/runtime/vm.h, and those in use keep theirs.
use lpc_interpreter.Prelude.{
  ℕ, zero, suc, ◌+◌, ◌^◌, ◌<◌, ◌≡◌, ◌≢◌, ◌∙◌, ap, refl, sym, subst, Bool, true, false, List, [],
  ◌∷◌, ◌++◌, length, get_or, set, length-append, lt→ltb, length-set, Bool-cases, inl, inr, ==_iff,
  ◌==◌, arith,
}
use lpc_interpreter.Prelude.Int.{ℤ, pos, negsuc}
use lpc_interpreter.Verifier.Enqueue.{◌∈◌}
use lpc_interpreter.Value.Word.{ValueTag, Value, tag, boxed_int_idx, from_i64, from_boxed_int}
use lpc_interpreter.Value.Content.{FitsInline}
use lpc_interpreter.Value.Integers.{as_i64-from_i64}
use lpc_interpreter.Value.RoundTrip.{tag-from_i64, tag-from_boxed_int, boxed_int_idx-from_boxed_int}
use lpc_interpreter.Value.Boxes.{
  BoxedInts, is_inline, box_with, box_int, make_i64, unbox, get_as, get_i64,
}

module _ {ℓ} {A : Type ℓ} where
  pub get_or-set_self :
      (xs : List A) (i : ℕ) (v d : A) → i < length xs → get_or (set xs i v) i d ≡ v
  get_or-set_self [] i v d lt = elim lt [ ]
  get_or-set_self (x ∷ xs) zero v d lt = refl
  get_or-set_self (x ∷ xs) (suc i) v d lt = get_or-set_self xs i v d (omega arith)

  pub get_or-set_ne :
      (xs : List A) (i j : ℕ) (v d : A) → j ≢ i → get_or (set xs i v) j d ≡ get_or xs j d
  get_or-set_ne [] i j v d ne = refl
  get_or-set_ne (x ∷ xs) zero zero v d ne = absurd (ne refl)
  get_or-set_ne (x ∷ xs) zero (suc j) v d ne = refl
  get_or-set_ne (x ∷ xs) (suc i) zero v d ne = refl
  get_or-set_ne (x ∷ xs) (suc i) (suc j) v d ne = get_or-set_ne xs i j v d (omega arith)

  pub get_or-append_left :
      (xs ys : List A) (i : ℕ) (d : A) → i < length xs → get_or (xs ++ ys) i d ≡ get_or xs i d
  get_or-append_left [] ys i d lt = elim lt [ ]
  get_or-append_left (x ∷ xs) ys zero d lt = refl
  get_or-append_left (x ∷ xs) ys (suc i) d lt = get_or-append_left xs ys i d (omega arith)

  pub get_or-append_last : (xs : List A) (v d : A) → get_or (xs ++ v ∷ []) (length xs) d ≡ v
  get_or-append_last [] v d = refl
  get_or-append_last (x ∷ xs) v d = get_or-append_last xs v d

-- No entry twice.
abbrev pub Distinct : List ℕ → Type 0
Distinct [] = Unit
Distinct (i ∷ l) = ((i ∈ l) → ⊥) × Distinct l

abbrev pub is_free : BoxedInts → ℕ → Bool
is_free p i = get_or p.slot_free i false

-- The pool has a flag for each slot, and its free list names the slots that are flagged, each once.
pub record IsSound (p : BoxedInts) : Type 0 where
  pub size : length p.slot_free ≡ length p.ints
  pub flagged : (i : ℕ) → i ∈ p.free → (i < length p.ints) × (is_free p i ≡ true)
  pub listed : (i : ℕ) → i < length p.ints → is_free p i ≡ true → i ∈ p.free
  pub distinct : Distinct p.free

-- A slot in use: its number is in the pool and not flagged.
abbrev pub InUse : BoxedInts → ℕ → Type 0
InUse p i = (i < length p.ints) × (is_free p i ≡ false)

pub unbox-InUse : (p : BoxedInts) (i : ℕ) → InUse p i → unbox p i ≡ get_or p.ints i (pos 0)
unfolding unbox
unbox-InUse p i (lt, used) = rw (used, lt→ltb i (length p.ints) lt)

-- The pool q that has integer i at slot idx and is otherwise p.
pub record Boxed (p : BoxedInts) (i : ℤ) (q : BoxedInts) (idx : ℕ) : Type 0 where
  pub sound : IsSound q
  pub used : InUse q idx
  pub bound : idx < suc (length p.ints)
  pub found : unbox q idx ≡ i
  pub still : (j : ℕ) → InUse p j → InUse q j × (unbox q j ≡ unbox p j)

pub in_rest : (j i : ℕ) (rest : List ℕ) → j ≢ i → j ∈ i ∷ rest → j ∈ rest
in_rest j i rest other (inl e) = absurd (other e)
in_rest j i rest other (inr m) = m

module _ (p : BoxedInts) (i : ℤ) (s : IsSound p) where
  box_append : p.free ≡ [] → Boxed p i (box_with p i []).0 (length p.ints)
  unfolding box_with
  box_append none =
      let grown : length (p.ints ++ i ∷ []) ≡ length p.ints + 1 = length-append p.ints (i ∷ []) in
      let last : InUse (box_with p i []).0 (length p.ints) = (
        omega (arith, grown),
        ap (λ n. get_or (p.slot_free ++ false ∷ []) n false) (sym s.size)
            ∙ get_or-append_last p.slot_free false false,
      ) in
      record {
        sound = record {
          size = omega (arith, grown, s.size, length-append p.slot_free (false ∷ []));
          flagged = λ j m.
              let (lt, flag) = s.flagged j m in
              (
                omega (arith, grown),
                get_or-append_left p.slot_free (false ∷ []) j false (omega (arith, s.size)) ∙ flag,
              );
          listed = λ j lt flag. elim (Bool-cases (j == length p.ints)) [
            | inl end ↦
                let e : j ≡ length p.ints = (==_iff _ _).0 end in
                let used : is_free (box_with p i []).0 j ≡ false =
                  subst (λ k. is_free (box_with p i []).0 k ≡ false) (sym e) last.1 in
                let never : true ≡ false = sym flag ∙ used in cc
            | inr before ↦
                let below : j < length p.ints = ground (arith, grown) in
                s.listed j below (
                  sym (get_or-append_left p.slot_free (false ∷ []) j false (omega (arith, s.size)))
                  ∙ flag)
          ];
          distinct = s.distinct;
        };
        used = last;
        bound = omega arith;
        found = unbox-InUse _ _ last ∙ get_or-append_last p.ints i (pos 0);
        still = λ j (lt, used).
            let u : InUse (box_with p i []).0 j = (
              omega (arith, grown),
              get_or-append_left p.slot_free (false ∷ []) j false (omega (arith, s.size)) ∙ used,
            ) in
            (
              u,
              unbox-InUse _ _ u
                  ∙ get_or-append_left p.ints (i ∷ []) j (pos 0) lt
                  ∙ sym (unbox-InUse p j (lt, used)),
            );
      }

  box_reuse :
      (idx : ℕ) (rest : List ℕ) → p.free ≡ idx ∷ rest → Boxed p i (box_with p i (idx ∷ rest)).0 idx
  unfolding box_with
  box_reuse idx rest some_free =
      let member : idx ∈ p.free = subst (λ l. idx ∈ l) (sym some_free) (inl refl) in
      let (lt, flag) = s.flagged idx member in
      let once = subst Distinct some_free s.distinct in
      let kept : length (set p.ints idx i) ≡ length p.ints = length-set p.ints idx i in
      let own : InUse (box_with p i (idx ∷ rest)).0 idx = (
        omega (arith, kept),
        get_or-set_self p.slot_free idx false false (omega (arith, s.size)),
      ) in
      record {
        sound = record {
          size = omega (arith, kept, s.size, length-set p.slot_free idx false);
          flagged = λ j m.
              let (below, marked_free) = s.flagged j (subst (λ l. j ∈ l) (sym some_free) (inr m)) in
              let other : j ≢ idx = λ e. once.0 (subst (λ k. k ∈ rest) e m) in
              (
                omega (arith, kept),
                get_or-set_ne p.slot_free idx j false false other ∙ marked_free,
              );
          listed = λ j lt flag. elim (Bool-cases (j == idx)) [
            | inl here ↦
                let e : j ≡ idx = (==_iff _ _).0 here in
                let used : is_free (box_with p i (idx ∷ rest)).0 j ≡ false =
                  subst (λ k. is_free (box_with p i (idx ∷ rest)).0 k ≡ false) (sym e) own.1 in
                let never : true ≡ false = sym flag ∙ used in cc
            | inr off ↦
                let other : j ≢ idx = ground arith in
                in_rest j idx rest other (
                  subst (λ l. j ∈ l) some_free
                    (s.listed j (omega (arith, kept))
                      (sym (get_or-set_ne p.slot_free idx j false false other) ∙ flag)))
          ];
          distinct = once.1;
        };
        used = own;
        bound = omega arith;
        found = unbox-InUse _ _ own ∙ get_or-set_self p.ints idx i (pos 0) lt;
        still = λ j (below, used).
            let other : j ≢ idx = λ e. cc in
            let u : InUse (box_with p i (idx ∷ rest)).0 j =
              (omega (arith, kept), get_or-set_ne p.slot_free idx j false false other ∙ used) in
            (
              u,
              unbox-InUse _ _ u
                  ∙ get_or-set_ne p.ints idx j i (pos 0) other
                  ∙ sym (unbox-InUse p j (below, used)),
            );
      }

box_with-Boxed :
    (p : BoxedInts) (i : ℤ) (l : List ℕ)
    → IsSound p
    → p.free ≡ l
    → Boxed p i (box_with p i l).0 (box_with p i l).1
unfolding box_with
box_with-Boxed p i [] s e = box_append p i s e
box_with-Boxed p i (idx ∷ rest) s e = box_reuse p i s idx rest e

-- An integer in a word, or a number of a box in use.
abbrev pub IsLive : BoxedInts → Value → Type 0
IsLive p v = tag v ≡ ValueTag.boxed_int → InUse p (boxed_int_idx v)

-- The pool q and the value v that integer i is kept in, after pool p.
pub record Made (p : BoxedInts) (i : ℤ) (q : BoxedInts) (v : Value) : Type 0 where
  pub sound : IsSound q
  pub live : IsLive q v
  pub reads : get_i64 q v ≡ i
  pub still : (w : Value) → IsLive p w → IsLive q w × (get_i64 q w ≡ get_i64 p w)

int64-boxed_int : ValueTag.int64 ≢ ValueTag.boxed_int
int64-boxed_int e = cc

is_inline-FitsInline : (i : ℤ) → is_inline i ≡ true → FitsInline i
is_inline-FitsInline (pos n) h = ground arith
is_inline-FitsInline (negsuc n) h = ground arith

-- A word reads the same in both pools when every box in use does.
get_i64-still :
    (p q : BoxedInts) (w : Value)
    → ((j : ℕ) → InUse p j → InUse q j × (unbox q j ≡ unbox p j))
    → IsLive p w
    → get_i64 q w ≡ get_i64 p w
unfolding get_i64 get_as
get_i64-still p q w boxes live = go (tag w) refl
  where
    go : (t : ValueTag) → tag w ≡ t → get_as q w t ≡ get_as p w t
    go ValueTag.boxed_int e = (boxes (boxed_int_idx w) (live e)).1
    go _ e = refl

FitsInline-Made : (p : BoxedInts) (i : ℤ) → IsSound p → FitsInline i → Made p i p (from_i64 i)
unfolding get_i64 get_as
FitsInline-Made p i s fits = record {
  sound = s;
  live = λ e. absurd (int64-boxed_int (sym (tag-from_i64 i) ∙ e));
  reads = ap (get_as p (from_i64 i)) (tag-from_i64 i) ∙ as_i64-from_i64 i fits;
  still = λ w live. (live, refl);
}

Boxed-Made :
    (p q : BoxedInts) (i : ℤ) (idx : ℕ)
    → Boxed p i q idx
    → suc (length p.ints) < 2 ^ 47
    → Made p i q (from_boxed_int idx)
unfolding get_i64 get_as
Boxed-Made p q i idx b room =
    let fits : idx < 2 ^ 47 = omega (arith, b.bound) in
    let same = boxed_int_idx-from_boxed_int idx fits in
    record {
      sound = b.sound;
      live = λ e. subst (InUse q) (sym same) b.used;
      reads =
          ap (get_as q (from_boxed_int idx)) (tag-from_boxed_int idx fits)
          ∙ ap (unbox q) same
          ∙ b.found;
      still =
          λ w live. (λ e. (b.still (boxed_int_idx w) (live e)).0, get_i64-still p q w b.still live);
    }

-- `MakeI64` keeps the pool sound and gives a value that `GetI64` reads as the integer, whatever its
-- size, and every value that was live before stays live and is read as before; the pool has fewer
-- than 2^47 slots.
pub make_i64-Made :
    (p : BoxedInts) (i : ℤ)
    → IsSound p
    → suc (length p.ints) < 2 ^ 47
    → Made p i (make_i64 p i).0 (make_i64 p i).1
unfolding make_i64 box_int
make_i64-Made p i s room = elim (Bool-cases (is_inline i)) [
  | inl small ↦ rw small (FitsInline-Made p i s (is_inline-FitsInline i small))
  | inr large ↦ rw large (
      Boxed-Made p (box_with p i p.free).0 i (box_with p i p.free).1
        (box_with-Boxed p i p.free s refl) room)
]
