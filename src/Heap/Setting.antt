-- ===== src/Heap/Setting.antt =====
-- One mark is set.
use lpc_interpreter.Prelude.{
  ℕ, zero, suc, ◌≤◌, ◌<◌, ◌≡◌, ◌≢◌, ◌∙◌, refl, ap, sym, subst, ◌⊎◌, inl, inr, Bool, true, false,
  List, [], ◌∷◌, ◌==◌, ==_iff, if◌then◌else◌, length, set, length-set, Bool-cases, arith,
}
use lpc_interpreter.Optimizer.Marks.{
  marked-set_self, marked-set, marked-set_ne, unmarked, unmarked-set,
}
use lpc_interpreter.Heap.Pools.{Heap, Kind, Slot, size}
use lpc_interpreter.Heap.Mark.{Marks, kind_index, has_mark, set_mark}
use lpc_interpreter.Heap.Marked.{On, Fits, Marked, Edge, unmarked_slots, here, via}

of_rank : ℕ → Kind
of_rank r =
    if r == 0
    then Kind.strings
    else if r == 1
    then Kind.arrays
    else if r == 2
    then Kind.mappings
    else if r == 3
    then Kind.classes
    else if r == 4
    then Kind.objects
    else if r == 5
    then Kind.closures
    else Kind.boxed_ints

of_rank-kind_index : (k : Kind) → of_rank (kind_index k) ≡ k
unfolding of_rank
of_rank-kind_index Kind.strings = refl
of_rank-kind_index Kind.arrays = refl
of_rank-kind_index Kind.mappings = refl
of_rank-kind_index Kind.classes = refl
of_rank-kind_index Kind.objects = refl
of_rank-kind_index Kind.closures = refl
of_rank-kind_index Kind.boxed_ints = refl

rank_injective : (k k' : Kind) → kind_index k ≡ kind_index k' → k ≡ k'
rank_injective k k' e = sym (of_rank-kind_index k) ∙ ap of_rank e ∙ of_rank-kind_index k'

same_rank : (k : Kind) → (kind_index k == kind_index k) ≡ true
same_rank k = (==_iff (kind_index k) (kind_index k)).1 refl

pub set_mark_self :
    (m : Marks) (k : Kind) (i : ℕ) → i < length (m k) → On (set_mark m (k, i)) (k, i)
unfolding has_mark set_mark
set_mark_self m k i lt = rw (same_rank k) (marked-set_self (m k) i lt)

pub set_mark-grows : (m : Marks) (s t : Slot) → On m t → On (set_mark m s) t
unfolding has_mark set_mark
set_mark-grows m (k, i) (k', j) on = elim (Bool-cases (kind_index k == kind_index k')) [
  | inl same ↦ rw same (marked-set (m k') i j on)
  | inr other ↦ rw other on
]

pair_eq : {k k' : Kind} {i j : ℕ} → k' ≡ k → j ≡ i → ◌≡◌ {A = Slot} (k', j) (k, i)
pair_eq {k' = k'} {i = i} e f = ap {B = Slot} (λ x. (k', x)) f ∙ ap {B = Slot} (λ x. (x, i)) e

test_ne : (j i : ℕ) → (j == i) ≡ false → j ≢ i
test_ne j i off e = ground arith

pub set_mark-cases : (m : Marks) (s t : Slot) → On (set_mark m s) t → On m t ⊎ (t ≡ s)
unfolding has_mark set_mark
set_mark-cases m (k, i) (k', j) on = elim (Bool-cases (kind_index k == kind_index k')) [
  | inl same ↦
      let e : k ≡ k' = rank_injective k k' ((==_iff _ _).0 same) in
      elim (Bool-cases (j == i)) [
        | inl at_i ↦ inr (pair_eq (sym e) ((==_iff j i).0 at_i))
        | inr off_i ↦ inl (marked-set_ne (m k') i j (λ eq. test_ne j i off_i eq) (rw same at on))
      ]
  | inr other ↦ inl (rw other at on)
]

pub set_mark-Fits : (h : Heap) (m : Marks) (s : Slot) → Fits h m → Fits h (set_mark m s)
unfolding set_mark
set_mark-Fits h m (k, i) fits k' = elim (Bool-cases (kind_index k == kind_index k')) [
  | inl same ↦ rw same (length-set (m k') i true ∙ fits k')
  | inr other ↦ rw other (fits k')
]

unmarked-set_le : (t : List Bool) (i : ℕ) → unmarked (set t i true) ≤ unmarked t
unfolding unmarked
unmarked-set_le [] i = omega arith
unmarked-set_le (true ∷ t) zero = omega arith
unmarked-set_le (false ∷ t) zero = omega arith
unmarked-set_le (true ∷ t) (suc i) = unmarked-set_le t i
unmarked-set_le (false ∷ t) (suc i) = omega (arith, unmarked-set_le t i)

pub unmarked-set_mark_le : (m : Marks) (s : Slot) → unmarked_slots (set_mark m s) ≤ unmarked_slots m
unfolding unmarked_slots set_mark
unmarked-set_mark_le m (Kind.strings, i) = omega (arith, unmarked-set_le (m Kind.strings) i)
unmarked-set_mark_le m (Kind.arrays, i) = omega (arith, unmarked-set_le (m Kind.arrays) i)
unmarked-set_mark_le m (Kind.mappings, i) = omega (arith, unmarked-set_le (m Kind.mappings) i)
unmarked-set_mark_le m (Kind.classes, i) = omega (arith, unmarked-set_le (m Kind.classes) i)
unmarked-set_mark_le m (Kind.objects, i) = omega (arith, unmarked-set_le (m Kind.objects) i)
unmarked-set_mark_le m (Kind.closures, i) = omega (arith, unmarked-set_le (m Kind.closures) i)
unmarked-set_mark_le m (Kind.boxed_ints, i) = omega (arith, unmarked-set_le (m Kind.boxed_ints) i)

-- A mark that was not set lowers the count.
pub unmarked-set_mark_lt :
    (m : Marks) (k : Kind) (i : ℕ)
    → has_mark m (k, i) ≡ false
    → i < length (m k)
    → unmarked_slots (set_mark m (k, i)) < unmarked_slots m
unfolding unmarked_slots set_mark has_mark
unmarked-set_mark_lt m Kind.strings i off lt = omega (arith, unmarked-set (m Kind.strings) i off lt)
unmarked-set_mark_lt m Kind.arrays i off lt = omega (arith, unmarked-set (m Kind.arrays) i off lt)
unmarked-set_mark_lt m Kind.mappings i off lt =
    omega (arith, unmarked-set (m Kind.mappings) i off lt)
unmarked-set_mark_lt m Kind.classes i off lt = omega (arith, unmarked-set (m Kind.classes) i off lt)
unmarked-set_mark_lt m Kind.objects i off lt = omega (arith, unmarked-set (m Kind.objects) i off lt)
unmarked-set_mark_lt m Kind.closures i off lt =
    omega (arith, unmarked-set (m Kind.closures) i off lt)
unmarked-set_mark_lt m Kind.boxed_ints i off lt =
    omega (arith, unmarked-set (m Kind.boxed_ints) i off lt)

-- Marks from the values of slot s, once s has its mark, are marks from s.
pub Marked-slot :
    (h : Heap) (m m' : Marks) (k : Kind) (i : ℕ)
    → Fits h m
    → i < size h k
    → Marked h (Edge h (k, i)) (set_mark m (k, i)) m'
    → Marked h (λ t. t ≡ (k, i)) m m'
Marked-slot h m m' k i fits lt a =
    let own : On m' (k, i) = a.grows (k, i) (set_mark_self m k i (omega (arith, fits k))) in
    record {
      roots = λ t e. subst (On m') (sym e) own;
      grows = λ t on. a.grows t (set_mark-grows m (k, i) t on);
      closed = λ t on. elim (a.closed t on) [
        | inl before ↦ elim (set_mark-cases m (k, i) t before) [
          | inl old ↦ inl old
          | inr e ↦ inr (λ u edge. a.roots u (subst (λ s. Edge h s u) e edge))
        ]
        | inr all ↦ inr all
      ];
      only = λ t on. elim (a.only t on) [
        | inl before ↦ elim (set_mark-cases m (k, i) t before) [
          | inl old ↦ inl old
          | inr e ↦ inr (t, e, here)
        ]
        | inr (r, edge, path) ↦ inr ((k, i), refl, via edge path)
      ];
      fewer = omega (arith, a.fewer, unmarked-set_mark_le m (k, i));
      fits = a.fits;
    }
