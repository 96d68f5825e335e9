-- ===== src/Heap/Allocating.antt =====
-- Allocation in vm/src/runtime/vm_alloc.cpp gives a slot that was not in use and leaves those in use.
use lpc_interpreter.Prelude.{
  ℕ, ◌≤◌, ◌<◌, ◌==◌, ==_iff, Bool-cases, true, set, ◌≡◌, ◌≢◌, ◌∙◌, ap, refl, sym, subst, false,
  List, [], ◌∷◌, ◌++◌, some, length, get_or, get_elem?, length-append, length-set,
  get_elem?-set_self, get_elem?-set_ne, inl, inr, arith,
}
use lpc_interpreter.Verifier.Enqueue.{◌∈◌}
use lpc_interpreter.Value.Boxing.{
  in_rest, Distinct, get_or-set_self, get_or-set_ne, get_or-append_left, get_or-append_last,
}
use lpc_interpreter.Heap.Pools.{Pool}
use lpc_interpreter.Heap.Slots.{allocate_with, allocate}
use lpc_interpreter.Heap.Sound.{IsSound, InUse, Keeps, get_elem?-append_left, get_elem?-append_last}

module _ {A : Type 0} where
  -- The pool q that has entry x at slot idx, which p did not use, and is otherwise p.
  pub record Allocated (p : Pool A) (x : A) (q : Pool A) (idx : ℕ) : Type 0 where
    pub sound : IsSound q
    pub bound : idx ≤ length p.items
    pub new : ¬ InUse p idx
    pub used : InUse q idx
    pub found : get_elem? q.items idx ≡ some x
    pub still : (j : ℕ) → InUse p j → Keeps p q j

  module _ (p : Pool A) (x : A) (s : IsSound p) where
    grow-Allocated : p.free ≡ [] → Allocated p x (allocate_with p x []).0 (length p.items)
    unfolding allocate_with
    grow-Allocated none_free =
        let grown = length-append p.items (x ∷ []) in
        let flag_left = λ (j : ℕ). get_or-append_left p.slot_free (false ∷ []) j false in
        record {
          sound = record {
            size = omega (arith, grown, s.size, length-append p.slot_free (false ∷ []));
            flagged = λ j m.
                let (lt, flag) = s.flagged j m in
                (omega (arith, grown), flag_left j (omega (arith, s.size)) ∙ flag);
            listed = λ j lt flag. elim (Bool-cases (j == length p.items)) [
              | inl end ↦
                  let e : j ≡ length p.slot_free = (==_iff _ _).0 end ∙ sym s.size in
                  let used : get_or (p.slot_free ++ false ∷ []) j false ≡ false =
                    ap (λ n. get_or (p.slot_free ++ false ∷ []) n false) e
                    ∙ get_or-append_last p.slot_free false false in
                  let never : true ≡ false = sym flag ∙ used in cc
              | inr before ↦
                  let below : j < length p.items = ground (arith, grown) in
                  s.listed j below (sym (flag_left j (omega (arith, s.size))) ∙ flag)
            ];
            distinct = s.distinct;
          };
          bound = omega arith;
          new = λ (lt, u). omega arith;
          used = (
            omega (arith, grown),
            ap (λ n. get_or (p.slot_free ++ false ∷ []) n false) (sym s.size)
                ∙ get_or-append_last p.slot_free false false,
          );
          found = get_elem?-append_last p.items x;
          still = λ j (lt, u). (
            (omega (arith, grown), flag_left j (omega (arith, s.size)) ∙ u),
            get_elem?-append_left p.items (x ∷ []) j lt,
          );
        }

    reuse-Allocated :
        (idx : ℕ) (rest : List ℕ)
        → p.free ≡ idx ∷ rest
        → Allocated p x (allocate_with p x (idx ∷ rest)).0 idx
    unfolding allocate_with
    reuse-Allocated idx rest some_free =
        let (lt, flag) = s.flagged idx (subst (λ l. idx ∈ l) (sym some_free) (inl refl)) in
        let once = subst Distinct some_free s.distinct in
        let kept = length-set p.items idx x in
        let below : idx < length p.slot_free = omega (arith, s.size) in
        record {
          sound = record {
            size = omega (arith, kept, s.size, length-set p.slot_free idx false);
            flagged = λ j m.
                let (below, marked_free) =
                  s.flagged j (subst (λ l. j ∈ l) (sym some_free) (inr m)) in
                let other : j ≢ idx = λ e. once.0 (subst (λ k. k ∈ rest) e m) in
                (
                  omega (arith, kept),
                  get_or-set_ne p.slot_free idx j false false other ∙ marked_free,
                );
            listed = λ j lt flag. elim (Bool-cases (j == idx)) [
              | inl here ↦
                  let e : j ≡ idx = (==_iff _ _).0 here in
                  let used : get_or (set p.slot_free idx false) j false ≡ false =
                    ap (λ n. get_or (set p.slot_free idx false) n false) e
                    ∙ get_or-set_self p.slot_free idx false false below in
                  let never : true ≡ false = sym flag ∙ used in cc
              | inr off ↦
                  let other : j ≢ idx = ground arith in
                  in_rest j idx rest other (
                    subst (λ l. j ∈ l) some_free
                      (s.listed j (omega (arith, kept))
                        (sym (get_or-set_ne p.slot_free idx j false false other) ∙ flag)))
            ];
            distinct = once.1;
          };
          bound = omega arith;
          new = λ (below, u). cc;
          used = (
            omega (arith, kept),
            get_or-set_self p.slot_free idx false false (omega (arith, s.size)),
          );
          found = get_elem?-set_self p.items idx x lt;
          still = λ j (below, u).
              let other : j ≢ idx = λ e. cc in
              (
                (omega (arith, kept), get_or-set_ne p.slot_free idx j false false other ∙ u),
                get_elem?-set_ne p.items x (λ e. other (sym e)),
              );
        }

  with-Allocated :
      (p : Pool A) (x : A) (l : List ℕ)
      → IsSound p
      → p.free ≡ l
      → Allocated p x (allocate_with p x l).0 (allocate_with p x l).1
  unfolding allocate_with
  with-Allocated p x [] s e = grow-Allocated p x s e
  with-Allocated p x (idx ∷ rest) s e = reuse-Allocated p x s idx rest e

  -- Allocation in a sound pool keeps it sound and puts the entry into a slot that was not in use;
  -- every slot in use stays in use with its entry.
  pub allocate-Allocated :
      (p : Pool A) (x : A) → IsSound p → Allocated p x (allocate p x).0 (allocate p x).1
  unfolding allocate
  allocate-Allocated p x s = with-Allocated p x p.free s refl
