-- ===== src/Value/Sweeping.antt =====
-- The loop of `Sweep` in vm/src/runtime/vm_gc.cpp over the pool of boxed integers frees what is not
-- marked and leaves the rest.
use lpc_interpreter.Prelude.{
  ==_iff, ℕ, zero, suc, ◌+◌, ◌≤◌, ◌<◌, ◌≡◌, ◌≢◌, ◌∙◌, refl, sym, subst, Bool, true, false, List,
  ◌∷◌, ◌==◌, length, get_or, set, length-set, Bool-cases, inl, inr, arith,
}
use lpc_interpreter.Prelude.Int.{pos}
use lpc_interpreter.Verifier.Enqueue.{◌∈◌}
use lpc_interpreter.Value.Boxes.{BoxedInts, unbox, sweep_box, sweep_boxes}
use lpc_interpreter.Value.Boxing.{
  IsSound, InUse, is_free, unbox-InUse, get_or-set_self, get_or-set_ne,
}

abbrev pub is_marked : List Bool → ℕ → Bool
is_marked marks j = get_or marks j false

-- The pool q after the rounds for the slots of `done`, from pool p.
pub record Swept (marks : List Bool) (done : ℕ → Type 0) (p q : BoxedInts) : Type 0 where
  pub sound : IsSound q
  pub size : length q.ints ≡ length p.ints
  pub keeps : (j : ℕ) → is_marked marks j ≡ true → InUse p j → InUse q j × (unbox q j ≡ unbox p j)
  pub stays_free : (j : ℕ) → is_free p j ≡ true → is_free q j ≡ true
  pub frees : (j : ℕ) → done j → is_marked marks j ≡ false → is_free q j ≡ true
  pub still_listed : (j : ℕ) → j ∈ p.free → j ∈ q.free
  pub given_back : (j : ℕ) → done j → j < length p.ints → is_marked marks j ≡ false → j ∈ q.free

-- The pool with one more free slot.
abbrev release : BoxedInts → ℕ → BoxedInts
release p i = record {
  ints = set p.ints i (pos 0);
  free = i ∷ p.free;
  slot_free = set p.slot_free i true;
}

module _ (marks : List Bool) (p : BoxedInts) (s : IsSound p) (i : ℕ) (lt : i < length p.ints) where
  release-Swept :
      is_marked marks i ≡ false → is_free p i ≡ false → Swept marks (λ j. j ≡ i) p (release p i)
  release-Swept unmarked used =
      let kept : length (set p.ints i (pos 0)) ≡ length p.ints = length-set p.ints i (pos 0) in
      let own : is_free (release p i) i ≡ true =
        get_or-set_self p.slot_free i true false (omega (arith, s.size)) in
      let others : (j : ℕ) → is_free p j ≡ true → is_free (release p i) j ≡ true = λ j flag.
        let other : j ≢ i = λ e. cc in get_or-set_ne p.slot_free i j true false other ∙ flag in
      record {
        sound = record {
          size = omega (arith, kept, s.size, length-set p.slot_free i true);
          flagged = λ j m. elim m [
            | inl e ↦ (omega (arith, kept), subst (λ k. is_free (release p i) k ≡ true) (sym e) own)
            | inr old ↦ let (below, flag) = s.flagged j old in (omega (arith, kept), others j flag)
          ];
          listed = λ j below flag. elim (Bool-cases (j == i)) [
            | inl here ↦ inl ((==_iff j i).0 here)
            | inr off ↦
                let other : j ≢ i = ground arith in
                inr (
                  s.listed j (omega (arith, kept))
                    (sym (get_or-set_ne p.slot_free i j true false other) ∙ flag))
          ];
          distinct = (λ m. let (below, flag) = s.flagged i m in cc, s.distinct);
        };
        size = kept;
        keeps = λ j m (below, in_use).
            let other : j ≢ i = λ e. cc in
            let u : InUse (release p i) j =
              (omega (arith, kept), get_or-set_ne p.slot_free i j true false other ∙ in_use) in
            (
              u,
              unbox-InUse _ _ u
                  ∙ get_or-set_ne p.ints i j (pos 0) (pos 0) other
                  ∙ sym (unbox-InUse p j (below, in_use)),
            );
        stays_free = others;
        frees = λ j e m. subst (λ k. is_free (release p i) k ≡ true) (sym e) own;
        still_listed = λ j m. inr m;
        given_back = λ j e below m. inl e;
      }

  leave-Swept : ((is_marked marks i ≡ false) → is_free p i ≡ true) → Swept marks (λ j. j ≡ i) p p
  leave-Swept why = record {
    sound = s;
    size = refl;
    keeps = λ j m u. (u, refl);
    stays_free = λ j flag. flag;
    frees = λ j e m. subst (λ k. is_marked marks k ≡ false → is_free p k ≡ true) (sym e) why m;
    still_listed = λ j m. m;
    given_back = λ j e below m.
        s.listed j below
          (subst (λ k. is_marked marks k ≡ false → is_free p k ≡ true) (sym e) why m);
  }

  sweep_box-Swept : Swept marks (λ j. j ≡ i) p (sweep_box marks i p)
  unfolding sweep_box
  sweep_box-Swept = elim (Bool-cases (is_marked marks i)) [
    | inl marked ↦ rw marked (leave-Swept (λ m. cc))
    | inr unmarked ↦ elim (Bool-cases (is_free p i)) [
      | inl flag ↦ rw (unmarked, flag) (leave-Swept (λ m. flag))
      | inr used ↦ rw (unmarked, used) (release-Swept unmarked used)
    ]
  ]

Swept-join :
    (marks : List Bool) (left i : ℕ) {p q r : BoxedInts}
    → Swept marks (λ j. j ≡ i) p q
    → Swept marks (λ j. (suc i ≤ j) × (j < suc i + left)) q r
    → Swept marks (λ j. (i ≤ j) × (j < i + suc left)) p r
Swept-join marks left i {p = p} {q = q} {r = r} a b = record {
  sound = b.sound;
  size = b.size ∙ a.size;
  keeps =
      λ j m u. let (v, same) = a.keeps j m u in let (w, again) = b.keeps j m v in (w, again ∙ same);
  stays_free = λ j flag. b.stays_free j (a.stays_free j flag);
  frees = λ j (lo, hi) m. elim (Bool-cases (j == i)) [
    | inl same ↦ b.stays_free j (a.frees j ((==_iff j i).0 same) m)
    | inr other ↦ b.frees j (ground arith, omega arith) m
  ];
  still_listed = λ j m. b.still_listed j (a.still_listed j m);
  given_back = λ j (lo, hi) below m. elim (Bool-cases (j == i)) [
    | inl same ↦ b.still_listed j (a.given_back j ((==_iff j i).0 same) below m)
    | inr other ↦ b.given_back j (ground arith, omega arith) (omega (arith, a.size)) m
  ];
}

-- The rounds of the loop of `Sweep` over a range of slots of a sound pool keep it sound, flag every
-- slot of the range that is not marked as free and have it in the free list, and leave every marked
-- integer in use with its value; what was in the free list stays there.
pub sweep_boxes-Swept :
    (marks : List Bool) (left i : ℕ) (p : BoxedInts)
    → IsSound p
    → i + left ≤ length p.ints
    → Swept marks (λ j. (i ≤ j) × (j < i + left)) p (sweep_boxes marks left i p)
unfolding sweep_boxes
sweep_boxes-Swept marks zero i p s room = record {
  sound = s;
  size = refl;
  keeps = λ j m u. (u, refl);
  stays_free = λ j flag. flag;
  frees = λ j (lo, hi) m. absurd (omega arith);
  still_listed = λ j m. m;
  given_back = λ j (lo, hi) below m. absurd (omega arith);
}
sweep_boxes-Swept marks (suc left) i p s room =
    let one = sweep_box-Swept marks p s i (omega arith) in
    Swept-join marks left i one (
      sweep_boxes-Swept marks left (suc i) (sweep_box marks i p) one.sound
        (omega (arith, one.size)))
