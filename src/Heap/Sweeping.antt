-- ===== src/Heap/Sweeping.antt =====
-- A loop of `Sweep` in vm/src/runtime/vm_gc.cpp frees what is not marked and leaves the rest.
use lpc_interpreter.Prelude.{
  ==_iff, ℕ, zero, suc, ◌+◌, ◌≤◌, ◌<◌, ◌≡◌, ◌≢◌, ◌∙◌, refl, sym, subst, Bool, true, false, List,
  ◌∷◌, ◌==◌, length, set, get_elem?, some, length-set, Bool-cases, inl, inr, arith,
}
use lpc_interpreter.Value.Sweeping.{is_marked}
use lpc_interpreter.Verifier.Enqueue.{◌∈◌}
use lpc_interpreter.Value.Boxing.{get_or-set_self, get_or-set_ne}
use lpc_interpreter.Heap.Pools.{Pool}
use lpc_interpreter.Heap.Slots.{update, sweep_slot, sweep_slots}
use lpc_interpreter.Heap.Sound.{
  is_free, IsSound, InUse, Keeps, length-update, get_elem?-update_self, get_elem?-update_ne,
}

module _ {A : Type 0} where
  -- The flag and the entry of slot j are the same in both pools.
  abbrev pub IsAsBefore : Pool A → Pool A → ℕ → Type 0
  IsAsBefore p q j = (is_free q j ≡ is_free p j) × (get_elem? q.items j ≡ get_elem? p.items j)

  -- The pool q after the rounds for the slots of `done`, from pool p.
  pub record Swept (clear : A → A) (marks : List Bool) (done : ℕ → Type 0) (p q : Pool A)
      : Type 0 where
    pub sound : IsSound q
    pub size : length q.items ≡ length p.items
    pub keeps : (j : ℕ) → is_marked marks j ≡ true → InUse p j → Keeps p q j
    pub stays_free : (j : ℕ) → is_free p j ≡ true → is_free q j ≡ true
    pub frees : (j : ℕ) → done j → is_marked marks j ≡ false → is_free q j ≡ true
    pub still_listed : (j : ℕ) → j ∈ p.free → j ∈ q.free
    pub given_back : (j : ℕ) → done j → j < length p.items → is_marked marks j ≡ false → j ∈ q.free
    pub untouched : (j : ℕ) → is_free p j ≡ true → get_elem? q.items j ≡ get_elem? p.items j
    pub others : (j : ℕ) → ¬ done j → IsAsBefore p q j
    pub clears :
        (j : ℕ) (x : A)
        → done j
        → is_marked marks j ≡ false
        → is_free p j ≡ false
        → get_elem? p.items j ≡ some x
        → get_elem? q.items j ≡ some (clear x)

  -- The pool with one more free slot.
  abbrev release : (A → A) → Pool A → ℕ → Pool A
  release clear p i = record {
    items = update clear p.items i;
    free = i ∷ p.free;
    slot_free = set p.slot_free i true;
  }

module _ {A : Type 0} (clear : A → A) (marks : List Bool) where
  module _ (p : Pool A) (s : IsSound p) (i : ℕ) (lt : i < length p.items) where
    release-Swept :
        is_marked marks i ≡ false
        → is_free p i ≡ false
        → Swept clear marks (λ j. j ≡ i) p (release clear p i)
    release-Swept unmarked used =
        let kept = length-update clear p.items i in
        let own : is_free (release clear p i) i ≡ true =
          get_or-set_self p.slot_free i true false (omega (arith, s.size)) in
        let others : (j : ℕ) → is_free p j ≡ true → is_free (release clear p i) j ≡ true = λ j flag.
          let other : j ≢ i = λ e. cc in get_or-set_ne p.slot_free i j true false other ∙ flag in
        record {
          sound = record {
            size = omega (arith, kept, s.size, length-set p.slot_free i true);
            flagged = λ j m. elim m [
              | inl e ↦ (
                omega (arith, kept),
                subst (λ k. is_free (release clear p i) k ≡ true) (sym e) own,
              )
              | inr old ↦
                  let (below, flag) = s.flagged j old in (omega (arith, kept), others j flag)
            ];
            listed = λ j below flag. elim (Bool-cases (j == i)) [
              | inl here ↦ inl ((==_iff j i).0 here)
              | inr off ↦
                  let other : j ≢ i = ground arith in
                  inr (
                    s.listed j (omega (arith, kept))
                      (sym (get_or-set_ne p.slot_free i j true false other) ∙ flag))
            ];
            distinct = (λ m. let (below, flag) = s.flagged i m in cc, s.distinct);
          };
          size = kept;
          keeps = λ j m (below, in_use).
              let other : j ≢ i = λ e. cc in
              (
                (omega (arith, kept), get_or-set_ne p.slot_free i j true false other ∙ in_use),
                get_elem?-update_ne clear p.items i j other,
              );
          stays_free = others;
          frees = λ j e m. subst (λ k. is_free (release clear p i) k ≡ true) (sym e) own;
          still_listed = λ j m. inr m;
          given_back = λ j e below m. inl e;
          untouched =
              λ j flag. let other : j ≢ i = λ e. cc in get_elem?-update_ne clear p.items i j other;
          others = λ j other. (
            get_or-set_ne p.slot_free i j true false other,
            get_elem?-update_ne clear p.items i j other,
          );
          clears = λ j x e m u read.
              subst
                (λ k.
                  get_elem? p.items k ≡ some x
                  → get_elem? (update clear p.items i) k ≡ some (clear x))
                (sym e) (get_elem?-update_self clear p.items i x) read;
        }

    leave-Swept :
        ((is_marked marks i ≡ false) → is_free p i ≡ true) → Swept clear marks (λ j. j ≡ i) p p
    leave-Swept why = record {
      sound = s;
      size = refl;
      keeps = λ j m u. (u, refl);
      stays_free = λ j flag. flag;
      frees = λ j e m. subst (λ k. is_marked marks k ≡ false → is_free p k ≡ true) (sym e) why m;
      still_listed = λ j m. m;
      given_back = λ j e below m.
          s.listed j below
            (subst (λ k. is_marked marks k ≡ false → is_free p k ≡ true) (sym e) why m);
      untouched = λ j flag. refl;
      others = λ j other. (refl, refl);
      clears = λ j x e m u read.
          let flag = subst (λ k. is_marked marks k ≡ false → is_free p k ≡ true) (sym e) why m in
          let never : true ≡ false = sym flag ∙ u in cc;
    }

    sweep_slot-Swept : Swept clear marks (λ j. j ≡ i) p (sweep_slot clear marks i p)
    unfolding sweep_slot
    sweep_slot-Swept = elim (Bool-cases (is_marked marks i)) [
      | inl marked ↦ rw marked (leave-Swept (λ m. cc))
      | inr unmarked ↦ elim (Bool-cases (is_free p i)) [
        | inl flag ↦ rw (unmarked, flag) (leave-Swept (λ m. flag))
        | inr used ↦ rw (unmarked, used) (release-Swept unmarked used)
      ]
    ]

  Swept-join :
      (left i : ℕ) {p q r : Pool A}
      → Swept clear marks (λ j. j ≡ i) p q
      → Swept clear marks (λ j. (suc i ≤ j) × (j < suc i + left)) q r
      → Swept clear marks (λ j. (i ≤ j) × (j < i + suc left)) p r
  Swept-join left i a b = record {
    sound = b.sound;
    size = b.size ∙ a.size;
    keeps = λ j m u.
        let (v, same) = a.keeps j m u in let (w, again) = b.keeps j m v in (w, again ∙ same);
    stays_free = λ j flag. b.stays_free j (a.stays_free j flag);
    frees = λ j (lo, hi) m. elim (Bool-cases (j == i)) [
      | inl same ↦ b.stays_free j (a.frees j ((==_iff j i).0 same) m)
      | inr other ↦ b.frees j (ground arith, omega arith) m
    ];
    still_listed = λ j m. b.still_listed j (a.still_listed j m);
    given_back = λ j (lo, hi) below m. elim (Bool-cases (j == i)) [
      | inl same ↦ b.still_listed j (a.given_back j ((==_iff j i).0 same) below m)
      | inr other ↦ b.given_back j (ground arith, omega arith) (omega (arith, a.size)) m
    ];
    untouched = λ j flag. b.untouched j (a.stays_free j flag) ∙ a.untouched j flag;
    others = λ j out.
        let (flag, item) = a.others j (λ e. out (omega arith, omega arith)) in
        let (flag', item') = b.others j (λ (lo, hi). out (omega arith, omega arith)) in
        (flag' ∙ flag, item' ∙ item);
    clears = λ j x (lo, hi) m u read. elim (Bool-cases (j == i)) [
      | inl same ↦
          let e = (==_iff j i).0 same in b.untouched j (a.frees j e m) ∙ a.clears j x e m u read
      | inr off ↦
          let (flag, item) = a.others j (ground arith) in
          b.clears j x (ground arith, omega arith) m (flag ∙ u) (item ∙ read)
    ];
  }

  -- The rounds of a loop of `Sweep` over a range of slots.
  pub sweep_slots-Swept :
      (left i : ℕ) (p : Pool A)
      → IsSound p
      → i + left ≤ length p.items
      → Swept clear marks (λ j. (i ≤ j) × (j < i + left)) p (sweep_slots clear marks left i p)
  unfolding sweep_slots
  sweep_slots-Swept zero i p s room = record {
    sound = s;
    size = refl;
    keeps = λ j m u. (u, refl);
    stays_free = λ j flag. flag;
    frees = λ j (lo, hi) m. absurd (omega arith);
    still_listed = λ j m. m;
    given_back = λ j (lo, hi) below m. absurd (omega arith);
    untouched = λ j flag. refl;
    others = λ j out. (refl, refl);
    clears = λ j x (lo, hi) m u read. absurd (omega arith);
  }
  sweep_slots-Swept (suc left) i p s room =
      let one = sweep_slot-Swept p s i (omega arith) in
      Swept-join left i one (
        sweep_slots-Swept left (suc i) (sweep_slot clear marks i p) one.sound
          (omega (arith, one.size)))
