-- ===== src/Verifier/Invariant.antt =====
-- The invariant of the worklist loop: every point with a depth is queued, or its instruction
-- passed the tests and every edge out of it is in the table.
use lpc_interpreter.Prelude.{
  ℕ, suc, ◌≤◌, ◌<◌, ◌≡◌, refl, ◌⊎◌, inl, inr, ◌∙◌, subst, true, Option, none, some, List, [], ◌∷◌,
  length, get_elem?, arith,
}
use lpc_interpreter.Prelude.Int.{ℤ, pos}
use lpc_interpreter.Mir.{MirInstr, MirFunction, MirModule}
use lpc_interpreter.Verifier.Check.{check_op, transfer}
use lpc_interpreter.Verifier.Loop.{State, depth_at, op_edges, is_foreach_next}
use lpc_interpreter.Verifier.Depths.{Extends, depth_at-lt, depth_unique}
use lpc_interpreter.Verifier.Enqueue.{◌∈◌, Grows, budget, AllArrive, Arrives-Extends}

-- The tables of s stay in s', and no budget is gained.
pub record Later (s s' : State) : Type 0 where
  pub extends : Extends s.in_depth s'.in_depth
  pub size : length s'.in_depth ≡ length s.in_depth
  pub spent : budget s' ≤ budget s

pub Later-refl : (s : State) → Later s s
Later-refl s = record { extends = λ p d h. h; size = refl; spent = omega arith }

pub Later-trans : {s t u : State} → Later s t → Later t u → Later s u
Later-trans g h = record {
  extends = λ p d k. h.extends p d (g.extends p d k);
  size = h.size ∙ g.size;
  spent = omega (arith, g.spent, h.spent);
}

pub AllArrive-Extends :
    (n : ℕ) (D E : List (Option ℕ)) (es : List (ℤ × ℤ))
    → Extends D E
    → AllArrive n D es
    → AllArrive n E es
unfolding AllArrive
AllArrive-Extends n D E [] x h = tt
AllArrive-Extends n D E (e ∷ es) x h =
    (Arrives-Extends n D E e x h.0, AllArrive-Extends n D E es x h.1)

-- The edges of a block end, or the fall-through, are in the table.
unfoldable pub Leaves : ℕ → List (Option ℕ) → ℕ → ℕ → Option (List (ℤ × ℤ)) → Type 0
Leaves n D i d (some es) = AllArrive n D es
Leaves n D i d none = suc i < n → depth_at D (suc i) ≡ some d

Leaves-Extends :
    (n : ℕ) (D E : List (Option ℕ)) (i d : ℕ) (o : Option (List (ℤ × ℤ)))
    → Extends D E
    → Leaves n D i d o
    → Leaves n E i d o
unfolding Leaves
Leaves-Extends n D E i d (some es) x h = AllArrive-Extends n D E es x h
Leaves-Extends n D E i d none x h = λ lt. x (suc i) d (h lt)

module _ (m : MirModule) (f : MirFunction) where
  abbrev pub n : ℕ
  n = length f.code

  -- The instruction at point i passed its tests at depth d, and all that follows is in D.
  pub record Settled (D : List (Option ℕ)) (i d : ℕ) : Type 0 where
    pub ins : MirInstr
    pub read : get_elem? f.code i ≡ some ins
    pub checked : check_op m f n ins.op ins.a ins.b d ≡ none
    pub after : ℕ
    pub moved : transfer ins d ≡ pos after
    pub iterates : is_foreach_next ins.op ≡ true → 2 ≤ after
    pub leaves : Leaves n D i after (op_edges ins.op ins.a ins.b i after)

  pub Settled-Extends :
      (D E : List (Option ℕ)) (i d : ℕ) → Extends D E → Settled D i d → Settled E i d
  Settled-Extends D E i d x h = record {
    ins = h.ins;
    read = h.read;
    checked = h.checked;
    after = h.after;
    moved = h.moved;
    iterates = h.iterates;
    leaves = Leaves-Extends n D E i h.after _ x h.leaves;
  }

  -- `except` is the point that the walk stands at.
  pub record Inv (except : ℕ) (s : State) : Type 0 where
    pub size : length s.in_depth ≡ n
    pub covered :
        (p d : ℕ)
        → depth_at s.in_depth p ≡ some d
        → (p ∈ s.work) ⊎ ((p ≡ except) ⊎ Settled s.in_depth p d)

  pub record Done (s : State) : Type 0 where
    pub size : length s.in_depth ≡ n
    pub covered : (p d : ℕ) → depth_at s.in_depth p ≡ some d → (p ∈ s.work) ⊎ Settled s.in_depth p d

  -- A walk that stands at the end, or at a point without an instruction, is done.
  pub Inv-Done_end : (i : ℕ) (s : State) → n ≤ i → Inv i s → Done s
  Inv-Done_end i s le v = record {
    size = v.size;
    covered = λ p d k. elim (v.covered p d k) [
      | inl m ↦ inl m
      | inr (inl e) ↦ absurd (omega (arith, depth_at-lt s.in_depth p d k, v.size, e))
      | inr (inr t) ↦ inr t
    ];
  }

  pub Settled-same :
      (D E : List (Option ℕ)) (i d p e : ℕ)
      → depth_at D i ≡ some d
      → depth_at D p ≡ some e
      → p ≡ i
      → Settled E i d
      → Settled E p e
  Settled-same D E i d p e known old same t =
      rw same (subst (λ x. Settled E i x) (depth_unique D known old same) t)

  -- The block ends: the state grew, and the point is settled in the new table.
  pub Done-Grows :
      (i d : ℕ) (s s' : State)
      → Inv i s
      → depth_at s.in_depth i ≡ some d
      → Grows s s'
      → Settled s'.in_depth i d
      → Done s'
  Done-Grows i d s s' v known g t = record {
    size = g.size ∙ v.size;
    covered = λ p e k. elim (g.fresh p e k) [
      | inr m ↦ inl m
      | inl old ↦ elim (v.covered p e old) [
        | inl m ↦ inl (g.queued p m)
        | inr (inl same) ↦ inr (Settled-same s.in_depth s'.in_depth i d p e known old same t)
        | inr (inr u) ↦ inr (Settled-Extends s.in_depth s'.in_depth p e g.extends u)
      ]
    ];
  }
