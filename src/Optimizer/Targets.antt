-- ===== src/Optimizer/Targets.antt =====
-- `BuildTargetMap` of compiler/src/frontend/mir_opt.cpp marks the targets of the jumps, and no more.
use lpc_interpreter.Prelude.{
  ℕ, zero, suc, ◌≡◌, refl, ◌∙◌, sym, ◌<◌, ◌⊎◌, inl, inr, Bool, true, false, some, List, [], ◌∷◌,
  length, get_elem?, ◌==◌, ==_iff, ap, subst, ◌↔◌, length-set, length-replicate, replicate,
  Bool-cases, arith,
}
use lpc_interpreter.Prelude.Int.{ℤ, pos, negsuc}
use lpc_interpreter.Mir.{MirInstr}
use lpc_interpreter.Optimizer.Base.{
  targets_a, targets_b, marked, mark_if, mark_all, build_target_map,
}
use lpc_interpreter.Optimizer.Marks.{
  marked-set_self, marked-set, marked-set_ne, not-marked-replicate,
}

-- The operand is a target, and it is point t.
abbrev Aims : Bool → ℤ → ℕ → Type 0
Aims b v t = (b ≡ true) × (v ≡ pos t)

-- The instruction names point t as a target.
abbrev pub Names : MirInstr → ℕ → Type 0
Names ins t = Aims (targets_a ins.op) ins.a t ⊎ Aims (targets_b ins.op) ins.b t

-- Some instruction of the code does.
abbrev pub Named : List MirInstr → ℕ → Type 0
Named code t = (i : ℕ) × (ins : MirInstr) × (get_elem? code i ≡ some ins) × Names ins t

mark_if-keeps :
    (b : Bool) (v : ℤ) (m : List Bool) (t : ℕ) → marked m t ≡ true → marked (mark_if b v m) t ≡ true
unfolding mark_if
mark_if-keeps true (pos k) m t h = marked-set m k t h
mark_if-keeps true (negsuc k) m t h = h
mark_if-keeps false v m t h = h

length-mark_if : (b : Bool) (v : ℤ) (m : List Bool) → length (mark_if b v m) ≡ length m
unfolding mark_if
length-mark_if true (pos k) m = length-set m k true
length-mark_if true (negsuc k) m = refl
length-mark_if false v m = refl

mark_if_self :
    (b : Bool) (v : ℤ) (m : List Bool) (t : ℕ)
    → Aims b v t
    → t < length m
    → marked (mark_if b v m) t ≡ true
unfolding mark_if
mark_if_self true (pos k) m t (_, e) lt =
    subst (λ z. marked (mark_if true z m) t ≡ true) (sym e) (marked-set_self m t lt)
mark_if_self true (negsuc k) m t (_, e) lt = cc
mark_if_self false v m t (h, _) lt = cc

mark_if-only :
    (b : Bool) (v : ℤ) (m : List Bool) (t : ℕ)
    → marked (mark_if b v m) t ≡ true
    → (marked m t ≡ true) ⊎ Aims b v t
unfolding mark_if
mark_if-only true (pos k) m t h = elim (Bool-cases (t == k)) [
  | inl same ↦ inr (refl, ap pos (sym ((==_iff t k).0 same)))
  | inr other ↦ inl (marked-set_ne m k t (ground arith) h)
]
mark_if-only true (negsuc k) m t h = inl h
mark_if-only false v m t h = inl h

module _ (m : List Bool) (ins : MirInstr) where
  abbrev mark_instr : List Bool
  mark_instr = mark_if (targets_b ins.op) ins.b (mark_if (targets_a ins.op) ins.a m)

  mark_instr-keeps : (t : ℕ) → marked m t ≡ true → marked mark_instr t ≡ true
  mark_instr-keeps t h =
      mark_if-keeps (targets_b ins.op) ins.b (mark_if (targets_a ins.op) ins.a m) t
        (mark_if-keeps (targets_a ins.op) ins.a m t h)

  length-mark_instr : length mark_instr ≡ length m
  length-mark_instr =
      length-mark_if (targets_b ins.op) ins.b (mark_if (targets_a ins.op) ins.a m)
      ∙ length-mark_if (targets_a ins.op) ins.a m

  mark_instr-Names : (t : ℕ) → Names ins t → t < length m → marked mark_instr t ≡ true
  mark_instr-Names t (inl aims) lt =
      mark_if-keeps (targets_b ins.op) ins.b (mark_if (targets_a ins.op) ins.a m) t
        (mark_if_self (targets_a ins.op) ins.a m t aims lt)
  mark_instr-Names t (inr aims) lt =
      mark_if_self (targets_b ins.op) ins.b (mark_if (targets_a ins.op) ins.a m) t aims
        (omega (arith, length-mark_if (targets_a ins.op) ins.a m))

  mark_instr-only : (t : ℕ) → marked mark_instr t ≡ true → (marked m t ≡ true) ⊎ Names ins t
  mark_instr-only t h =
      elim (mark_if-only (targets_b ins.op) ins.b (mark_if (targets_a ins.op) ins.a m) t h) [
        | inr aims ↦ inr (inr aims)
        | inl old ↦ elim (mark_if-only (targets_a ins.op) ins.a m t old) [
          | inl older ↦ inl older
          | inr aims ↦ inr (inl aims)
        ]
      ]

mark_all-keeps :
    (code : List MirInstr) (m : List Bool) (t : ℕ)
    → marked m t ≡ true
    → marked (mark_all code m) t ≡ true
unfolding mark_all
mark_all-keeps [] m t h = h
mark_all-keeps (ins ∷ rest) m t h =
    mark_all-keeps rest (mark_instr m ins) t (mark_instr-keeps m ins t h)

mark_all-Names :
    (code : List MirInstr) (m : List Bool) (t i : ℕ) (ins : MirInstr)
    → get_elem? code i ≡ some ins
    → Names ins t
    → t < length m
    → marked (mark_all code m) t ≡ true
unfolding mark_all
mark_all-Names [] m t i ins read names lt = cc
mark_all-Names (x ∷ rest) m t zero ins read names lt =
    let same : x ≡ ins = cc in
    mark_all-keeps rest (mark_instr m x) t
      (mark_instr-Names m x t (subst (λ y. Names y t) (sym same) names) lt)
mark_all-Names (x ∷ rest) m t (suc i) ins read names lt =
    mark_all-Names rest (mark_instr m x) t i ins read names (omega (arith, length-mark_instr m x))

mark_all-only :
    (code : List MirInstr) (m : List Bool) (t : ℕ)
    → marked (mark_all code m) t ≡ true
    → (marked m t ≡ true) ⊎ Named code t
unfolding mark_all
mark_all-only [] m t h = inl h
mark_all-only (x ∷ rest) m t h = elim (mark_all-only rest (mark_instr m x) t h) [
  | inr (i, ins, read, names) ↦ inr (suc i, ins, read, names)
  | inl old ↦ elim (mark_instr-only m x t old) [
    | inl older ↦ inl older
    | inr names ↦ inr (0, x, refl, names)
  ]
]

-- `BuildTargetMap` marks a point of the code exactly when some instruction names it as a target.
pub build_target_map_lem :
    (code : List MirInstr) (t : ℕ)
    → t < length code
    → (marked (build_target_map code) t ≡ true) ↔ Named code t
unfolding build_target_map
build_target_map_lem code t lt = (
  λ h. elim (mark_all-only code (replicate (length code) false) t h) [
    | inl never ↦ absurd (not-marked-replicate (length code) t never)
    | inr named ↦ named
  ],
  λ (i, ins, read, names).
      mark_all-Names code (replicate (length code) false) t i ins read names
        (omega (arith, length-replicate (length code) false)),
)
