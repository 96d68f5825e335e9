-- ===== src/Verifier/Enqueue.antt =====
-- What `enqueue` does to the state: the edge is recorded, known depths stay, and a point that
-- becomes known is queued.
use lpc_interpreter.Prelude.{
  ℕ, ◌+◌, ◌≤◌, ◌<◌, ◌≡◌, refl, ◌⊎◌, inl, inr, ◌∙◌, Option, none, some, List, [], ◌∷◌, ◌++◌, length,
  length-append, set, length-set, ◌==◌, leb, if◌then◌else◌, arith, Option-cases, Bool-cases,
}
use native.Mathlib.Decide.{ℕ_discrete}
use lpc_interpreter.Prelude.Int.{ℤ, pos, negsuc}
use lpc_interpreter.Verifier.Loop.{
  State, Step, next, fail, ◌>>=◌, depth_at, enqueue_point, enqueue, enqueue_all,
}
use lpc_interpreter.Verifier.Depths.{
  Extends, depth_at-set_self, Extends-set, known-set, unset, unset-set,
}

infix 40 ◌∈◌
abbrev pub ◌∈◌ : ℕ → List ℕ → Type 0
p ∈ [] = ⊥
p ∈ q ∷ l = (p ≡ q) ⊎ (p ∈ l)

pub mem-append_left : (p : ℕ) (l k : List ℕ) → p ∈ l → p ∈ (l ++ k)
mem-append_left p [] k h = elim h [ ]
mem-append_left p (q ∷ l) k (inl e) = inl e
mem-append_left p (q ∷ l) k (inr m) = inr (mem-append_left p l k m)

pub mem-append_last : (p : ℕ) (l : List ℕ) → p ∈ (l ++ p ∷ [])
mem-append_last p [] = inl refl
mem-append_last p (q ∷ l) = inr (mem-append_last p l)

-- Queued points and points not yet known: what the loop uses up.
unfoldable pub budget : State → ℕ
budget s = length s.work + unset s.in_depth

-- From s to s' the tables only grow, and what becomes known is queued.
pub record Grows (s s' : State) : Type 0 where
  pub extends : Extends s.in_depth s'.in_depth
  pub size : length s'.in_depth ≡ length s.in_depth
  pub fresh :
      (p d : ℕ) → depth_at s'.in_depth p ≡ some d → (depth_at s.in_depth p ≡ some d) ⊎ (p ∈ s'.work)
  pub queued : (p : ℕ) → p ∈ s.work → p ∈ s'.work
  pub spent : budget s' ≤ budget s

pub Grows-refl : (s : State) → Grows s s
Grows-refl s = record {
  extends = λ p d h. h;
  size = refl;
  fresh = λ p d h. inl h;
  queued = λ p h. h;
  spent = omega arith;
}

pub Grows-trans : {s t u : State} → Grows s t → Grows t u → Grows s u
Grows-trans g h = record {
  extends = λ p d k. h.extends p d (g.extends p d k);
  size = h.size ∙ g.size;
  fresh = λ p d k. elim (h.fresh p d k) [
    | inl old ↦ elim (g.fresh p d old) [ inl o ↦ inl o | inr m ↦ inr (h.queued p m) ]
    | inr m ↦ inr m
  ];
  queued = λ p m. h.queued p (g.queued p m);
  spent = omega (arith, g.spent, h.spent);
}

-- The edge ends at n, or at a point that is known with the depth of the edge.
abbrev pub Arrives : ℕ → List (Option ℕ) → ℤ × ℤ → Type 0
Arrives n D (t, e) =
    (k : ℕ) × (d : ℕ) × (t ≡ pos k) × (e ≡ pos d) × (k ≤ n) × (k < n → depth_at D k ≡ some d)

unfoldable pub AllArrive : ℕ → List (Option ℕ) → List (ℤ × ℤ) → Type 0
AllArrive n D [] = Unit
AllArrive n D (e ∷ es) = Arrives n D e × AllArrive n D es

Grows-push :
    (s : State) (t d : ℕ)
    → t < length s.in_depth
    → depth_at s.in_depth t ≡ none
    → Grows s (record s { in_depth = set s.in_depth t (some d); work = s.work ++ t ∷ [] })
unfolding budget
Grows-push s t d lt h = record {
  extends = Extends-set s.in_depth t d h;
  size = length-set s.in_depth t (some d);
  fresh = λ p e k. elim (ℕ_discrete p t) [
    | yes same ↦ inr (rw same (mem-append_last t s.work))
    | no other ↦ inl (known-set s.in_depth t d p e k other)
  ];
  queued = λ p m. mem-append_left p s.work (t ∷ []) m;
  spent = omega (arith, length-append s.work (t ∷ []), unset-set s.in_depth t d h lt);
}

-- The post-condition of a step that does not fail.
abbrev pub Ensures {ℓ} : (State → Type ℓ) → Step → Type ℓ
Ensures P (next s) = P s
Ensures P (fail message i) = Unit

pub Ensures-bind :
    (P Q : State → Type 0) (m : Step) (k : State → Step)
    → Ensures P m
    → ((s : State) → P s → Ensures Q (k s))
    → Ensures Q (m >>= k)
Ensures-bind P Q (next s) k h g = g s h
Ensures-bind P Q (fail message i) k h g = tt

pub Ensures-map :
    (P Q : State → Type 0) (m : Step) → ((s : State) → P s → Q s) → Ensures P m → Ensures Q m
Ensures-map P Q (next s) g h = g s h
Ensures-map P Q (fail message i) g h = tt

enqueue_point_lem :
    (s : State) (t d from : ℕ)
    → t < length s.in_depth
    → Ensures (λ s'. Grows s s' × (depth_at s'.in_depth t ≡ some d)) (enqueue_point s t d from)
unfolding enqueue_point
enqueue_point_lem s t d from lt = elim (Option-cases (depth_at s.in_depth t)) [
  | inl e ↦ rw (e, enqueue_point) (Grows-push s t d lt e, depth_at-set_self s.in_depth t d lt)
  | inr (c, e) ↦ rw (e, enqueue_point) (same c e)
]
  where
    same :
        (c : ℕ)
        → depth_at s.in_depth t ≡ some c
        → Ensures
            (λ s'. Grows s s' × (depth_at s'.in_depth t ≡ some d))
            (if c == d then next s else fail "inconsistent stack depth at control-flow join" from)
    same c e = elim (Bool-cases (c == d)) [
      | inl k ↦ rw k (Grows-refl s, ground arith)
      | inr k ↦ rw k tt
    ]

pub enqueue_lem :
    (n : ℕ) (t d : ℤ) (from : ℕ) (s : State)
    → length s.in_depth ≡ n
    → Ensures (λ s'. Grows s s' × Arrives n s'.in_depth (t, d)) (enqueue n t d from s)
unfolding enqueue
enqueue_lem n (negsuc t) d from s size = tt
enqueue_lem n (pos t) (negsuc d) from s size = elim (Bool-cases (leb t n)) [
  | inl e ↦ rw e tt
  | inr e ↦ rw e tt
]
enqueue_lem n (pos t) (pos d) from s size = elim (Bool-cases (leb t n)) [
  | inl e ↦ rw e (elim (Bool-cases (t == n)) [
    | inl k ↦ rw k (Grows-refl s, (t, d, refl, refl, ground arith, λ lt. absurd (ground arith)))
    | inr k ↦ rw k (
        Ensures-map _ _ (enqueue_point s t d from)
          (λ s' (g, known). (g, (t, d, refl, refl, ground arith, λ lt. known)))
          (enqueue_point_lem s t d from (ground arith)))
  ])
  | inr e ↦ rw e tt
]

-- What an edge arrives at stays as the table grows.
pub Arrives-Extends :
    (n : ℕ) (D E : List (Option ℕ)) (e : ℤ × ℤ) → Extends D E → Arrives n D e → Arrives n E e
Arrives-Extends n D E (t, e) x (k, d, p, q, le, h) = (k, d, p, q, le, λ lt. x k d (h lt))

pub enqueue_all_lem :
    (n from : ℕ) (es : List (ℤ × ℤ)) (s : State)
    → length s.in_depth ≡ n
    → Ensures (λ s'. Grows s s' × AllArrive n s'.in_depth es) (enqueue_all n from es s)
unfolding enqueue_all AllArrive
enqueue_all_lem n from [] s size = (Grows-refl s, tt)
enqueue_all_lem n from ((t, d) ∷ es) s size =
    Ensures-bind _ _ (enqueue n t d from s) (enqueue_all n from es) (enqueue_lem n t d from s size)
      λ u (g, here).
        Ensures-map _ _ (enqueue_all n from es u)
          (λ v (h, rest). (
            Grows-trans g h,
            (Arrives-Extends n u.in_depth v.in_depth (t, d) h.extends here, rest),
          ))
          (enqueue_all_lem n from es u (g.size ∙ size))
