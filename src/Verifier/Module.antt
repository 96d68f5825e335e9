-- ===== src/Verifier/Module.antt =====
-- `VerifyMirModule` of compiler/src/frontend/verifier.cpp: it ends, and its verdict covers every
-- function of the module.
use lpc_interpreter.Prelude.{
  ℕ, zero, suc, ◌+◌, ◌<◌, ◌≡◌, ◌⊎◌, inl, inr, true, false, some, List, [], ◌∷◌, length, get_elem?,
  Bool-cases, subst, refl, arith,
}
use mathlib.Core.Option.{some-injective, none-ne-some}
use lpc_interpreter.Mir.{MirFunction, MirModule}
use lpc_interpreter.Verifier.Loop.{Verify2Result, verify_function, verify_functions, verify_module}
use lpc_interpreter.Verifier.Graph.{Reach}
use lpc_interpreter.Verifier.Sound.{
  Passes, verify_function_total, verify_function-Passes, verify_function-depth_unique,
}

infix 40 ◌∈◌
abbrev pub ◌∈◌ : MirFunction → List MirFunction → Type 0
f ∈ [] = ⊥
f ∈ g ∷ fs = (f ≡ g) ⊎ (f ∈ fs)

-- A function of the module: one of its list, or its initialiser.
abbrev pub IsFunctionOf : MirFunction → MirModule → Type 0
IsFunctionOf f m = (f ∈ m.functions) ⊎ (f ≡ m.init_function)

verify_functions-each :
    (m : MirModule) (fs : List MirFunction) (k : ℕ) (r : Verify2Result)
    → verify_functions m fs k ≡ some r
    → r.ok ≡ true
    → (f : MirFunction) → (f ∈ fs) ⊎ (f ≡ m.init_function)
    → (j : ℕ) × (q : Verify2Result) × (verify_function m f j ≡ some q) × (q.ok ≡ true)
unfolding verify_functions
verify_functions-each m [] k r h ok f (inr e) = (k, r, rw e h, ok)
verify_functions-each m [] k r h ok f (inl none_there) = absurd none_there
verify_functions-each m (g ∷ fs) k r h ok f e =
    let (q, runs) = verify_function_total m g k in
    let h' = rw (runs, verify_functions) at h in
    elim (Bool-cases q.ok) [
      | inr bad ↦
          let refused : some q ≡ some r = rw bad at h' in
          let same : q ≡ r = cc refused in cc (subst (λ x. x.ok ≡ false) same bad)
      | inl good ↦
          let rest : verify_functions m fs (suc k) ≡ some r = rw good at h' in
          elim e [
            | inl (inl same) ↦ (k, q, rw same runs, good)
            | inl (inr there) ↦ verify_functions-each m fs (suc k) r rest ok f (inl there)
            | inr same ↦ verify_functions-each m fs (suc k) r rest ok f (inr same)
          ]
    ]

-- The functions in the order in which they are verified: the initialiser is last.
unfoldable pub verified_order : List MirFunction → MirModule → List MirFunction
verified_order [] m = m.init_function ∷ []
verified_order (f ∷ fs) m = f ∷ verified_order fs m

-- Function f at index k is accepted.
abbrev pub Accepts : MirModule → ℕ → MirFunction → Type 0
Accepts m k f = (q : Verify2Result) × (verify_function m f k ≡ some q) × (q.ok ≡ true)

-- The verdict on functions that are numbered from k on.
pub record AllAccepted (m : MirModule) (fs : List MirFunction) (k : ℕ) (r : Verify2Result)
    : Type 0 where
  pub good : r.ok ≡ true
  pub each : (j : ℕ) (f : MirFunction) → get_elem? fs j ≡ some f → Accepts m (k + j) f

pub record FirstRefused (m : MirModule) (fs : List MirFunction) (k : ℕ) (r : Verify2Result)
    : Type 0 where
  pub bad : r.ok ≡ false
  pub index : ℕ
  pub refused : MirFunction
  pub read : get_elem? fs index ≡ some refused
  pub verdict : verify_function m refused (k + index) ≡ some r
  pub before : (j : ℕ) (f : MirFunction) → j < index → get_elem? fs j ≡ some f → Accepts m (k + j) f

abbrev pub Verdict : MirModule → List MirFunction → ℕ → Verify2Result → Type 0
Verdict m fs k r = AllAccepted m fs k r ⊎ FirstRefused m fs k r

same_index : (k : ℕ) → k ≡ k + 0
same_index k = omega arith

module _ (m : MirModule) where
  Verdict-last :
      (k : ℕ) (r : Verify2Result)
      → verify_function m m.init_function k ≡ some r
      → Verdict m (m.init_function ∷ []) k r
  Verdict-last k r h = elim (Bool-cases r.ok) [
    | inl ok ↦
        inl (record {
          good = ok;
          each = λ j f read. first_only m.init_function k j f (r, h, ok) read;
        })
    | inr bad ↦ inr (record {
      bad = bad;
      index = 0;
      refused = m.init_function;
      read = refl;
      verdict = subst (λ n. verify_function m m.init_function n ≡ some r) (same_index k) h;
      before = λ j f lt read. absurd (omega arith);
    })
  ]
    where
      first_only :
          (g : MirFunction) (k j : ℕ) (f : MirFunction)
          → Accepts m k g
          → get_elem? (g ∷ []) j ≡ some f
          → Accepts m (k + j) f
      first_only g k zero f acc read =
          subst (λ n. Accepts m n f) (same_index k)
            (subst (Accepts m k) (some-injective g f read) acc)
      first_only g k (suc j) f acc read = absurd (none-ne-some f read)

  next_Accepts : (k j : ℕ) (f : MirFunction) → Accepts m (suc k + j) f → Accepts m (k + suc j) f
  next_Accepts k j f acc =
      let e : suc k + j ≡ k + suc j = omega arith in subst (λ n. Accepts m n f) e acc

  -- One accepted function in front.
  after_good :
      (f : MirFunction) (fs : List MirFunction) (k bound : ℕ)
      → Accepts m k f
      → ((j : ℕ) (g : MirFunction) → j < bound → get_elem? fs j ≡ some g → Accepts m (suc k + j) g)
      → (j : ℕ) (g : MirFunction) → j < suc bound
      → get_elem? (f ∷ fs) j ≡ some g
      → Accepts m (k + j) g
  after_good f fs k bound acc rest zero g lt read =
      subst (λ n. Accepts m n g) (same_index k) (subst (Accepts m k) (some-injective f g read) acc)
  after_good f fs k bound acc rest (suc j) g lt read =
      next_Accepts k j g (rest j g (omega arith) read)

  Verdict-next :
      (f : MirFunction) (fs : List MirFunction) (k : ℕ) (r : Verify2Result)
      → Accepts m k f
      → Verdict m fs (suc k) r
      → Verdict m (f ∷ fs) k r
  Verdict-next f fs k r acc v = elim v [
    | inl all ↦ inl (record {
      good = all.good;
      each =
          λ j g read. after_good f fs k (suc j) acc (λ i h lt. all.each i h) j g (omega arith) read;
    })
    | inr one ↦ inr (record {
      bad = one.bad;
      index = suc one.index;
      refused = one.refused;
      read = one.read;
      verdict =
          let e : suc k + one.index ≡ k + suc one.index = omega arith in
          subst (λ n. verify_function m one.refused n ≡ some r) e one.verdict;
      before = λ j g lt read. after_good f fs k one.index acc one.before j g lt read;
    })
  ]

  refused_here :
      (f : MirFunction) (fs : List MirFunction) (k : ℕ) (r : Verify2Result)
      → verify_function m f k ≡ some r
      → r.ok ≡ false
      → Verdict m (f ∷ fs) k r
  refused_here f fs k r h bad = inr (record {
    bad = bad;
    index = 0;
    refused = f;
    read = refl;
    verdict = subst (λ n. verify_function m f n ≡ some r) (same_index k) h;
    before = λ j g lt read. absurd (omega arith);
  })

  verify_functions-Verdict :
      (fs : List MirFunction) (k : ℕ)
      → (r : Verify2Result) × (verify_functions m fs k ≡ some r)
        × Verdict m (verified_order fs m) k r
  unfolding verify_functions verified_order
  verify_functions-Verdict [] k =
      let (r, h) = verify_function_total m m.init_function k in (r, h, Verdict-last k r h)
  verify_functions-Verdict (f ∷ fs) k =
      let (r, h) = verify_function_total m f k in
      elim (Bool-cases r.ok) [
        | inl ok ↦
            let (q, rest, v) = verify_functions-Verdict fs (suc k) in
            (
              q,
              rw (h, verify_functions, ok) rest,
              Verdict-next f (verified_order fs m) k q (r, h, ok) v,
            )
        | inr bad ↦
            (r, rw (h, verify_functions, bad), refused_here f (verified_order fs m) k r h bad)
      ]

-- `VerifyMirModule` ends on every module. It accepts when it accepts each of its functions at its
-- index and then the initialiser; otherwise its result is that of the first function of this order
-- that it refuses, and those before it are accepted.
pub verify_module-Verdict :
    (m : MirModule)
    → (r : Verify2Result) × (verify_module m ≡ some r)
      × Verdict m (verified_order m.functions m) 0 r
unfolding verify_module
verify_module-Verdict m = verify_functions-Verdict m m.functions 0

-- In a module that `VerifyMirModule` accepts, every run of every function, the initialiser included,
-- meets in its code only instructions that at the depth of that run pass the tests of their operands
-- and of the depth before them, leave a depth that is not below 0, and of 2 or more after a step of a
-- `foreach`; and it meets each with one depth.
pub verify_module-Passes :
    (m : MirModule) (r : Verify2Result)
    → verify_module m ≡ some r
    → r.ok ≡ true
    → (f : MirFunction) → IsFunctionOf f m
    → {i d e : ℕ} → Reach f i d
    → Reach f i e
    → i < length f.code
    → Passes m f i d × (d ≡ e)
unfolding verify_module
verify_module-Passes m r h ok f member run other lt =
    let (j, q, runs, good) = verify_functions-each m m.functions 0 r h ok f member in
    (
      verify_function-Passes m f j q runs good run lt,
      verify_function-depth_unique m f j q runs good run other lt,
    )
