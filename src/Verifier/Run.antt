-- ===== src/Verifier/Run.antt =====
-- The `while` of `VerifyMirFunction` ends within its fuel, and an end without a failure leaves no
-- point of the table unsettled.
use lpc_interpreter.Prelude.{
  ℕ, zero, suc, ◌+◌, ◌-◌, ◌≤◌, ◌<◌, ◌≡◌, refl, inl, inr, ◌∙◌, Bool, Option, none, some, List, [],
  ◌∷◌, length, length-replicate, length-set, replicate, Option-cases, arith,
}
use native.Mathlib.Decide.{ℕ_discrete}
use lpc_interpreter.Mir.{MirFunction, MirModule}
use lpc_interpreter.Verifier.Loop.{
  State, Step, next, fail, depth_at, run_block, verify_loop, first_state,
}
use lpc_interpreter.Verifier.Depths.{Extends, unset, known-replicate, known-set}
use lpc_interpreter.Verifier.Enqueue.{budget, Ensures, Ensures-map}
use lpc_interpreter.Verifier.Invariant.{Later-refl, Settled, Inv, Done}
use lpc_interpreter.Verifier.Walk.{Stopped, walk_lem}

module _ (m : MirModule) (f : MirFunction) where
  run_block_lem : (pc : ℕ) (s : State) → Inv m f pc s → Ensures (Stopped m f s) (run_block m f pc s)
  unfolding run_block
  run_block_lem pc s v = elim (Option-cases (depth_at s.in_depth pc)) [
    | inl unknown ↦
        rw (unknown, run_block)
          (
            record {
              size = v.size;
              covered = λ p d k. elim (v.covered p d k) [
                | inl q ↦ inl q
                | inr (inl same) ↦ cc
                | inr (inr t) ↦ inr t
              ];
            },
            Later-refl s,
          )
    | inr (d, known) ↦
        rw (known, run_block)
          (walk_lem m f (length f.code - pc) pc d s (omega arith) v (λ lt. known))
  ]

  -- The loop ended: with a failure, or with an empty queue and a closed table over the first one.
  pub record Ended (D : List (Option ℕ)) (o : Option Step) : Type 0 where
    pub end : Step
    pub returns : o ≡ some end
    pub closed :
        Ensures
          (λ s.
            Extends D s.in_depth
            × ((p d : ℕ) → depth_at s.in_depth p ≡ some d → Settled m f s.in_depth p d))
          end

  pub verify_loop-Ended :
      (fuel : ℕ) (D : List (Option ℕ)) (work : List ℕ) (r : Bool)
      → Done m f (record { in_depth = D; work = work; has_return = r })
      → length work + unset D ≤ fuel
      → Ended D (verify_loop m f fuel (record { in_depth = D; work = work; has_return = r }))
  unfolding verify_loop budget
  verify_loop-Ended zero D [] r v le = record {
    end = next (record { in_depth = D; work = []; has_return = r });
    returns = refl;
    closed = (λ p d k. k, λ p d k. elim (v.covered p d k) [ inl q ↦ absurd q | inr t ↦ t ]);
  }
  verify_loop-Ended zero D (pc ∷ rest) r v le = absurd (omega arith)
  verify_loop-Ended (suc fuel) D [] r v le = record {
    end = next (record { in_depth = D; work = []; has_return = r });
    returns = refl;
    closed = (λ p d k. k, λ p d k. elim (v.covered p d k) [ inl q ↦ absurd q | inr t ↦ t ]);
  }
  verify_loop-Ended (suc fuel) D (pc ∷ rest) r v le =
      go (run_block m f pc popped)
        (run_block_lem pc popped (record {
          size = v.size;
          covered = λ p d k. elim (v.covered p d k) [
            | inl (inl e) ↦ inr (inl e)
            | inl (inr q) ↦ inl q
            | inr t ↦ inr (inr t)
          ];
        }))
        (λ u. verify_loop-Ended fuel u.in_depth u.work u.has_return)
    where
      popped : State
      popped = record { in_depth = D; work = rest; has_return = r }

      go :
          (step : Step)
          → Ensures (Stopped m f popped) step
          → ((u : State)
              → Done m f u
              → length u.work + unset u.in_depth ≤ fuel
              → Ended u.in_depth (verify_loop m f fuel u))
          → Ended D (elim step [
            | next u ↦ verify_loop m f fuel u
            | fail message i ↦ some (fail message i)
          ])
      go (fail message i) h rec = record { end = fail message i; returns = refl; closed = tt }
      go (next u) (done, later) rec =
          let le' : length u.work + unset u.in_depth ≤ fuel = omega (arith, later.spent) in
          let e = rec u done le' in
          record {
            end = e.end;
            returns = e.returns;
            closed =
                Ensures-map _ _ e.end (λ s (x, all). (λ p d k. x p d (later.extends p d k), all))
                  e.closed;
          }

  pub first_state-Done : 0 < length f.code → Done m f (first_state m f)
  first_state-Done pos_len = record {
    size =
        length-set (replicate (length f.code) none) 0 (some 0)
        ∙ length-replicate (length f.code) none;
    covered = λ p d k. elim (ℕ_discrete p 0) [
      | yes e ↦ inl (inl e)
      | no other ↦
          absurd
            (known-replicate (length f.code) p d (known-set (replicate _ none) 0 0 p d k other))
    ];
  }
