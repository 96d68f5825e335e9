-- ===== src/Verifier/Walk.antt =====
-- One round of the walk of `VerifyMirFunction`, and the whole walk, keep the invariant.
use lpc_interpreter.Prelude.{
  ℕ, zero, suc, ◌+◌, ◌≤◌, ◌<◌, ◌≡◌, refl, inl, inr, ◌∙◌, subst, true, ◌&&◌, Option, none, some,
  List, length, get_elem?, set, length-set, ltb, ◌==◌, if◌then◌else◌, arith, Option-cases,
  Bool-cases,
}
use native.Mathlib.Decide.{ℕ_discrete}
use lpc_interpreter.Prelude.Int.{ℤ, pos, negsuc}
use lpc_interpreter.Mir.{MirInstr, MirFunction, MirModule}
use lpc_interpreter.Verifier.Check.{check_op, transfer}
use lpc_interpreter.Verifier.Loop.{
  State, Step, next, fail, Visit, stop, go_on, reject, depth_at, op_edges, enqueue_all, is_return,
  is_foreach_next, stop_after, fall_through, leave_return, leave, settle, visit, walk,
}
use lpc_interpreter.Verifier.Depths.{
  Extends, depth_at-set_self, Extends-set, known-set, unset-set, get_elem?-none, get_elem?-lt,
}
use lpc_interpreter.Verifier.Enqueue.{Grows, budget, Ensures, Ensures-map, enqueue_all_lem}
use lpc_interpreter.Verifier.Invariant.{
  Later, Later-refl, Later-trans, Leaves, Settled, Settled-Extends, Settled-same, Inv, Done,
  Inv-Done_end, Done-Grows,
}

abbrev VisitEnsures : (State → Type 0) → (ℕ → State → Type 0) → Visit → Type 0
VisitEnsures P Q (stop s) = P s
VisitEnsures P Q (go_on d s) = Q d s
VisitEnsures P Q (reject message i) = Unit

module _ (m : MirModule) (f : MirFunction) where
  abbrev n : ℕ
  n = length f.code

  -- What a round keeps when it goes on to point i at depth d.
  abbrev pub At : ℕ → ℕ → State → Type 0
  At i d s = Inv m f i s × (i < n → depth_at s.in_depth i ≡ some d)

  abbrev pub WentOn : State → ℕ → ℕ → State → Type 0
  WentOn s i e s' = At (suc i) e s' × Later s s'

  abbrev pub Stopped : State → State → Type 0
  Stopped s s' = Done m f s' × Later s s'

  -- A fall-through whose next point needs no new entry.
  module _ (i d e : ℕ) (s : State) (v : Inv m f i s) (known : depth_at s.in_depth i ≡ some d) where
    At-kept :
        Settled m f s.in_depth i d
        → (suc i < n → depth_at s.in_depth (suc i) ≡ some e)
        → WentOn s i e s
    At-kept t following = (
      (
        record {
          size = v.size;
          covered = λ p c k. elim (v.covered p c k) [
            | inl q ↦ inl q
            | inr (inl same) ↦
                inr (inr (Settled-same m f s.in_depth s.in_depth i d p c known k same t))
            | inr (inr u) ↦ inr (inr u)
          ];
        },
        following,
      ),
      Later-refl s,
    )

    -- A fall-through that records the next point.
    At-recorded :
        depth_at s.in_depth (suc i) ≡ none
        → suc i < n
        → Settled m f (set s.in_depth (suc i) (some e)) i d
        → WentOn s i e (record s { in_depth = set s.in_depth (suc i) (some e) })
    unfolding budget
    At-recorded unknown lt t = (
      (
        record {
          size = length-set s.in_depth (suc i) (some e) ∙ v.size;
          covered = λ p c k. elim (ℕ_discrete p (suc i)) [
            | yes here ↦ inr (inl here)
            | no other ↦
                let old = known-set s.in_depth (suc i) e p c k other in
                elim (v.covered p c old) [
                  | inl q ↦ inl q
                  | inr (inl same) ↦
                      inr (inr (Settled-same m f s.in_depth _ i d p c known old same t))
                  | inr (inr u) ↦ inr (
                      inr (
                        Settled-Extends m f s.in_depth _ p c
                          (Extends-set s.in_depth (suc i) e unknown) u))
                ]
          ];
        },
        λ _. depth_at-set_self s.in_depth (suc i) e room,
      ),
      record {
        extends = Extends-set s.in_depth (suc i) e unknown;
        size = length-set s.in_depth (suc i) (some e);
        spent = omega (arith, unset-set s.in_depth (suc i) e unknown room);
      },
    )
      where
        room : suc i < length s.in_depth
        room = rw v.size lt

    fall_through_lem :
        ((D : List (Option ℕ))
          → Extends s.in_depth D
          → (suc i < n → depth_at D (suc i) ≡ some e)
          → Settled m f D i d)
        → VisitEnsures (Stopped s) (WentOn s i) (fall_through n i e s)
    unfolding fall_through
    fall_through_lem settles = elim (Bool-cases (ltb (suc i) n)) [
      | inr last ↦ rw last (
          At-kept (settles s.in_depth (λ p c k. k) (λ lt. absurd (ground arith)))
            (λ lt. absurd (ground arith)))
      | inl inside ↦ rw inside (elim (Option-cases (depth_at s.in_depth (suc i))) [
        | inl unknown ↦ rw unknown (
            let lt : suc i < n = ground arith in
            At-recorded unknown lt (
              settles _ (Extends-set s.in_depth (suc i) e unknown)
                (λ _. depth_at-set_self s.in_depth (suc i) e (rw v.size lt))))
        | inr (c, old) ↦ rw old (agrees c old)
      ])
    ]
      where
        agrees :
            (c : ℕ)
            → depth_at s.in_depth (suc i) ≡ some c
            → VisitEnsures
                (Stopped s)
                (WentOn s i)
                (if c == e then go_on e s else reject "inconsistent stack depth on fallthrough" i)
        agrees c old = elim (Bool-cases (c == e)) [
          | inr other ↦ rw other tt
          | inl same ↦ rw same (
              let h : c ≡ e = ground arith in
              let next_known = subst (λ x. depth_at s.in_depth (suc i) ≡ some x) h old in
              At-kept (settles s.in_depth (λ p c k. k) (λ _. next_known)) (λ _. next_known))
        ]

    stop_after_lem :
        (step : Step)
        → Ensures (λ s'. Grows s s' × Settled m f s'.in_depth i d) step
        → VisitEnsures (Stopped s) (WentOn s i) (stop_after step)
    unfolding stop_after
    stop_after_lem (next s') (g, t) = (
      Done-Grows m f i d s s' v known g t,
      record { extends = g.extends; size = g.size; spent = g.spent },
    )
    stop_after_lem (fail message k) h = tt

  module _ (i d e : ℕ) (s : State) (v : Inv m f i s) (known : depth_at s.in_depth i ≡ some d) where
    leave_lem :
        (ins : MirInstr)
        → get_elem? f.code i ≡ some ins
        → check_op m f n ins.op ins.a ins.b d ≡ none
        → transfer ins d ≡ pos e
        → (is_foreach_next ins.op ≡ true → 2 ≤ e)
        → VisitEnsures (Stopped s) (WentOn s i) (leave n i ins e s)
    unfolding leave Leaves budget
    leave_lem ins read checked moved iterates =
        elim (Option-cases (op_edges ins.op ins.a ins.b i e)) [
          | inl falls ↦
              rw (falls, leave)
                (fall_through_lem i d e s v known λ D x following. record {
                  ins = ins;
                  read = read;
                  checked = checked;
                  after = e;
                  moved = moved;
                  iterates = iterates;
                  leaves = rw falls following;
                })
          | inr (es, ends) ↦
              rw (ends, leave)
                (stop_after_lem i d e s v known _ (
                  Ensures-map _ _ (enqueue_all n i es (leave_return (is_return ins.op) s))
                    (λ s' (g, all). (
                      record {
                        extends = g.extends;
                        size = g.size;
                        fresh = g.fresh;
                        queued = g.queued;
                        spent = g.spent;
                      },
                      record {
                        ins = ins;
                        read = read;
                        checked = checked;
                        after = e;
                        moved = moved;
                        iterates = iterates;
                        leaves = rw ends all;
                      },
                    ))
                    (enqueue_all_lem n i es (leave_return (is_return ins.op) s) v.size)))
        ]

  settle_lem :
      (i d : ℕ) (s : State) (ins : MirInstr) (z : ℤ)
      → Inv m f i s
      → depth_at s.in_depth i ≡ some d
      → get_elem? f.code i ≡ some ins
      → check_op m f n ins.op ins.a ins.b d ≡ none
      → transfer ins d ≡ z
      → VisitEnsures (Stopped s) (WentOn s i) (settle n i ins z s)
  unfolding settle
  settle_lem i d s ins (negsuc e) v known read checked moved = tt
  settle_lem i d s ins (pos e) v known read checked moved =
      elim (Bool-cases (is_foreach_next ins.op && ltb e 2)) [
        | inl bad ↦ rw bad tt
        | inr good ↦ rw good (leave_lem i d e s v known ins read checked moved (λ h. ground arith))
      ]

  pub visit_lem :
      (i d : ℕ) (s : State)
      → Inv m f i s
      → (i < n → depth_at s.in_depth i ≡ some d)
      → VisitEnsures (Stopped s) (WentOn s i) (visit m f i d s)
  unfolding visit
  visit_lem i d s v known = elim (Option-cases (get_elem? f.code i)) [
    | inl past ↦
        rw (past, visit) (Inv-Done_end m f i s (get_elem?-none f.code i past) v, Later-refl s)
    | inr (ins, read) ↦
        rw (read, visit)
          (elim (Option-cases (check_op m f n ins.op ins.a ins.b d)) [
            | inr (message, bad) ↦ rw bad tt
            | inl checked ↦ rw checked (
                settle_lem i d s ins (transfer ins d) v (known (get_elem?-lt f.code i ins read))
                  read checked refl)
          ])
  ]

  -- The rest of a block, from point i: it settles all that it leaves off the queue.
  pub walk_lem :
      (left i d : ℕ) (s : State)
      → n ≤ left + i
      → Inv m f i s
      → (i < n → depth_at s.in_depth i ≡ some d)
      → Ensures (Stopped s) (walk m f left i d s)
  unfolding walk
  walk_lem zero i d s le v known = (Inv-Done_end m f i s (omega arith) v, Later-refl s)
  walk_lem (suc left) i d s le v known =
      go (visit m f i d s) (visit_lem i d s v known)
        (λ e u (w, k). walk_lem left (suc i) e u (omega arith) w k)
    where
      go :
          (r : Visit)
          → VisitEnsures (Stopped s) (WentOn s i) r
          → ((e : ℕ) (u : State) → At (suc i) e u → Ensures (Stopped u) (walk m f left (suc i) e u))
          → Ensures (Stopped s) (elim r [
            | stop u ↦ next u
            | go_on e u ↦ walk m f left (suc i) e u
            | reject message k ↦ fail message k
          ])
      go (stop u) h rec = h
      go (go_on e u) (at, later) rec =
          Ensures-map _ _ (walk m f left (suc i) e u)
            (λ w (done, more). (done, Later-trans later more)) (rec e u at)
      go (reject message k) h rec = tt
