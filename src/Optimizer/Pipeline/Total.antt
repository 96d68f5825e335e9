-- ===== src/Optimizer/Pipeline/Total.antt =====
-- `OptimizeFunction` and `OptimizeMirModule` of compiler/src/frontend/mir_opt.cpp end, and their
-- functions end in a `Return`.
use lpc_interpreter.Prelude.{
  ℕ, zero, suc, ◌≡◌, refl, inl, inr, Bool, true, false, ◌||◌, some, List, [], ◌∷◌, ◌++◌, length,
  if◌then◌else◌, Bool-cases,
}
use lpc_interpreter.Mir.{MirInstr, MirFunction, MirModule}
use lpc_interpreter.Optimizer.OpEq.{same_op}
use lpc_interpreter.Optimizer.Folding.{Doubles}
use lpc_interpreter.Optimizer.Control.{remove_unreachable-Kept}
use lpc_interpreter.Optimizer.Pipeline.{
  run_passes, main_passes, first_passes, iteration, iterate, final_return, ends_in_return,
  close_with_return, optimize_function, optimize_all, optimize_mir_module,
}

module _ (fl : Doubles) where
  iteration_ends :
      (first : Bool) (f : MirFunction) → (r : MirFunction × Bool) × (iteration fl first f ≡ some r)
  unfolding iteration
  iteration_ends first f =
      let s = run_passes (main_passes fl) (f, false) in
      let u : MirFunction × Bool = if first then run_passes (first_passes fl) s else s in
      let k = remove_unreachable-Kept u.0 in ((k.out, u.1 || k.changed), rw (k.returns))

  iterate_ends :
      (left : ℕ) (first : Bool) (f : MirFunction)
      → (g : MirFunction) × (iterate fl left first f ≡ some g)
  unfolding iterate
  iterate_ends zero first f = (f, refl)
  iterate_ends (suc left) first f =
      let (r, runs) = iteration_ends first f in
      elim (Bool-cases r.1) [
        | inl more ↦
            let (g, rest) = iterate_ends left false r.0 in (g, rw (runs, iterate, more) rest)
        | inr done ↦ (r.0, rw (runs, iterate, done))
      ]

  ends_in_return-append : (c : List MirInstr) → ends_in_return fl (c ++ final_return fl ∷ []) ≡ true
  unfolding ends_in_return same_op
  ends_in_return-append [] = refl
  ends_in_return-append (x ∷ []) = refl
  ends_in_return-append (x ∷ y ∷ c) = ends_in_return-append (y ∷ c)

  close_with_return_lem : (f : MirFunction) → ends_in_return fl (close_with_return fl f).code ≡ true
  unfolding close_with_return
  close_with_return_lem f = elim (Bool-cases (ends_in_return fl f.code)) [
    | inl ends ↦ rw (ends, close_with_return) ends
    | inr open_end ↦ rw (open_end, close_with_return) (ends_in_return-append f.code)
  ]

  -- `OptimizeFunction` ends on every function, whatever the platform's doubles compute, and the last
  -- instruction of what it leaves is a `Return`.
  pub optimize_function_total :
      (f : MirFunction)
      → (g : MirFunction) × (optimize_function fl f ≡ some g) × (ends_in_return fl g.code ≡ true)
  unfolding optimize_function
  optimize_function_total f =
      let (g, runs) = iterate_ends 4 true f in
      (close_with_return fl g, rw runs, close_with_return_lem g)

  abbrev pub AllReturn : List MirFunction → Type 0
  AllReturn [] = Unit
  AllReturn (f ∷ fs) = (ends_in_return fl f.code ≡ true) × AllReturn fs

  optimize_all_total :
      (fs : List MirFunction)
      → (gs : List MirFunction) × (optimize_all fl fs ≡ some gs)
        × (length gs ≡ length fs)
        × AllReturn gs
  unfolding optimize_all
  optimize_all_total [] = ([], refl, refl, tt)
  optimize_all_total (f ∷ fs) =
      let (g, runs, ends) = optimize_function_total f in
      let (gs, rest, size, all) = optimize_all_total fs in
      (g ∷ gs, rw (runs, rest), rw size, (ends, all))

  -- `OptimizeMirModule` ends on every module, with as many functions as before, each of them and the
  -- initialiser ending in a `Return`.
  pub optimize_mir_module_total :
      (m : MirModule)
      → (out : MirModule) × (optimize_mir_module fl m ≡ some out)
        × (length out.functions ≡ length m.functions)
        × AllReturn out.functions
        × (ends_in_return fl out.init_function.code ≡ true)
  unfolding optimize_mir_module
  optimize_mir_module_total m =
      let (gs, runs, size, all) = optimize_all_total m.functions in
      let (g, rest, ends) = optimize_function_total m.init_function in
      (record m { functions = gs; init_function = g }, rw (runs, rest), size, all, ends)
