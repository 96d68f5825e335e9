-- ===== src/Heap/Reachable.antt =====
-- What the program can get at, read from the pools and the roots of vm/include/vm/runtime/vm.h, and
-- that `MarkReachable` of vm/src/runtime/vm_gc.cpp marks exactly that.
use lpc_interpreter.Prelude.{
  ℕ, zero, suc, ◌-◌, ◌<◌, ◌≡◌, ◌↔◌, refl, sym, subst, ◌⊎◌, inl, inr, false, List, [], ◌∷◌, some,
  length, get_elem?, ltb, leb, ◌&&◌, Bool-cases, arith,
}
use mathlib.Core.Option.{some-injective, none-ne-some}
use lpc_interpreter.Value.Word.{Value}
use lpc_interpreter.Heap.Pools.{Heap, Kind, Slot, size, slot_at, slot_of_id}
use lpc_interpreter.Heap.Mark.{Marks, Frame, TimerTask, Roots, mark_from_roots}
use lpc_interpreter.Heap.Marked.{On, Points, Trail, here, via}
use lpc_interpreter.Heap.Refers.{Refers, Refers-target, target-Refers}
use lpc_interpreter.Heap.Holds.{
  StandsIn, Holds, Among-StandsIn, StandsIn-Among, Among-Holds, Holds-Among,
}
use lpc_interpreter.Heap.Traced.{InFrames, InTimers, IsRoot, Traced, mark_from_roots-Traced}

-- Some value of the list refers to the slot.
abbrev pub OneRefers : Heap → List Value → Slot → Type 0
OneRefers h vs s = (v : Value) × StandsIn v vs × Refers h v s

-- The slot is the object with the id, which counts from 1.
abbrev pub IsObject : Heap → ℕ → Slot → Type 0
IsObject h id s = (i : ℕ) × (s ≡ (Kind.objects, i)) × (id ≡ suc i) × (i < length h.objects.items)

abbrev pub IsClosureSlot : Heap → ℕ → Slot → Type 0
IsClosureSlot h i s = (s ≡ (Kind.closures, i)) × (i < length h.closures.items)

-- A frame runs the closure, or has the object as its own.
abbrev pub OfFrame : Heap → List Frame → Slot → Type 0
OfFrame h fs s =
    (j : ℕ) × (f : Frame) × (get_elem? fs j ≡ some f)
    × (IsClosureSlot h f.closure_slot s ⊎ IsObject h f.object_id s)

-- A timer that is not cancelled calls it, or passes it as an argument.
abbrev pub OfTimer : Heap → List TimerTask → Slot → Type 0
OfTimer h ts s =
    (j : ℕ) × (t : TimerTask) × (get_elem? ts j ≡ some t)
    × (t.cancelled ≡ false)
    × (Refers h t.callee s ⊎ OneRefers h t.args s)

-- Where the program starts from.
abbrev pub Starts : Heap → Roots → Slot → Type 0
Starts h r s =
    OneRefers h r.stack s
    ⊎ (OfFrame h r.frames s
        ⊎ (OfTimer h r.timers s ⊎ (Refers h r.last_result s ⊎ IsObject h r.current_object_id s)))

-- From entry to entry by the values that they hold.
pub data Chain (h : Heap) : Slot → Slot → Type 0 where
  done : {s : Slot} → Chain h s s
  step : {s t u : Slot} (v : Value) → Holds h s v → Refers h v t → Chain h t u → Chain h s u

-- What the program can get at.
abbrev pub Reachable : Heap → Roots → Slot → Type 0
Reachable h r s = (a : Slot) × Starts h r a × Chain h a s

slot_of_id-some :
    (h : Heap) (k : Kind) (id : ℕ) (s : Slot)
    → slot_of_id h k id ≡ some s
    → (i : ℕ) × (s ≡ (k, i)) × (id ≡ suc i) × (i < size h k)
unfolding slot_of_id
slot_of_id-some h k id s e = elim (Bool-cases (ltb 0 id && leb id (size h k))) [
  | inl found ↦
      let at : some (k, id - 1) ≡ some s = rw found at e in
      (id - 1, sym (some-injective _ _ at), ground arith, ground arith)
  | inr missing ↦ absurd (none-ne-some s (rw missing at e))
]

some-slot_of_id :
    (h : Heap) (k : Kind) (id i : ℕ) (s : Slot)
    → s ≡ (k, i)
    → id ≡ suc i
    → i < size h k
    → slot_of_id h k id ≡ some s
unfolding slot_of_id
some-slot_of_id h k id i s is_slot is_id lt = rw is_slot (ground arith)

slot_at-some :
    (h : Heap) (k : Kind) (i : ℕ) (s : Slot)
    → slot_at h k i ≡ some s
    → (s ≡ (k, i)) × (i < size h k)
unfolding slot_at
slot_at-some h k i s e = elim (Bool-cases (ltb i (size h k))) [
  | inl found ↦
      let at : some (k, i) ≡ some s = rw found at e in (sym (some-injective _ _ at), ground arith)
  | inr missing ↦ absurd (none-ne-some s (rw missing at e))
]

some-slot_at :
    (h : Heap) (k : Kind) (i : ℕ) (s : Slot) → s ≡ (k, i) → i < size h k → slot_at h k i ≡ some s
unfolding slot_at
some-slot_at h k i s is_slot lt = rw is_slot (ground arith)

module _ (h : Heap) where
  Points-OneRefers : (vs : List Value) (s : Slot) → Points h vs s → OneRefers h vs s
  Points-OneRefers vs s (v, among, e) = (v, Among-StandsIn v vs among, target-Refers h v s e)

  OneRefers-Points : (vs : List Value) (s : Slot) → OneRefers h vs s → Points h vs s
  OneRefers-Points vs s (v, stands, r) = (v, StandsIn-Among v vs stands, Refers-target h v s r)

  InFrames-OfFrame : (fs : List Frame) (s : Slot) → InFrames h fs s → OfFrame h fs s
  unfolding size
  InFrames-OfFrame [] s x = absurd x
  InFrames-OfFrame (f ∷ fs) s (inl e) = (0, f, refl, inl (slot_at-some h _ _ s e))
  InFrames-OfFrame (f ∷ fs) s (inr (inl e)) = (0, f, refl, inr (slot_of_id-some h _ _ s e))
  InFrames-OfFrame (f ∷ fs) s (inr (inr x)) =
      let (j, g, read, y) = InFrames-OfFrame fs s x in (suc j, g, read, y)

  frame-InFrames :
      (f : Frame) (fs : List Frame) (s : Slot)
      → IsClosureSlot h f.closure_slot s ⊎ IsObject h f.object_id s
      → InFrames h (f ∷ fs) s
  unfolding size
  frame-InFrames f fs s (inl (e, lt)) = inl (some-slot_at h Kind.closures f.closure_slot s e lt)
  frame-InFrames f fs s (inr (i, e, id, lt)) =
      inr (inl (some-slot_of_id h Kind.objects f.object_id i s e id lt))

  OfFrame-InFrames : (fs : List Frame) (s : Slot) → OfFrame h fs s → InFrames h fs s
  OfFrame-InFrames [] s (j, f, read, x) = absurd (none-ne-some f read)
  OfFrame-InFrames (g ∷ fs) s (zero, f, read, x) = frame-InFrames g fs s (
      subst (λ k. IsClosureSlot h k.closure_slot s ⊎ IsObject h k.object_id s)
        (sym (some-injective g f read)) x)
  OfFrame-InFrames (g ∷ fs) s (suc j, f, read, x) =
      inr (inr (OfFrame-InFrames fs s (j, f, read, x)))

  callee_or_args :
      (t : TimerTask) (s : Slot)
      → Points h (t.callee ∷ t.args) s
      → Refers h t.callee s ⊎ OneRefers h t.args s
  callee_or_args t s (v, inl e, r) = inl (subst (λ w. Refers h w s) e (target-Refers h v s r))
  callee_or_args t s (v, inr among, r) = inr (Points-OneRefers t.args s (v, among, r))

  callee_args-Points :
      (t : TimerTask) (s : Slot)
      → Refers h t.callee s ⊎ OneRefers h t.args s
      → Points h (t.callee ∷ t.args) s
  callee_args-Points t s (inl r) = (t.callee, inl refl, Refers-target h t.callee s r)
  callee_args-Points t s (inr (v, stands, r)) =
      (v, inr (StandsIn-Among v t.args stands), Refers-target h v s r)

  InTimers-OfTimer : (ts : List TimerTask) (s : Slot) → InTimers h ts s → OfTimer h ts s
  InTimers-OfTimer [] s x = absurd x
  InTimers-OfTimer (t ∷ ts) s (inl (live, p)) = (0, t, refl, live, callee_or_args t s p)
  InTimers-OfTimer (t ∷ ts) s (inr x) =
      let (j, u, read, live, y) = InTimers-OfTimer ts s x in (suc j, u, read, live, y)

  OfTimer-InTimers : (ts : List TimerTask) (s : Slot) → OfTimer h ts s → InTimers h ts s
  OfTimer-InTimers [] s (j, t, read, live, x) = absurd (none-ne-some t read)
  OfTimer-InTimers (u ∷ ts) s (zero, t, read, live, x) =
      let same = sym (some-injective u t read) in
      inl (
        subst (λ k. k.cancelled ≡ false) same live,
        callee_args-Points u s (subst (λ k. Refers h k.callee s ⊎ OneRefers h k.args s) same x),
      )
  OfTimer-InTimers (u ∷ ts) s (suc j, t, read, live, x) =
      inr (OfTimer-InTimers ts s (j, t, read, live, x))

  IsRoot-Starts : (r : Roots) (s : Slot) → IsRoot h r s → Starts h r s
  unfolding size
  IsRoot-Starts r s (inl p) = inl (Points-OneRefers r.stack s p)
  IsRoot-Starts r s (inr (inl f)) = inr (inl (InFrames-OfFrame r.frames s f))
  IsRoot-Starts r s (inr (inr (inl t))) = inr (inr (inl (InTimers-OfTimer r.timers s t)))
  IsRoot-Starts r s (inr (inr (inr (inl e)))) =
      inr (inr (inr (inl (target-Refers h r.last_result s e))))
  IsRoot-Starts r s (inr (inr (inr (inr e)))) =
      inr (inr (inr (inr (slot_of_id-some h Kind.objects r.current_object_id s e))))

  Starts-IsRoot : (r : Roots) (s : Slot) → Starts h r s → IsRoot h r s
  unfolding size
  Starts-IsRoot r s (inl p) = inl (OneRefers-Points r.stack s p)
  Starts-IsRoot r s (inr (inl f)) = inr (inl (OfFrame-InFrames r.frames s f))
  Starts-IsRoot r s (inr (inr (inl t))) = inr (inr (inl (OfTimer-InTimers r.timers s t)))
  Starts-IsRoot r s (inr (inr (inr (inl e)))) =
      inr (inr (inr (inl (Refers-target h r.last_result s e))))
  Starts-IsRoot r s (inr (inr (inr (inr (i, e, id, lt))))) =
      inr (inr (inr (inr (some-slot_of_id h Kind.objects r.current_object_id i s e id lt))))

  Trail-Chain : {s t : Slot} → Trail h s t → Chain h s t
  Trail-Chain here = done
  Trail-Chain (via {s = s} {t = t} (v, among, e) rest) =
      step v (Among-Holds h s v among) (target-Refers h v t e) (Trail-Chain rest)

  Chain-Trail : {s t : Slot} → Chain h s t → Trail h s t
  Chain-Trail done = here
  Chain-Trail (step {s = s} {t = t} v holds refers rest) =
      via (v, Holds-Among h s v holds, Refers-target h v t refers) (Chain-Trail rest)

  pub Traced-Reachable : (r : Roots) (s : Slot) → Traced h r s → Reachable h r s
  Traced-Reachable r s (a, root, trail) = (a, IsRoot-Starts r a root, Trail-Chain trail)

  pub Reachable-Traced : (r : Roots) (s : Slot) → Reachable h r s → Traced h r s
  Reachable-Traced r s (a, starts, path) = (a, Starts-IsRoot r a starts, Chain-Trail path)

-- `MarkReachable` ends, and the slots that it marks are exactly those that the stack, the frames, the
-- timers, the last result and the current object lead to by the elements, keys, values, fields,
-- globals and upvalues that the entries of the heap hold.
pub mark_from_roots-exact :
    (h : Heap) (r : Roots)
    → (m : Marks) × (mark_from_roots h r ≡ some m) × ((s : Slot) → On m s ↔ Reachable h r s)
mark_from_roots-exact h r =
    let (m, eq, exact) = mark_from_roots-Traced h r in
    (
      m,
      eq,
      λ s. (
        λ on. Traced-Reachable h r s ((exact s).0 on),
        λ reachable. (exact s).1 (Reachable-Traced h r s reachable),
      ),
    )
