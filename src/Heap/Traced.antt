-- ===== src/Heap/Traced.antt =====
-- `MarkReachable` of vm/src/runtime/vm_gc.cpp marks what its calls of `MarkValue` lead to.
use lpc_interpreter.Prelude.{
  ℕ, suc, ◌<◌, ◌≡◌, ◌↔◌, refl, ◌⊎◌, inl, inr, false, List, [], ◌∷◌, Option, some, if◌then◌else◌,
  length-replicate, Bool-cases, arith,
}
use lpc_interpreter.Value.Word.{Value}
use lpc_interpreter.Optimizer.Marks.{not-marked-replicate, unmarked-replicate}
use lpc_interpreter.Heap.Pools.{Heap, Kind, Slot, size, slot_at, slot_of_id, target}
use lpc_interpreter.Heap.Mark.{
  Marks, has_mark, mark_values, mark_value, Frame, TimerTask, Roots, mark_frames, mark_timers,
  no_marks, slots, mark_from_roots,
}
use lpc_interpreter.Heap.Marked.{On, Points, Fits, Marked, Trail, From, here, via, unmarked_slots}
use lpc_interpreter.Heap.Reach.{
  slot_at-InHeap, slot_of_id-InHeap, Is, Answers, MarksBelow, Answers-bind, Answers-iff,
  Answers-none, mark_values-Answers, mark_root-Answers, mark_target-Answers, mark_value-Answers,
}

-- The closure slot and the object of a frame.
abbrev pub InFrames : Heap → List Frame → Slot → Type 0
InFrames h [] s = ⊥
InFrames h (f ∷ fs) s =
    Is (slot_at h Kind.closures f.closure_slot) s
    ⊎ (Is (slot_of_id h Kind.objects f.object_id) s ⊎ InFrames h fs s)

-- What a timer that is not cancelled calls, and with what.
abbrev pub InTimers : Heap → List TimerTask → Slot → Type 0
InTimers h [] s = ⊥
InTimers h (t ∷ ts) s = ((t.cancelled ≡ false) × Points h (t.callee ∷ t.args) s) ⊎ InTimers h ts s

abbrev pub IsRoot : Heap → Roots → Slot → Type 0
IsRoot h r s =
    Points h r.stack s
    ⊎ (InFrames h r.frames s
        ⊎ (InTimers h r.timers s
            ⊎ (Is (target h r.last_result) s
                ⊎ Is (slot_of_id h Kind.objects r.current_object_id) s)))

-- What the calls of `MarkValue` lead to.
abbrev pub Traced : Heap → Roots → Slot → Type 0
Traced h r s = From h (IsRoot h r) s

module _ (h : Heap) (go : Value → Marks → Option Marks) (n : ℕ) (ih : MarksBelow h go n) where
  frames-Answers :
      (fs : List Frame) (m : Marks)
      → Fits h m
      → unmarked_slots m < n
      → Answers h (InFrames h fs) m (mark_frames go h fs m)
  unfolding mark_frames
  frames-Answers [] m fits few = Answers-none h (λ s r. r) fits
  frames-Answers (f ∷ fs) m fits few =
      Answers-bind h _ (mark_root-Answers h go n ih _ m (slot_at-InHeap h _ _) fits few) λ m₁ a.
        Answers-bind h _
          (mark_root-Answers h go n ih _ m₁ (slot_of_id-InHeap h _ _) a.fits
            (omega (arith, a.fewer)))
          λ m₂ b. frames-Answers fs m₂ b.fits (omega (arith, a.fewer, b.fewer))

  timer-Answers :
      (t : TimerTask) (m : Marks)
      → Fits h m
      → unmarked_slots m < n
      → Answers h
          (λ s. (t.cancelled ≡ false) × Points h (t.callee ∷ t.args) s)
          m
          (if t.cancelled then some m else mark_values go (t.callee ∷ t.args) m)
  timer-Answers t m fits few = elim (Bool-cases t.cancelled) [
    | inl off ↦ rw off (Answers-none h (λ s (live, p). cc) fits)
    | inr live ↦ rw live (
        Answers-iff h (λ s p. (refl, p)) (λ s (e, p). p)
          (mark_values-Answers h go n ih _ m fits few))
  ]

  timers-Answers :
      (ts : List TimerTask) (m : Marks)
      → Fits h m
      → unmarked_slots m < n
      → Answers h (InTimers h ts) m (mark_timers go ts m)
  unfolding mark_timers
  timers-Answers [] m fits few = Answers-none h (λ s r. r) fits
  timers-Answers (t ∷ ts) m fits few =
      Answers-bind h _ (timer-Answers t m fits few)
        λ m₁ a. timers-Answers ts m₁ a.fits (omega (arith, a.fewer))

unmarked-no_marks : (h : Heap) → unmarked_slots (no_marks h) ≡ slots h
unfolding unmarked_slots no_marks slots
unmarked-no_marks h = simp unmarked-replicate

no_marks-Fits : (h : Heap) → Fits h (no_marks h)
unfolding no_marks
no_marks-Fits h k = length-replicate _ _

no_marks-empty : (h : Heap) (s : Slot) → ¬ On (no_marks h) s
unfolding no_marks has_mark
no_marks-empty h (k, i) on = not-marked-replicate (size h k) i on

roots-Answers : (h : Heap) (r : Roots) → Answers h (IsRoot h r) (no_marks h) (mark_from_roots h r)
unfolding mark_from_roots
roots-Answers h r =
    let n = suc (slots h) in
    let go = mark_value n h in
    let ih : MarksBelow h go n = mark_value-Answers h n in
    let all = unmarked-no_marks h in
    Answers-bind h _
      (mark_values-Answers h go n ih r.stack _ (no_marks-Fits h) (omega (arith, all)))
      λ m₁ a.
        Answers-bind h _ (frames-Answers h go n ih r.frames m₁ a.fits (omega (arith, all, a.fewer)))
          λ m₂ b.
            Answers-bind h _
              (timers-Answers h go n ih r.timers m₂ b.fits (omega (arith, all, a.fewer, b.fewer)))
              λ m₃ c.
                Answers-bind h _
                  (ih r.last_result m₃ c.fits (omega (arith, all, a.fewer, b.fewer, c.fewer)))
                  λ m₄ d.
                    mark_target-Answers h go n ih _ m₄ (slot_of_id-InHeap h _ _) d.fits
                      (omega (arith, all, a.fewer, b.fewer, c.fewer, d.fewer))

module _ (h : Heap) {R : Slot → Type 0} {m : Marks} (a : Marked h R (no_marks h) m) where
  along : {s t : Slot} → Trail h s t → On m s → On m t
  along here on = on
  along {s = s} (via edge path) on = elim (a.closed s on) [
    | inl before ↦ absurd (no_marks-empty h s before)
    | inr all ↦ along path (all _ edge)
  ]

  Marked-exact : (s : Slot) → On m s ↔ From h R s
  Marked-exact s = (
    λ on. elim (a.only s on) [ inl before ↦ absurd (no_marks-empty h s before) | inr from ↦ from ],
    λ (r, is_root, path). along path (a.roots r is_root),
  )

-- The marks are those of the slots that the calls lead to.
pub mark_from_roots-Traced :
    (h : Heap) (r : Roots)
    → (m : Marks) × (mark_from_roots h r ≡ some m) × ((s : Slot) → On m s ↔ Traced h r s)
mark_from_roots-Traced h r = let (m, eq, a) = roots-Answers h r in (m, eq, Marked-exact h a)
