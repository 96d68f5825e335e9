-- ===== src/Heap/InRange.antt =====
-- What the program can get at lies in the heap.
use lpc_interpreter.Prelude.{inl, inr, List, [], ◌∷◌, Option, some, subst}
use lpc_interpreter.Heap.Pools.{Heap, Slot}
use lpc_interpreter.Heap.Mark.{Frame, TimerTask, Roots}
use lpc_interpreter.Heap.Marked.{Trail, here, via}
use lpc_interpreter.Heap.Reach.{InHeap, Is, slot_at-InHeap, slot_of_id-InHeap, target-InHeap}
use lpc_interpreter.Heap.Traced.{InFrames, InTimers, IsRoot}
use lpc_interpreter.Heap.Reachable.{Reachable, Reachable-Traced}

abbrev LiesIn : Heap → Slot → Type 0
LiesIn h s = InHeap h (some s)

module _ (h : Heap) where
  of_lookup : {x : Option Slot} {s : Slot} → InHeap h x → Is x s → LiesIn h s
  of_lookup there e = subst (InHeap h) e there

  InFrames-LiesIn : (fs : List Frame) (s : Slot) → InFrames h fs s → LiesIn h s
  InFrames-LiesIn [] s r = absurd r
  InFrames-LiesIn (f ∷ fs) s r = elim r [
    | inl e ↦ of_lookup (slot_at-InHeap h _ _) e
    | inr later ↦ elim later [
      | inl e ↦ of_lookup (slot_of_id-InHeap h _ _) e
      | inr rest ↦ InFrames-LiesIn fs s rest
    ]
  ]

  InTimers-LiesIn : (ts : List TimerTask) (s : Slot) → InTimers h ts s → LiesIn h s
  InTimers-LiesIn [] s r = absurd r
  InTimers-LiesIn (t ∷ ts) s r = elim r [
    | inl (live, (v, among, e)) ↦ of_lookup (target-InHeap h v) e
    | inr rest ↦ InTimers-LiesIn ts s rest
  ]

  IsRoot-LiesIn : (r : Roots) (s : Slot) → IsRoot h r s → LiesIn h s
  IsRoot-LiesIn r s x = elim x [
    | inl (v, among, e) ↦ of_lookup (target-InHeap h v) e
    | inr x₁ ↦ elim x₁ [
      | inl f ↦ InFrames-LiesIn _ s f
      | inr x₂ ↦ elim x₂ [
        | inl t ↦ InTimers-LiesIn _ s t
        | inr x₃ ↦ elim x₃ [
          | inl l ↦ of_lookup (target-InHeap h _) l
          | inr o ↦ of_lookup (slot_of_id-InHeap h _ _) o
        ]
      ]
    ]
  ]

  along : {s t : Slot} → Trail h s t → LiesIn h s → LiesIn h t
  along here there = there
  along (via (v, among, e) rest) there = along rest (of_lookup (target-InHeap h v) e)

  pub Reachable-InHeap : (r : Roots) (s : Slot) → Reachable h r s → InHeap h (some s)
  Reachable-InHeap r s reachable =
      let (root, is_root, trail) = Reachable-Traced h r s reachable in
      along trail (IsRoot-LiesIn r root is_root)
