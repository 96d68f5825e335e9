-- ===== src/Heap/Marked.antt =====
-- What marking adds to the marks: the slots that its starting points lead to.
use lpc_interpreter.Prelude.{
  ℕ, ◌+◌, ◌≤◌, ◌≡◌, ◌⊎◌, inl, inr, true, List, [], ◌∷◌, some, length, arith,
}
use lpc_interpreter.Value.Word.{Value}
use lpc_interpreter.Optimizer.Marks.{unmarked}
use lpc_interpreter.Heap.Pools.{Heap, Kind, Slot, size, refs, target}
use lpc_interpreter.Heap.Mark.{Marks, has_mark}

abbrev pub On : Marks → Slot → Type 0
On m s = has_mark m s ≡ true

abbrev pub Among : Value → List Value → Type 0
Among v [] = ⊥
Among v (w ∷ ws) = (v ≡ w) ⊎ Among v ws

-- Slot t is what one of the values refers to.
abbrev pub Points : Heap → List Value → Slot → Type 0
Points h vs t = (v : Value) × Among v vs × (target h v ≡ some t)

-- Slot s holds a value that refers to slot t.
abbrev pub Edge : Heap → Slot → Slot → Type 0
Edge h s t = Points h (refs h s) t

pub data Trail (h : Heap) : Slot → Slot → Type 0 where
  here : {s : Slot} → Trail h s s
  via : {s t u : Slot} → Edge h s t → Trail h t u → Trail h s u

abbrev pub From : Heap → (Slot → Type 0) → Slot → Type 0
From h R s = (r : Slot) × R r × Trail h r s

abbrev pub Fits : Heap → Marks → Type 0
Fits h m = (k : Kind) → length (m k) ≡ size h k

unfoldable pub unmarked_slots : Marks → ℕ
unmarked_slots m =
    unmarked (m Kind.strings)
    + unmarked (m Kind.arrays)
    + unmarked (m Kind.mappings)
    + unmarked (m Kind.classes)
    + unmarked (m Kind.objects)
    + unmarked (m Kind.closures)
    + unmarked (m Kind.boxed_ints)

-- Marks m' come from m by marking from the slots of R.
pub record Marked (h : Heap) (R : Slot → Type 0) (m m' : Marks) : Type 0 where
  pub roots : (s : Slot) → R s → On m' s
  pub grows : (s : Slot) → On m s → On m' s
  pub closed : (s : Slot) → On m' s → On m s ⊎ ((t : Slot) → Edge h s t → On m' t)
  pub only : (s : Slot) → On m' s → On m s ⊎ From h R s
  pub fewer : unmarked_slots m' ≤ unmarked_slots m
  pub fits : Fits h m'

module _ (h : Heap) where
  pub Marked-none :
      {R : Slot → Type 0} {m : Marks} → ((s : Slot) → ¬ R s) → Fits h m → Marked h R m m
  Marked-none empty f = record {
    roots = λ s r. absurd (empty s r);
    grows = λ s on. on;
    closed = λ s on. inl on;
    only = λ s on. inl on;
    fewer = omega arith;
    fits = f;
  }

  pub Marked-iff :
      {R S : Slot → Type 0} {m m' : Marks}
      → ((s : Slot) → R s → S s)
      → ((s : Slot) → S s → R s)
      → Marked h R m m'
      → Marked h S m m'
  Marked-iff to back a = record {
    roots = λ s r. a.roots s (back s r);
    grows = a.grows;
    closed = a.closed;
    only = λ s on. elim (a.only s on) [
      | inl old ↦ inl old
      | inr (r, in_r, path) ↦ inr (r, to r in_r, path)
    ];
    fewer = a.fewer;
    fits = a.fits;
  }

  pub Marked-join :
      {R S : Slot → Type 0} {m m₁ m₂ : Marks}
      → Marked h R m m₁
      → Marked h S m₁ m₂
      → Marked h (λ s. R s ⊎ S s) m m₂
  Marked-join a b = record {
    roots = λ s r. elim r [ inl x ↦ b.grows s (a.roots s x) | inr y ↦ b.roots s y ];
    grows = λ s on. b.grows s (a.grows s on);
    closed = λ s on. elim (b.closed s on) [
      | inl before ↦ elim (a.closed s before) [
        | inl old ↦ inl old
        | inr all ↦ inr (λ t e. b.grows t (all t e))
      ]
      | inr all ↦ inr all
    ];
    only = λ s on. elim (b.only s on) [
      | inl before ↦ elim (a.only s before) [
        | inl old ↦ inl old
        | inr (r, in_r, path) ↦ inr (r, inl in_r, path)
      ]
      | inr (r, in_s, path) ↦ inr (r, inr in_s, path)
    ];
    fewer = omega (arith, a.fewer, b.fewer);
    fits = b.fits;
  }
