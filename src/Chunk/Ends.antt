-- ===== src/Chunk/Ends.antt =====
-- `DeserializeChunk` of vm/src/bytecode/chunk_serialization.cpp ends on all data, and refuses a file
-- that was cut off.
use lpc_interpreter.Prelude.{
  ℕ, ◌<◌, ◌≡◌, ◌∙◌, refl, ap, sym, false, [], ◌∷◌, ◌++◌, length, ltb, ◌&&◌, ◌==◌, length-append,
  Bool-cases, inl, inr, arith,
}
use mathlib.Core.List.{append-nil}
use lpc_interpreter.Chunk.Reader.{Bytes, Result, Reader, ok, refused, out_of_fuel, bind}
use lpc_interpreter.Chunk.Records.{Chunk}
use lpc_interpreter.Chunk.Writer.{serialize}
use lpc_interpreter.Chunk.Loader.{read_magic, deserialize}
use lpc_interpreter.Chunk.RoundTrip.{FitsChunk, restored, deserialize-serialize}
use lpc_interpreter.Chunk.Reads.{Within, Same, Reads, holds, no, same, after_refused, Within-mono}
use lpc_interpreter.Chunk.Total.{Reads-body}

-- The magic bytes, when they are right, are followed by a shorter input.
data Magic (more : Bytes) (bs : Bytes)
    : Result (Unit {0} × Bytes) → Result (Unit {0} × Bytes) → Type 0 where
  right :
      {rest : Bytes}
      → length rest < length bs
      → Magic more bs (ok (tt, rest)) (ok (tt, rest ++ more))
  wrong : {y : Result (Unit {0} × Bytes)} → Magic more bs refused y

read_magic-Magic : (bs more : Bytes) → Magic more bs (read_magic bs) (read_magic (bs ++ more))
unfolding read_magic
read_magic-Magic [] more = wrong
read_magic-Magic (a ∷ []) more = wrong
read_magic-Magic (a ∷ b ∷ []) more = wrong
read_magic-Magic (a ∷ b ∷ c ∷ []) more = wrong
read_magic-Magic (a ∷ b ∷ c ∷ d ∷ rest) more = elim (Bool-cases (ltb (length rest) 4)) [
  | inl short ↦ rw short wrong
  | inr long ↦
      let longer : ltb (length (rest ++ more)) 4 ≡ false =
        ground (arith, length-append rest more) in
      rw (long, longer)
        (elim (Bool-cases ((a == 0x4c) && (b == 0x50) && (c == 0x43))) [
          | inl good ↦ rw good (right (omega arith))
          | inr bad ↦ rw bad wrong
        ])
]

module _ (bs more : Bytes) (f f' : Reader Chunk) (h : Reads (length bs) f f') where
  Magic-Within :
      {x y : Result (Unit {0} × Bytes)}
      → Magic more bs x y
      → Within (length bs) (bind x λ (a, rest). f rest)
  Magic-Within (right lt) = Within-mono (omega arith) (h.within _ lt)
  Magic-Within wrong = no

  Magic-stable :
      {x y : Result (Unit {0} × Bytes)}
      → Magic more bs x y
      → Same more (bind x λ (a, rest). f rest) (bind y λ (a, rest). f' rest)
  Magic-stable (right lt) = h.stable _ more
  Magic-stable wrong = after_refused

-- The loader ends on all data, with fuel for as many nested values as there are bytes: it refuses, or
-- it returns a module and leaves as many bytes as there were at most.
pub deserialize_ends : (bytes : Bytes) (out : Chunk) → Within (length bytes) (deserialize bytes out)
unfolding deserialize
deserialize_ends bytes out =
    Magic-Within bytes [] _ _ (Reads-body (length bytes) (length bytes) (omega arith) out)
      (read_magic-Magic bytes [])

-- Bytes behind a module that was loaded do not change it.
pub deserialize_stable :
    (bytes more : Bytes) (out : Chunk)
    → Same more (deserialize bytes out) (deserialize (bytes ++ more) out)
unfolding deserialize
deserialize_stable bytes more out =
    Magic-stable bytes more _ _
      (Reads-body (length bytes) (length (bytes ++ more)) (omega (arith, length-append bytes more))
        out)
      (read_magic-Magic bytes more)

-- How many bytes an answer leaves.
left : Result (Chunk × Bytes) → ℕ
left (ok (c, rest)) = length rest
left refused = 0
left out_of_fuel = 0

cut :
    (x : ℕ) (back : Bytes) (n : ℕ) (c : Chunk) {r s : Result (Chunk × Bytes)}
    → Within n r
    → Same (x ∷ back) r s
    → s ≡ ok (c, [])
    → r ≡ refused
unfolding left
cut x back n c (holds le) (same {a} {rest}) eq =
    absurd (omega (arith, length-append rest (x ∷ back), ap left eq))
cut x back n c no _ eq = refl

-- A file that holds a module less one byte or more at its end is refused.
pub deserialize_truncated :
    (c out : Chunk) (front : Bytes) (x : ℕ) (back : Bytes)
    → FitsChunk c
    → serialize c ≡ front ++ (x ∷ back)
    → deserialize front out ≡ refused
deserialize_truncated c out front x back fits eq =
    cut x back (length front) (restored c out) (deserialize_ends front out)
      (deserialize_stable front (x ∷ back) out)
      (ap (λ bs. deserialize bs out) (sym eq ∙ sym (append-nil (serialize c)))
        ∙ deserialize-serialize c out [] fits)
