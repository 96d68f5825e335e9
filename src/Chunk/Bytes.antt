-- ===== src/Chunk/Bytes.antt =====
-- The numbers and texts of vm/src/bytecode/chunk_serialization.cpp, little end first. A writer gives
-- the bytes that it appends to the buffer. A text is its bytes, a double its bit pattern.
use Prim.Native.Nat
use lpc_interpreter.Prelude.{
  ℕ, zero, suc, ◌*◌, ◌/◌, ◌%◌, ◌^◌, List, [], ◌∷◌, ◌++◌, length, leb, take, drop, if◌then◌else◌,
}
use lpc_interpreter.Prelude.Int.{ℤ, to_bits, from_bits}
use lpc_interpreter.Chunk.Reader.{Bytes, Reader, ok, refused, pure, ◌>>=◌, read_many}

-- `for (i …) buf.push_back((v >> (i * 8)) & 0xFF)`, with the rounds left.
unfoldable pub write_le : ℕ → ℕ → ℕ → Bytes
write_le zero i v = []
write_le (suc n) i v = Nat.bit_and (v / 2 ^ (i * 8)) 0xff ∷ write_le n (suc i) v

-- `for (i …) out |= data[pos + i] << (i * 8)`; the test that the bytes are there comes first in the
-- source, and here with each byte.
unfoldable pub read_le : ℕ → ℕ → ℕ → Reader ℕ
read_le zero i acc bs = ok (acc, bs)
read_le (suc n) i acc [] = refused
read_le (suc n) i acc (b ∷ bs) = read_le n (suc i) (Nat.bit_or acc (b * 2 ^ (i * 8))) bs

unfoldable pub write_u8 : ℕ → Bytes
write_u8 v = v ∷ []

unfoldable pub write_u16 : ℕ → Bytes
write_u16 v = write_le 2 0 v

unfoldable pub write_u32 : ℕ → Bytes
write_u32 v = write_le 4 0 v

unfoldable pub write_i64 : ℤ → Bytes
write_i64 v = write_le 8 0 (to_bits v)

unfoldable pub write_f64 : ℕ → Bytes
write_f64 bits = write_le 8 0 bits

unfoldable pub write_str : Bytes → Bytes
write_str s = write_u32 (length s % 2 ^ 32) ++ s

unfoldable pub read_u8 : Reader ℕ
read_u8 [] = refused
read_u8 (b ∷ bs) = ok (b, bs)

unfoldable pub read_u16 : Reader ℕ
read_u16 = read_le 2 0 0

unfoldable pub read_u32 : Reader ℕ
read_u32 = read_le 4 0 0

unfoldable pub read_i64 : Reader ℤ
read_i64 = do u ← read_le 8 0 0; pure (from_bits u)

unfoldable pub read_f64 : Reader ℕ
read_f64 = read_le 8 0 0

unfoldable pub read_bytes : ℕ → Reader Bytes
read_bytes count bs = if leb count (length bs) then ok (take count bs, drop count bs) else refused

unfoldable pub read_str : Reader Bytes
read_str = do slen ← read_u32; read_bytes slen

-- A count in 32 bits, and that many entries: how the source writes and reads a vector.
unfoldable pub write_all {ℓ} : {A : Type ℓ} → (A → Bytes) → List A → Bytes
write_all w [] = []
write_all w (x ∷ xs) = w x ++ write_all w xs

unfoldable pub write_list {ℓ} : {A : Type ℓ} → (A → Bytes) → List A → Bytes
write_list w xs = write_u32 (length xs % 2 ^ 32) ++ write_all w xs

unfoldable pub read_list : {A : Type 0} → Reader A → Reader (List A)
read_list r = do n ← read_u32; read_many r n

-- The same with a count in 16 bits.
unfoldable pub write_short_list {ℓ} : {A : Type ℓ} → (A → Bytes) → List A → Bytes
write_short_list w xs = write_u16 (length xs % 2 ^ 16) ++ write_all w xs

unfoldable pub read_short_list : {A : Type 0} → Reader A → Reader (List A)
read_short_list r = do n ← read_u16; read_many r n
