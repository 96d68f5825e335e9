-- ===== src/Chunk/Reader.antt =====
-- Reading of bytes in vm/src/bytecode/chunk_serialization.cpp. The source passes the data, its length
-- and a position; here a reader takes the bytes from the position on and returns those behind.
use lpc_interpreter.Prelude.{ℕ, zero, suc, List, [], ◌∷◌, Bool, true, false}

abbrev pub Bytes : Type 0
Bytes = List ℕ

-- `refused` is a `return false`; `out_of_fuel` has no counterpart in the source.
pub data Result {ℓ} (A : Type ℓ) : Type ℓ where
  ok : A → Result A
  refused out_of_fuel : Result A

abbrev pub bind {ℓ κ} : {A : Type ℓ} {B : Type κ} → Result A → (A → Result B) → Result B
bind (ok a) f = f a
bind refused f = refused
bind out_of_fuel f = out_of_fuel

abbrev pub Reader : Type 0 → Type 0
Reader A = Bytes → Result (A × Bytes)

abbrev pub pure : {A : Type 0} → A → Reader A
pure a bs = ok (a, bs)

abbrev pub refuse : {A : Type 0} → Reader A
refuse bs = refused

-- `if (!test) return false;`
abbrev pub guard : Bool → Reader (Unit {0})
guard true = pure tt
guard false = refuse

module _ {A B : Type 0} where
  infixl 1 ◌>>=◌ ◌>>◌
  abbrev pub ◌>>=◌ : Reader A → (A → Reader B) → Reader B
  ◌>>=◌ r f bs = bind (r bs) λ (a, rest). f a rest

  abbrev pub ◌>>◌ : Reader A → Reader B → Reader B
  r >> s = r >>= λ _. s

-- The loop over the entries of a vector, with the entries left.
unfoldable pub read_many : {A : Type 0} → Reader A → ℕ → Reader (List A)
read_many r zero = pure []
read_many r (suc n) = do x ← r; xs ← read_many r n; pure (x ∷ xs)
