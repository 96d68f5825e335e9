-- ===== src/Chunk/Reads.antt =====
-- What every reader of vm/src/bytecode/chunk_serialization.cpp keeps to: it ends, it takes no more
-- than there is, and bytes behind those that it took do not change its answer.
use lpc_interpreter.Prelude.{
  ℕ, zero, suc, ◌≤◌, ◌<◌, ◌≡◌, refl, ap, Bool, true, false, [], ◌∷◌, ◌++◌, length, leb, take, drop,
  length-append, length-drop, leb→le, Bool-cases, inl, inr, arith,
}
use lpc_interpreter.Chunk.Reader.{
  Bytes, Result, Reader, ok, refused, out_of_fuel, bind, pure, guard, ◌>>=◌, read_many,
}
use lpc_interpreter.Chunk.Bytes.{
  read_le, read_u16, read_u32, read_i64, read_f64, read_bytes, read_str, read_list, read_short_list,
}

-- An answer in time that leaves m bytes at most.
pub data Within {A : Type 0} (m : ℕ) : Result (A × Bytes) → Type 0 where
  holds : {a : A} {rest : Bytes} → length rest ≤ m → Within m (ok (a, rest))
  no : Within m refused

-- A second answer, on an input with `more` behind it: the same if the first is a value.
pub data Same {A : Type 0} (more : Bytes) : Result (A × Bytes) → Result (A × Bytes) → Type 0 where
  same : {a : A} {rest : Bytes} → Same more (ok (a, rest)) (ok (a, rest ++ more))
  after_refused : {y : Result (A × Bytes)} → Same more refused y
  after_fuel : {y : Result (A × Bytes)} → Same more out_of_fuel y

-- Reader r on fewer than n bytes; r' is r with as much fuel or more.
pub record Reads {A : Type 0} (n : ℕ) (r r' : Reader A) : Type 0 where
  pub within : (bs : Bytes) → length bs < n → Within (length bs) (r bs)
  pub stable : (bs more : Bytes) → Same more (r bs) (r' (bs ++ more))

pub Within-mono : {A : Type 0} {m n : ℕ} {x : Result (A × Bytes)} → m ≤ n → Within m x → Within n x
Within-mono le (holds h) = holds (omega arith)
Within-mono le no = no

module _ {A B : Type 0} where
  Within-bind :
      {m : ℕ} {x : Result (A × Bytes)} {f : A → Reader B}
      → Within m x
      → ((a : A) (rest : Bytes) → length rest ≤ m → Within (length rest) (f a rest))
      → Within m (bind x λ (a, rest). f a rest)
  Within-bind (holds {a} {rest} h) k = Within-mono h (k a rest h)
  Within-bind no k = no

  Same-bind :
      {more : Bytes} {x y : Result (A × Bytes)} (f f' : A → Reader B)
      → Same more x y
      → ((a : A) (rest : Bytes) → Same more (f a rest) (f' a (rest ++ more)))
      → Same more (bind x λ (a, rest). f a rest) (bind y λ (a, rest). f' a rest)
  Same-bind f f' (same {a} {rest}) k = k a rest
  Same-bind f f' after_refused k = after_refused
  Same-bind f f' after_fuel k = after_fuel

  pub Reads-bind :
      {n : ℕ} (r r' : Reader A) (f f' : A → Reader B)
      → Reads n r r'
      → ((a : A) → Reads n (f a) (f' a))
      → Reads n (r >>= f) (r' >>= f')
  Reads-bind r r' f f' h k = record {
    within =
        λ bs lt. Within-bind {f = f} (h.within bs lt) λ a rest le. (k a).within rest (omega arith);
    stable = λ bs more. Same-bind f f' (h.stable bs more) λ a rest. (k a).stable rest more;
  }

pub Reads-pure : {A : Type 0} {n : ℕ} (a : A) → Reads n (pure a) (pure a)
Reads-pure a = record { within = λ bs lt. holds (omega arith); stable = λ bs more. same }

pub Reads-guard : {n : ℕ} (b : Bool) → Reads n (guard b) (guard b)
Reads-guard true = Reads-pure tt
Reads-guard false = record { within = λ bs lt. no; stable = λ bs more. after_refused }

le-Within : (k i acc : ℕ) (bs : Bytes) → Within (length bs) (read_le k i acc bs)
unfolding read_le
le-Within zero i acc bs = holds (omega arith)
le-Within (suc k) i acc [] = no
le-Within (suc k) i acc (b ∷ bs) = Within-mono (omega arith) (le-Within k (suc i) _ bs)

le_stable :
    (k i acc : ℕ) (bs more : Bytes) → Same more (read_le k i acc bs) (read_le k i acc (bs ++ more))
unfolding read_le
le_stable zero i acc bs more = same
le_stable (suc k) i acc [] more = after_refused
le_stable (suc k) i acc (b ∷ bs) more = le_stable k (suc i) _ bs more

le→leb : (a b : ℕ) → a ≤ b → leb a b ≡ true
le→leb a b h = ground arith

pub Reads-le : {n : ℕ} (k i acc : ℕ) → Reads n (read_le k i acc) (read_le k i acc)
Reads-le k i acc = record {
  within = λ bs lt. le-Within k i acc bs;
  stable = λ bs more. le_stable k i acc bs more;
}

take-append_le : (k : ℕ) (bs more : Bytes) → k ≤ length bs → take k (bs ++ more) ≡ take k bs
take-append_le zero bs more le = refl
take-append_le (suc k) [] more le = absurd (omega arith)
take-append_le (suc k) (b ∷ bs) more le = ap (λ l. b ∷ l) (take-append_le k bs more (omega arith))

drop-append_le : (k : ℕ) (bs more : Bytes) → k ≤ length bs → drop k (bs ++ more) ≡ drop k bs ++ more
drop-append_le zero bs more le = refl
drop-append_le (suc k) [] more le = absurd (omega arith)
drop-append_le (suc k) (b ∷ bs) more le = drop-append_le k bs more (omega arith)

bytes-Within : (k : ℕ) (bs : Bytes) → Within (length bs) (read_bytes k bs)
unfolding read_bytes
bytes-Within k bs = elim (Bool-cases (leb k (length bs))) [
  | inl enough ↦ rw enough (holds (omega (arith, length-drop k bs)))
  | inr short ↦ rw short no
]

bytes_stable : (k : ℕ) (bs more : Bytes) → Same more (read_bytes k bs) (read_bytes k (bs ++ more))
unfolding read_bytes
bytes_stable k bs more = elim (Bool-cases (leb k (length bs))) [
  | inl enough ↦
      let le : k ≤ length bs = leb→le _ _ enough in
      let longer : leb k (length (bs ++ more)) ≡ true =
        le→leb k (length (bs ++ more)) (omega (arith, length-append bs more)) in
      rw (enough, longer, take-append_le k bs more le, drop-append_le k bs more le) same
  | inr short ↦ rw short after_refused
]

pub Reads-bytes : {n : ℕ} (k : ℕ) → Reads n (read_bytes k) (read_bytes k)
Reads-bytes k = record {
  within = λ bs lt. bytes-Within k bs;
  stable = λ bs more. bytes_stable k bs more;
}

pub Reads-u16 : {n : ℕ} → Reads n read_u16 read_u16
unfolding read_u16
Reads-u16 = Reads-le 2 0 0

pub Reads-u32 : {n : ℕ} → Reads n read_u32 read_u32
unfolding read_u32
Reads-u32 = Reads-le 4 0 0

pub Reads-f64 : {n : ℕ} → Reads n read_f64 read_f64
unfolding read_f64
Reads-f64 = Reads-le 8 0 0

pub Reads-i64 : {n : ℕ} → Reads n read_i64 read_i64
unfolding read_i64
Reads-i64 = Reads-bind _ _ _ _ (Reads-le 8 0 0) λ u. Reads-pure _

pub Reads-str : {n : ℕ} → Reads n read_str read_str
unfolding read_str
Reads-str = Reads-bind _ _ _ _ Reads-u32 λ slen. Reads-bytes slen

pub Reads-many :
    {A : Type 0} {n : ℕ} (r r' : Reader A)
    → Reads n r r'
    → (k : ℕ) → Reads n (read_many r k) (read_many r' k)
unfolding read_many
Reads-many r r' h zero = Reads-pure []
Reads-many r r' h (suc k) =
    Reads-bind _ _ _ _ h λ x. Reads-bind _ _ _ _ (Reads-many r r' h k) λ xs. Reads-pure (x ∷ xs)

pub Reads-list :
    {A : Type 0} {n : ℕ} (r r' : Reader A) → Reads n r r' → Reads n (read_list r) (read_list r')
unfolding read_list
Reads-list r r' h = Reads-bind _ _ _ _ Reads-u32 λ k. Reads-many r r' h k

pub Reads-short_list :
    {A : Type 0} {n : ℕ} (r r' : Reader A)
    → Reads n r r'
    → Reads n (read_short_list r) (read_short_list r')
unfolding read_short_list
Reads-short_list r r' h = Reads-bind _ _ _ _ Reads-u16 λ k. Reads-many r r' h k
