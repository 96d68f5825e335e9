-- ===== src/Array/Tests.antt =====
-- Runs of an array at concrete operations.
use lpc_interpreter.Prelude.{
  ℕ, ◌≡◌, refl, Bool, true, false, List, [], ◌∷◌, none, some, replicate, arith,
}
use lpc_interpreter.Value.Word.{Value, nil_value}
use lpc_interpreter.Array.Storage.{LpcArray, inline, buffer, make_array, push_back}
use lpc_interpreter.Array.Refines.{Holds}
use lpc_interpreter.Array.Pushing.{push_back_no_memory}
use lpc_interpreter.Array.Instance.{LpcClass, reset_fields, init_fields}
use lpc_interpreter.Array.Fields.{
  IsSoundInstance, HasFields, reset_fields-HasFields, init_fields-HasFields, reset_fields_no_memory,
}
use lpc_interpreter.Array.Runs.{Op, push, put, move, list_op, list_run, array_run, made_run-Holds}

abbrev much : ℕ → Bool
much n = true

abbrev one : Value
one = record { bits = 1 }

-- Eight elements in place, and the ninth makes the array grow.
abbrev growing : List Op
growing = push one ∷ put 0 one ∷ move ∷ []

abbrev grown : List Value
grown =
    one ∷ nil_value ∷ nil_value ∷ nil_value ∷ nil_value ∷ nil_value ∷ nil_value ∷ nil_value ∷ one
    ∷ []

growing-grown : list_run growing (replicate 8 nil_value) ≡ some grown
unfolding list_run list_op
growing-grown = refl

made_run-Holds_example :
    (b : LpcArray) × (array_run much growing (make_array much 8 nil_value) ≡ some b) × Holds b grown
made_run-Holds_example = made_run-Holds much (λ n. refl) 8 nil_value growing grown growing-grown

abbrev full : LpcArray
full = record { data_at = inline; size = 8; capacity = 8; inline_data = replicate 8 nil_value }

push_back_no_memory_example : push_back (λ _. false) full one ≡ none
push_back_no_memory_example = push_back_no_memory full one (omega arith) (omega arith)

-- An instance with five fields in memory of their own.
abbrev five : LpcClass
five = record {
  data_at = buffer (replicate 5 one);
  nfields = 5;
  inline_data = replicate 4 nil_value;
}

five-IsSoundInstance : IsSoundInstance five
five-IsSoundInstance = record { backed = omega arith; in_place = refl }

reset_fields-HasFields_example : HasFields (reset_fields much five 2 one) (replicate 2 one)
reset_fields-HasFields_example = reset_fields-HasFields much five 2 one five-IsSoundInstance refl

init_fields-HasFields_example :
    HasFields (init_fields much five (one ∷ nil_value ∷ [])) (one ∷ nil_value ∷ [])
init_fields-HasFields_example =
    init_fields-HasFields much five (one ∷ nil_value ∷ []) five-IsSoundInstance refl

reset_fields_no_memory_example : HasFields (reset_fields (λ _. false) five 6 one) []
reset_fields_no_memory_example =
    reset_fields_no_memory (λ _. false) five 6 one five-IsSoundInstance refl (omega arith)
      (omega arith)
