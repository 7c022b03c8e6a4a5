-- ===== src/Prelude/Result.antt =====
-- crates/core/nova-core/src/error.rs: the error type, and results that carry it.

-- The texts of `Oxigraph::Storage` that the log's decoder raises. `out_of_fuel` is the model's own.
pub data Fault : Type 0 where
  truncated_string_length truncated_string_content invalid_utf8 truncated_tag : Fault
  invalid_direction unknown_term_tag unknown_subject_tag unknown_graph_tag : Fault
  unknown_record_tag out_of_fuel : Fault

pub data Error : Type 0 where
  storage : Fault → Error
  id_space_exhausted graph_space_exhausted : Error

-- `Result<A, Oxigraph>`, and the `?` operator as a bind.
pub data Result {ℓ} (A : Type ℓ) : Type ℓ where
  err : Error → Result A
  ok : A → Result A

infixl 6 ◌>>=◌
abbrev pub ◌>>=◌ {κ ℓ} : {V : Type κ} {W : Type ℓ} → Result V → (V → Result W) → Result W
err fault >>= next = err fault
ok value >>= next = next value
