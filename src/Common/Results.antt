-- ===== src/Common/Results.antt =====
-- Rust's `Result`: the failure first, as in `Result E A`, and the methods that the program calls.
pub data Result {ℓ κ} (E : Type ℓ) (A : Type κ) : Type (ℓ ⊔ κ) where
  ok : A → Result E A
  err : E → Result E A

module _ {ℓ κ} {E : Type ℓ} {A : Type κ} where
  -- `map_err` and `unwrap_or` of the standard library.
  abbrev pub map_err : {F : Type ℓ} → (E → F) → Result E A → Result F A
  map_err convert (ok value) = ok value
  map_err convert (err failure) = err (convert failure)

  abbrev pub unwrap_or : Result E A → A → A
  unwrap_or (ok value) fallback = value
  unwrap_or (err failure) fallback = fallback
