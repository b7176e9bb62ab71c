-- ===== src/Prelude/Results.antt =====
-- Results of code that may throw or may touch memory outside an object.
use mathlib.Core.Path.{◌≡◌, refl, ap}
use mathlib.Core.Logic.{◌≢◌, ◌⊎◌, inl, inr}
use mathlib.Core.Option.{Option, none, some}

-- `out_of_bounds` is an access outside a buffer or through a null pointer, which C++ leaves
-- undefined, as it does `division_by_zero` and `signed_overflow`; `stuck` is no C++ value, a loop's fuel ran out; each
-- other constructor is a `throw`.
pub data Error : Type 0 where
  out_of_bounds division_by_zero stuck : Error
  size_too_small hash_mismatch invalid_size index_out_of_range not_sorted : Error
  meta_length meta_hash no_data : Error
  sync_failed write_failed : Error
  read_out_of_range cache_null block_iterator_null : Error
  dereference_null invalid_direction : Error
  bad_optional_access invalid_argument number_out_of_range signed_overflow : Error

-- What a call that may fail leaves behind.
pub data Result {ℓ} (Value : Type ℓ) : Type ℓ where
  ok : Value → Result Value
  err : Error → Result Value

module _ {ℓ κ} {Value : Type ℓ} {Next : Type κ} where
  -- A fault or a throw skips the rest of the block.
  infixl 5 ◌>>=◌
  abbrev pub ◌>>=◌ : Result Value → (Value → Result Next) → Result Next
  ok value >>= rest = rest value
  err fault >>= rest = err fault

-- A value that has to be there.
abbrev pub from_option {ℓ} : {Value : Type ℓ} → Error → Option Value → Result Value
from_option fault none = err fault
from_option fault (some value) = ok value

pub Result-cases {ℓ} :
    {Value : Type ℓ} (r : Result Value)
    → ((value : Value) × (r ≡ ok value)) ⊎ ((fault : Error) × (r ≡ err fault))
Result-cases (ok value) = inl (value, refl)
Result-cases (err fault) = inr (fault, refl)

pub err_same {ℓ} : {Next : Type ℓ} (e f : Error) → ◌≡◌ {A = Result Next} (err e) (err f) → e ≡ f
err_same e f same = cc

module _ {ℓ κ} {Value : Type ℓ} {Next : Type κ} where
  -- A block that succeeds has a first step that succeeds.
  pub first_ok :
      (step : Result Value) (rest : Value → Result Next) {result : Next}
      → (step >>= rest) ≡ ok result
      → (value : Value) × (step ≡ ok value) × (rest value ≡ ok result)
  first_ok (ok value) rest h = (value, refl, h)
  first_ok (err fault) rest h = cc

  -- A block each of whose steps avoids an error avoids it.
  pub avoids :
      (fault : Error) (step : Result Value) (rest : Value → Result Next)
      → step ≢ err fault
      → ((value : Value) → rest value ≢ err fault)
      → (step >>= rest) ≢ err fault
  avoids fault (ok value) rest h k = k value
  avoids fault (err e) rest h k = λ same. h (ap err (err_same e fault same))

pub bind_assoc {ℓ κ μ} :
    {Value : Type ℓ} {Next : Type κ} {Last : Type μ} (step : Result Value)
    (rest : Value → Result Next) (last : Next → Result Last)
    → ((step >>= rest) >>= last) ≡ (step >>= λ value. rest value >>= last)
bind_assoc (ok value) rest last = refl
bind_assoc (err fault) rest last = refl

pub ok-injective {ℓ} : {Value : Type ℓ} {a b : Value} → ◌≡◌ {A = Result Value} (ok a) (ok b) → a ≡ b
ok-injective same = cc
