-- ===== src/Prelude/Maps.antt =====
-- `std::unordered_map` and `std::map` with string keys, as association lists. Where the code walks
-- over such a map, no order of the entries is relied on.
use mathlib.Core.Path.{◌≡◌, refl}
use mathlib.Core.Bool.{false}
use mathlib.Core.List.{List, [], ◌∷◌}
use mathlib.Core.Option.{Option, none, some}
use native.Mathlib.Omega.{arith}
use lsm_tree_engine.Prelude.{ℕ, if◌then◌else◌}
use lsm_tree_engine.Prelude.Order.{eq_bytes, eq_bytes_iff}

abbrev pub Map {ℓ} : Type ℓ → Type ℓ
Map V = List (List ℕ × V)

module _ {ℓ} {V : Type ℓ} where
  unfoldable pub find : List ℕ → Map V → Option V
  find key [] = none
  find key ((k, v) ∷ m) = if eq_bytes k key then some v else find key m

  -- `m[key] = value`.
  unfoldable pub insert : List ℕ → V → Map V → Map V
  insert key value [] = (key, value) ∷ []
  insert key value ((k, v) ∷ m) =
      if eq_bytes k key then (k, value) ∷ m else (k, v) ∷ insert key value m

  pub find-insert_self :
      (key : List ℕ) (value : V) (m : Map V) → find key (insert key value m) ≡ some value
  unfolding find insert
  find-insert_self key value [] = ground (arith, (eq_bytes_iff key key).1 refl)
  find-insert_self key value ((k, v) ∷ m) = ground (arith, find-insert_self key value m)

  pub find-insert_ne :
      (key other : List ℕ) (value : V) (m : Map V)
      → eq_bytes key other ≡ false
      → find other (insert key value m) ≡ find other m
  unfolding find insert
  find-insert_ne key other value [] h = ground arith
  find-insert_ne key other value ((k, v) ∷ m) h = ground (
    arith,
    find-insert_ne key other value m h,
    (eq_bytes_iff k key).0,
    (eq_bytes_iff k other).0,
    (eq_bytes_iff key other).1,
  )
