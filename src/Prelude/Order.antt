-- ===== src/Prelude/Order.antt =====
-- `std::string` comparison: byte by byte, a proper prefix first. A string is its list of bytes.
use Prim.Native.Nat.{ℕ, compare, Ordering}
use mathlib.Core.Bool.{Bool, true, false}
use mathlib.Core.Path.{◌≡◌, refl}
use mathlib.Core.List.{List, [], ◌∷◌}
use mathlib.Core.Logic.{◌↔◌, ◌⊎◌, inl, inr}
use native.Mathlib.Omega.{arith}

-- `a.compare(b)`: its sign.
unfoldable pub compare_bytes : List ℕ → List ℕ → Ordering
compare_bytes [] [] = Ordering.eq
compare_bytes [] (y ∷ ys) = Ordering.lt
compare_bytes (x ∷ xs) [] = Ordering.gt
compare_bytes (x ∷ xs) (y ∷ ys) = elim (compare x y) [
  | Ordering.lt ↦ Ordering.lt
  | Ordering.gt ↦ Ordering.gt
  | Ordering.eq ↦ compare_bytes xs ys
]

-- `a == b` and `a < b` on strings.
abbrev pub eq_bytes : List ℕ → List ℕ → Bool
eq_bytes a b = elim (compare_bytes a b) [ Ordering.eq ↦ true | _ ↦ false ]

abbrev pub lt_bytes : List ℕ → List ℕ → Bool
lt_bytes a b = elim (compare_bytes a b) [ Ordering.lt ↦ true | _ ↦ false ]

pub compare_bytes_self : (a : List ℕ) → compare_bytes a a ≡ Ordering.eq
unfolding compare_bytes
compare_bytes_self [] = refl
compare_bytes_self (x ∷ xs) = ground (arith, compare_bytes_self xs)

pub compare_bytes_eq : (a b : List ℕ) → compare_bytes a b ≡ Ordering.eq → a ≡ b
unfolding compare_bytes
compare_bytes_eq [] [] h = refl
compare_bytes_eq [] (y ∷ ys) h = cc
compare_bytes_eq (x ∷ xs) [] h = cc
compare_bytes_eq (x ∷ xs) (y ∷ ys) h = ground (arith, compare_bytes_eq xs ys)

pub compare_bytes_trans :
    (a b c : List ℕ)
    → compare_bytes a b ≡ Ordering.lt
    → compare_bytes b c ≡ Ordering.lt
    → compare_bytes a c ≡ Ordering.lt
unfolding compare_bytes
compare_bytes_trans [] [] c h k = cc
compare_bytes_trans [] (y ∷ ys) [] h k = cc
compare_bytes_trans [] (y ∷ ys) (z ∷ zs) h k = refl
compare_bytes_trans (x ∷ xs) [] c h k = cc
compare_bytes_trans (x ∷ xs) (y ∷ ys) [] h k = cc
compare_bytes_trans (x ∷ xs) (y ∷ ys) (z ∷ zs) h k = ground (arith, compare_bytes_trans xs ys zs)

-- Swapping the arguments swaps the sign.
pub compare_bytes_lt_gt :
    (a b : List ℕ) → compare_bytes a b ≡ Ordering.lt → compare_bytes b a ≡ Ordering.gt
unfolding compare_bytes
compare_bytes_lt_gt [] [] h = cc
compare_bytes_lt_gt [] (y ∷ ys) h = refl
compare_bytes_lt_gt (x ∷ xs) [] h = cc
compare_bytes_lt_gt (x ∷ xs) (y ∷ ys) h = ground (arith, compare_bytes_lt_gt xs ys)

pub compare_bytes_gt_lt :
    (a b : List ℕ) → compare_bytes a b ≡ Ordering.gt → compare_bytes b a ≡ Ordering.lt
unfolding compare_bytes
compare_bytes_gt_lt [] [] h = cc
compare_bytes_gt_lt [] (y ∷ ys) h = cc
compare_bytes_gt_lt (x ∷ xs) [] h = refl
compare_bytes_gt_lt (x ∷ xs) (y ∷ ys) h = ground (arith, compare_bytes_gt_lt xs ys)

pub eq_bytes_iff : (a b : List ℕ) → (eq_bytes a b ≡ true) ↔ (a ≡ b)
eq_bytes_iff a b =
    (λ h. compare_bytes_eq a b (ground arith), λ e. ground (arith, compare_bytes_self a, e))

pub Ordering-cases : (o : Ordering) → (o ≡ Ordering.lt) ⊎ (o ≡ Ordering.eq) ⊎ (o ≡ Ordering.gt)
Ordering-cases Ordering.lt = inl refl
Ordering-cases Ordering.eq = inr (inl refl)
Ordering-cases Ordering.gt = inr (inr refl)

pub lt_bytes_trans :
    (a b c : List ℕ) → lt_bytes a b ≡ true → lt_bytes b c ≡ true → lt_bytes a c ≡ true
lt_bytes_trans a b c h k = ground (arith, compare_bytes_trans a b c)

-- Less than what is not more.
pub lt_bytes-le :
    (a b c : List ℕ) → lt_bytes a b ≡ true → lt_bytes c b ≡ false → lt_bytes a c ≡ true
lt_bytes-le a b c h k = elim (Ordering-cases (compare_bytes c b)) [
  | inl less ↦ ground (arith, less)
  | inr (inl same) ↦ ground (arith, compare_bytes_eq c b same)
  | inr (inr more) ↦ ground (arith, compare_bytes_trans a b c, compare_bytes_gt_lt c b more)
]
