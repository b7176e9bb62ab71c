-- ===== src/Prelude/Int.antt =====
-- Signed integers over the native numbers; the bounds of C++'s integer types are written out where they are used.
use lsm_tree_engine.Prelude.{
  ◌≤◌, ◌≡◌, arith, true, false, ◌==◌, ◌%◌, ℕ, zero, suc, ◌+◌, ◌-◌, ◌^◌, ltb, leb, if◌then◌else◌,
  Bool, Result, ok, err,
}
use lsm_tree_engine.Prelude.Results.{signed_overflow}

-- `negsuc n` is -(n + 1).
pub data ℤ : Type 0 where
  pos : ℕ → ℤ
  negsuc : ℕ → ℤ

abbrev pub pos_part : ℤ → ℕ
pos_part (pos n) = n
pos_part (negsuc n) = 0

abbrev pub neg_part : ℤ → ℕ
neg_part (pos n) = 0
neg_part (negsuc n) = suc n

-- a - b, as an integer.
abbrev pub sub_ℕ : ℕ → ℕ → ℤ
sub_ℕ a b = if leb b a then pos (a - b) else negsuc (b - a - 1)

infixl 65 ◌+ℤ◌ ◌-ℤ◌
unfoldable pub ◌+ℤ◌ : ℤ → ℤ → ℤ
a +ℤ b = sub_ℕ (pos_part a + pos_part b) (neg_part a + neg_part b)

unfoldable pub ◌-ℤ◌ : ℤ → ℤ → ℤ
a -ℤ b = sub_ℕ (pos_part a + neg_part b) (neg_part a + pos_part b)

abbrev pub ltb_ℤ : ℤ → ℤ → Bool
ltb_ℤ a b = ltb (pos_part a + neg_part b) (pos_part b + neg_part a)

abbrev pub eq_ℤ : ℤ → ℤ → Bool
eq_ℤ (pos a) (pos b) = a == b
eq_ℤ (negsuc a) (negsuc b) = a == b
eq_ℤ (pos a) (negsuc b) = false
eq_ℤ (negsuc a) (pos b) = false

-- -n.
abbrev pub negate : ℕ → ℤ
negate zero = pos 0
negate (suc n) = negsuc n

-- Whether an integer has `w + 1` bits, the sign's included.
abbrev pub fits_bits : ℕ → ℤ → Bool
fits_bits w (pos n) = ltb n (2 ^ w)
fits_bits w (negsuc n) = ltb n (2 ^ w)

-- The result of an operation on `long long`, which may not leave its range.
abbrev pub checked : ℤ → Result ℤ
checked z = if fits_bits 63 z then ok z else err signed_overflow

-- The conversion to `int`, modulo 2^32.
abbrev pub as_int : ℤ → ℤ
as_int (pos n) = let r = n % 2 ^ 32 in if ltb r (2 ^ 31) then pos r else negsuc (2 ^ 32 - r - 1)
as_int (negsuc n) = let r = n % 2 ^ 32 in if ltb r (2 ^ 31) then negsuc r else pos (2 ^ 32 - r - 1)

-- `z >= size` where `z` is an `int` and becomes a `size_t`.
abbrev pub reaches : ℤ → ℕ → Bool
reaches (pos n) size = leb size n
reaches (negsuc n) size = true

pub add_pos : (a b : ℕ) → pos a +ℤ pos b ≡ pos (a + b)
unfolding ◌+ℤ◌
add_pos a b = ground arith

pub add_negsuc : (n : ℕ) → negsuc 0 +ℤ pos (suc n) ≡ pos n
unfolding ◌+ℤ◌
add_negsuc n = ground arith

pub sub_pos : (a b : ℕ) → b ≤ a → pos a -ℤ pos b ≡ pos (a - b)
unfolding ◌-ℤ◌
sub_pos a b h = ground arith
