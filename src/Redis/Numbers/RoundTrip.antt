-- ===== src/Redis/Numbers/RoundTrip.antt =====
-- `std::stoll` on what `std::to_string` prints.
use lsm_tree_engine.Redis.Numbers.{
  stoi, digits, to_string_ℕ, to_string, is_digit, is_space, skip_spaces, scan, in_range, unsigned,
  signed, stoll,
}
use lsm_tree_engine.Redis.{is_empty_text, Text}
use lsm_tree_engine.Prelude.{
  ℕ, zero, suc, ◌+◌, ◌-◌, ◌*◌, ◌/◌, ◌%◌, ◌<◌, ◌≡◌, refl, ap, ◌∙◌, ltb, ◌==◌, true, false, [], ◌∷◌,
  ok, arith, Bool-cases, inl, inr,
}
use lsm_tree_engine.Prelude.Int.{ℤ, pos, negsuc, negate, fits_bits}

digit_value : (d : ℕ) → d < 10 → (is_digit (b'0' + d) ≡ true) × ((b'0' + d) - b'0' ≡ d)
digit_value d h = (ground arith, omega arith)

scan_digit : (d n : ℕ) (out : Text) → d < 10 → scan ((b'0' + d) ∷ out) n ≡ scan out (n * 10 + d)
unfolding scan
scan_digit d n out h = let (digit, value) = digit_value d h in rw (digit, value) refl

scan-digits : (fuel n : ℕ) (out : Text) → n < fuel → scan (digits fuel n out) 0 ≡ scan out n
unfolding digits
scan-digits zero n out h = elim h [ ]
scan-digits (suc fuel) n out h = elim (Bool-cases (ltb n 10)) [
  | inl few ↦ rw (few, digits) (scan_digit n 0 out (ground arith) ∙ ap (scan out) (omega arith))
  | inr more ↦
      rw (more, digits)
        (scan-digits fuel (n / 10) ((b'0' + n % 10) ∷ out) (ground arith)
          ∙ scan_digit (n % 10) (n / 10) out (omega arith)
          ∙ ap (scan out) (omega arith))
]

-- What is printed starts with a digit.
digits_first :
    (fuel n : ℕ) (out : Text)
    → n < fuel
    → (c : ℕ) × (s : Text) × (digits fuel n out ≡ c ∷ s) × (is_digit c ≡ true)
unfolding digits
digits_first zero n out h = elim h [ ]
digits_first (suc fuel) n out h = elim (Bool-cases (ltb n 10)) [
  | inl few ↦ (b'0' + n, out, rw (few, digits) refl, (digit_value n (ground arith)).0)
  | inr more ↦ rw (more, digits) (digits_first fuel (n / 10) ((b'0' + n % 10) ∷ out) (ground arith))
]

digit-not_space : (c : ℕ) → is_digit c ≡ true → is_space c ≡ false
digit-not_space c h = ground arith

digit-not_sign : (c : ℕ) → is_digit c ≡ true → ((c == b'-') ≡ false) × ((c == b'+') ≡ false)
digit-not_sign c h = (ground arith, ground arith)

unsigned-to_string_ℕ :
    (bits n : ℕ) (sign : ℕ → ℤ) → unsigned bits sign (to_string_ℕ n) ≡ in_range bits (sign n)
unfolding unsigned to_string_ℕ
unsigned-to_string_ℕ bits n sign =
    let (c, s, first, digit) = digits_first (suc n) n [] (omega arith) in
    let read : scan (digits (suc n) n []) 0 ≡ n =
      unfold scan in scan-digits (suc n) n [] (omega arith) in
    let read' = rw first at read in rw (first, digit, read') refl

signed-to_string :
    (bits : ℕ) (z : ℤ) → fits_bits bits z ≡ true → signed bits (skip_spaces (to_string z)) ≡ ok z
unfolding to_string skip_spaces signed
signed-to_string bits (pos n) fits =
    let (c, s, first, digit) = digits_first (suc n) n [] (omega arith) in
    let (minus, plus) = digit-not_sign c digit in
    let e : to_string_ℕ n ≡ c ∷ s = unfold to_string_ℕ in first in
    let read = rw e at (unsigned-to_string_ℕ bits n pos) in
    rw (e, digit-not_space c digit, minus, plus, read, fits) refl
signed-to_string bits (negsuc n) fits =
    let e : n + 1 ≡ suc n = omega arith in
    rw (unsigned-to_string_ℕ bits (n + 1) negate, e, fits) refl

-- A `long long` and an `int` are read back as they were printed.
pub sto-to_string :
    (z : ℤ)
    → ((fits_bits 63 z ≡ true) → (stoll (to_string z) ≡ ok z))
      × ((fits_bits 31 z ≡ true) → (stoi (to_string z) ≡ ok z))
unfolding stoll stoi
sto-to_string z = (signed-to_string 63 z, signed-to_string 31 z)

pub stoll-to_string : (z : ℤ) → fits_bits 63 z ≡ true → stoll (to_string z) ≡ ok z
stoll-to_string z = (sto-to_string z).0

pub is_empty_text-to_string : (z : ℤ) → is_empty_text (to_string z) ≡ false
unfolding to_string
is_empty_text-to_string (pos n) =
    let (c, s, first, digit) = digits_first (suc n) n [] (omega arith) in
    let e : to_string_ℕ n ≡ c ∷ s = unfold to_string_ℕ in first in rw e refl
is_empty_text-to_string (negsuc n) = refl
