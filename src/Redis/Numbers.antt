-- ===== src/Redis/Numbers.antt =====
-- `std::to_string`, `std::stoll` and `std::stoi`, as src/redis_wrapper/redis_wrapper.cpp uses them.
pub mod RoundTrip
use lsm_tree_engine.Prelude.{
  ℕ, zero, suc, ◌+◌, ◌-◌, ◌*◌, ◌/◌, ◌%◌, ltb, leb, ◌==◌, if◌then◌else◌, Bool, true, false, ◌&&◌,
  ◌||◌, [], ◌∷◌, Result, ok, err,
}
use lsm_tree_engine.Prelude.Results.{invalid_argument, number_out_of_range}
use lsm_tree_engine.Prelude.Int.{ℤ, pos, negsuc, negate, fits_bits}
use lsm_tree_engine.Redis.{Text}

-- The digits of a number before those in `out`; a number has no more digits than its value and one more.
unfoldable pub digits : ℕ → ℕ → Text → Text
digits zero n out = out
digits (suc fuel) n out = elim (ltb n 10) [
  | true ↦ (b'0' + n) ∷ out
  | false ↦ digits fuel (n / 10) ((b'0' + n % 10) ∷ out)
]

unfoldable pub to_string_ℕ : ℕ → Text
to_string_ℕ n = digits (suc n) n []

unfoldable pub to_string : ℤ → Text
to_string (pos n) = to_string_ℕ n
to_string (negsuc n) = b'-' ∷ to_string_ℕ (n + 1)

abbrev pub is_digit : ℕ → Bool
is_digit c = leb b'0' c && leb c b'9'

-- `std::isspace`.
abbrev pub is_space : ℕ → Bool
is_space c = c == 32 || leb 9 c && leb c 13

unfoldable pub skip_spaces : Text → Text
skip_spaces [] = []
skip_spaces (c ∷ s) = let rest = skip_spaces s in if is_space c then rest else c ∷ s

-- The number that the digits at the front of a text spell behind `n`.
unfoldable pub scan : Text → ℕ → ℕ
scan [] n = n
scan (c ∷ s) n = let more = scan s (n * 10 + (c - b'0')) in if is_digit c then more else n

abbrev pub in_range : ℕ → ℤ → Result ℤ
in_range bits z = if fits_bits bits z then ok z else err number_out_of_range

unfoldable pub unsigned : ℕ → (ℕ → ℤ) → Text → Result ℤ
unsigned bits sign [] = err invalid_argument
unsigned bits sign (c ∷ s) =
    if is_digit c then in_range bits (sign (scan (c ∷ s) 0)) else err invalid_argument

unfoldable pub signed : ℕ → Text → Result ℤ
signed bits [] = err invalid_argument
signed bits (c ∷ s) =
    if c == b'-'
    then unsigned bits negate s
    else if c == b'+'
    then unsigned bits pos s
    else unsigned bits pos (c ∷ s)

-- `std::stoll`, and `std::stol`, which has as many bits.
unfoldable pub stoll : Text → Result ℤ
stoll s = signed 63 (skip_spaces s)

unfoldable pub stoi : Text → Result ℤ
stoi s = signed 31 (skip_spaces s)
