-- ===== src/Bytes.antt =====
-- Memory as the engine uses it: `memcpy` between integers and byte vectors. A `std::vector<uint8_t>`
-- or a `std::string` is a list of numbers, integers are laid out with the lowest byte first (as on
-- the x86-64 that the build targets), and `size_t` arithmetic wraps at 2 ^ 64.
pub mod Layout
use lsm_tree_engine.Prelude.{
  ℕ, zero, suc, ◌+◌, ◌-◌, ◌*◌, ◌/◌, ◌%◌, ◌^◌, ◌<◌, leb, if◌then◌else◌, List, [], ◌∷◌, ◌++◌, length,
  take, drop, Result, ok, err, ◌>>=◌, out_of_bounds,
}

abbrev pub IsByte : ℕ → Type 0
IsByte b = b < 256

-- Conversions to `uint16_t`, `uint32_t` and `uint64_t`.
abbrev pub u16 : ℕ → ℕ
u16 n = n % 2 ^ 16

abbrev pub u32 : ℕ → ℕ
u32 n = n % 2 ^ 32

-- `a - b` on `size_t`.
abbrev pub sub_size : ℕ → ℕ → ℕ
sub_size a b = (a + 2 ^ 64 - b % 2 ^ 64) % 2 ^ 64

-- The bytes of an integer of `w` bytes, and the integer that bytes stand for.
unfoldable pub to_bytes : ℕ → ℕ → List ℕ
to_bytes zero v = []
to_bytes (suc w) v = (v % 256) ∷ to_bytes w (v / 256)

unfoldable pub from_bytes : List ℕ → ℕ
from_bytes [] = 0
from_bytes (b ∷ bs) = b + 256 * from_bytes bs

-- `memcpy(local, data.data() + pos, n)`: the bytes read.
unfoldable pub load : List ℕ → ℕ → ℕ → Result (List ℕ)
load xs pos n = if leb (pos + n) (length xs) then ok (take n (drop pos xs)) else err out_of_bounds

-- The same into an integer of `w` bytes.
unfoldable pub load_int : ℕ → List ℕ → ℕ → Result ℕ
load_int w xs pos = do bytes ← load xs pos w; ok (from_bytes bytes)

-- `memcpy(data.data() + pos, source, source size)`: the buffer after the write.
unfoldable pub store : List ℕ → ℕ → List ℕ → Result (List ℕ)
store xs pos bytes =
    if leb (pos + length bytes) (length xs)
    then ok (take pos xs ++ (bytes ++ drop (pos + length bytes) xs))
    else err out_of_bounds

-- The bytes of a vector of integers of `w` bytes, and back for a known count.
unfoldable pub ints_to_bytes : ℕ → List ℕ → List ℕ
ints_to_bytes w [] = []
ints_to_bytes w (v ∷ vs) = to_bytes w v ++ ints_to_bytes w vs

unfoldable pub ints_from_bytes : ℕ → ℕ → List ℕ → List ℕ
ints_from_bytes w zero bytes = []
ints_from_bytes w (suc n) bytes = from_bytes (take w bytes) ∷ ints_from_bytes w n (drop w bytes)
