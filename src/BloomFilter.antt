-- ===== src/BloomFilter.antt =====
-- src/utils/bloom_filter.cpp: a Bloom filter. `std::hash<std::string>` is the parameter `hasher`, and
-- the sizes that the constructor computes with `double` logarithms are its arguments. A `double` is
-- its 64-bit pattern. An index past the bit vector is a fault, and so is `% 0`.
pub mod Members
mod Tests
use Prim.Native.Nat.{bit_or}
use lsm_tree_engine.Prelude.{
  ℕ, zero, suc, ◌+◌, ◌*◌, ◌/◌, ◌%◌, ◌^◌, ltb, ◌==◌, if◌then◌else◌, Bool, true, false, List, [], ◌∷◌,
  ◌++◌, length, get_elem?, set, replicate, Result, ok, err, ◌>>=◌, from_option, out_of_bounds,
  division_by_zero,
}
use lsm_tree_engine.Bytes.{to_bytes, load_int}

pub record BloomFilter : Type 0 where
  pub expected_elements : ℕ
  pub false_positive_rate : ℕ
  pub num_bits : ℕ
  pub num_hashes : ℕ
  pub bits : List Bool

unfoldable pub new_filter : ℕ → ℕ → ℕ → ℕ → BloomFilter
new_filter expected_elements false_positive_rate num_bits num_hashes = record {
  expected_elements = expected_elements;
  false_positive_rate = false_positive_rate;
  num_bits = num_bits;
  num_hashes = num_hashes;
  bits = replicate num_bits false;
}

-- `bits[at] = bit`.
pub write_bit : List Bool → ℕ → Bool → Result (List Bool)
write_bit bits at bit = if ltb at (length bits) then ok (set bits at bit) else err out_of_bounds

module _ (hasher : List ℕ → ℕ) where
  pub hash1 : List ℕ → ℕ
  hash1 key = hasher key

  pub hash2 : List ℕ → ℕ
  hash2 key = hasher (key ++ (b's' ∷ b'a' ∷ b'l' ∷ b't' ∷ []))

  -- `(h1 + idx * h2) % num_bits_`, on `size_t`.
  pub hash : ℕ → List ℕ → ℕ → Result ℕ
  hash num_bits key idx =
      if num_bits == 0
      then err division_by_zero
      else ok ((hash1 key + idx * hash2 key) % 2 ^ 64 % num_bits)

  -- The loop of `add` with `n` rounds left, from `i` on.
  pub add_loop : ℕ → List ℕ → ℕ → ℕ → List Bool → Result (List Bool)
  add_loop num_bits key zero i bits = ok bits
  add_loop num_bits key (suc n) i bits = do
    at ← hash num_bits key i
    bits' ← write_bit bits at true
    add_loop num_bits key n (i + 1) bits'

  pub add : BloomFilter → List ℕ → Result BloomFilter
  add f key = do bits ← add_loop f.num_bits key f.num_hashes 0 f.bits; ok (record f { bits = bits })

  pub contains_loop : ℕ → List ℕ → ℕ → ℕ → List Bool → Result Bool
  contains_loop num_bits key zero i bits = ok true
  contains_loop num_bits key (suc n) i bits = do
    at ← hash num_bits key i
    bit ← from_option out_of_bounds (get_elem? bits at)
    elim bit [ false ↦ ok false | true ↦ contains_loop num_bits key n (i + 1) bits ]

  pub possibly_contains : BloomFilter → List ℕ → Result Bool
  possibly_contains f key = contains_loop f.num_bits key f.num_hashes 0 f.bits

-- `byte |= bits[at] << j`.
abbrev pub as_number : Bool → ℕ
as_number true = 1
as_number false = 0

-- The rounds of the inner loop of `encode` left, from `j` on.
pub pack_byte : ℕ → List Bool → ℕ → ℕ → ℕ → ℕ → Result ℕ
pack_byte num_bits bits i zero j byte = ok byte
pack_byte num_bits bits i (suc n) j byte =
    let skip = pack_byte num_bits bits i n (j + 1) byte in
    let pack = (do
      bit ← from_option out_of_bounds (get_elem? bits (i * 8 + j))
      pack_byte num_bits bits i n (j + 1) (bit_or byte (as_number bit * 2 ^ j % 256))) in
    if ltb (i * 8 + j) num_bits then pack else skip

pub pack_bytes : ℕ → List Bool → ℕ → ℕ → List ℕ → Result (List ℕ)
pack_bytes num_bits bits zero i bytes = ok bytes
pack_bytes num_bits bits (suc n) i bytes = do
  byte ← pack_byte num_bits bits i 8 0 0
  pack_bytes num_bits bits n (i + 1) (bytes ++ (byte ∷ []))

pub encode : BloomFilter → Result (List ℕ)
encode f = pack_bytes f.num_bits f.bits ((f.num_bits + 7) % 2 ^ 64 / 8) 0 (
    ((to_bytes 8 f.expected_elements ++ to_bytes 8 f.false_positive_rate) ++ to_bytes 8 f.num_bits)
    ++ to_bytes 8 f.num_hashes)

-- `(byte >> j) & 1`.
abbrev pub bit_of : ℕ → ℕ → Bool
bit_of byte j = byte / 2 ^ j % 2 == 1

pub unpack_byte : ℕ → ℕ → ℕ → ℕ → ℕ → List Bool → Result (List Bool)
unpack_byte num_bits byte i zero j bits = ok bits
unpack_byte num_bits byte i (suc n) j bits =
    let skip = unpack_byte num_bits byte i n (j + 1) bits in
    let unpack = (do
      bits' ← write_bit bits (i * 8 + j) (bit_of byte j)
      unpack_byte num_bits byte i n (j + 1) bits') in
    if ltb (i * 8 + j) num_bits then unpack else skip

-- The rounds of the outer loop of `decode` left; `idx` is where the next byte is read.
pub unpack_bytes : ℕ → List ℕ → ℕ → ℕ → ℕ → List Bool → Result (List Bool)
unpack_bytes num_bits data_bytes zero i idx bits = ok bits
unpack_bytes num_bits data_bytes (suc n) i idx bits = do
  byte ← from_option out_of_bounds (get_elem? data_bytes idx)
  bits' ← unpack_byte num_bits byte i 8 0 bits
  unpack_bytes num_bits data_bytes n (i + 1) (idx + 1) bits'

pub decode : List ℕ → Result BloomFilter
decode data_bytes = do
  expected_elements ← load_int 8 data_bytes 0
  false_positive_rate ← load_int 8 data_bytes 8
  num_bits ← load_int 8 data_bytes 16
  num_hashes ← load_int 8 data_bytes 24
  bits ←
      unpack_bytes num_bits data_bytes ((num_bits + 7) % 2 ^ 64 / 8) 0 32 (replicate num_bits false)
  ok (record {
    expected_elements = expected_elements;
    false_positive_rate = false_positive_rate;
    num_bits = num_bits;
    num_hashes = num_hashes;
    bits = bits;
  })
