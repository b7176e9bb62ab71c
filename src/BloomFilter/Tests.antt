-- ===== src/BloomFilter/Tests.antt =====
-- Concrete runs of the Bloom filter (src/utils/bloom_filter.cpp), with the sum of a key's bytes for its
-- hash, and its theorems at concrete inputs.
use lsm_tree_engine.Prelude.{ℕ, ◌+◌, ◌≡◌, refl, List, [], ◌∷◌, All, true, false, ok, ◌>>=◌, arith}
use lsm_tree_engine.BloomFilter.{
  BloomFilter, new_filter, hash, hash1, hash2, write_bit, add_loop, add, contains_loop,
  possibly_contains, pack_byte, pack_bytes, encode, unpack_byte, unpack_bytes, decode,
}
use lsm_tree_engine.BloomFilter.Members.{IsValid, add_all, possibly_contains-add_all}
use lsm_tree_engine.Bytes.{to_bytes, from_bytes, load, load_int}

abbrev byte_sum : List ℕ → ℕ
byte_sum [] = 0
byte_sum (x ∷ xs) = x + byte_sum xs

abbrev small : BloomFilter
small = new_filter 2 0 11 2

abbrev words : List (List ℕ)
words = (b'a' ∷ []) ∷ (b'b' ∷ b'c' ∷ []) ∷ []

small-IsValid : IsValid small
unfolding new_filter
small-IsValid = record { sized = refl; positive = omega arith }

empty_denies : possibly_contains byte_sum small (b'a' ∷ []) ≡ ok false
unfolding new_filter possibly_contains contains_loop hash hash1 hash2
empty_denies = refl

-- The encoded form of a filter with two keys is read back.
round_trip :
    (add_all byte_sum small words >>= λ f. encode f >>= decode) ≡ add_all byte_sum small words
unfolding new_filter add_all add add_loop write_bit hash hash1 hash2 encode pack_bytes pack_byte
    decode unpack_bytes unpack_byte to_bytes from_bytes load load_int
round_trip = refl

possibly_contains-add_all_example :
    (f : BloomFilter) × (add_all byte_sum (new_filter 2 0 11 2) words ≡ ok f)
    × All (λ key. possibly_contains byte_sum f key ≡ ok true) words
possibly_contains-add_all_example = possibly_contains-add_all byte_sum 2 0 11 2 words (omega arith)
