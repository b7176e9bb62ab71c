-- ===== src/BloomFilter/Members.antt =====
-- A Bloom filter (src/utils/bloom_filter.cpp) never denies a key that was added.
use native.Mathlib.Nat.{mod-lt}
use lsm_tree_engine.Prelude.{
  ◌%◌, ◌^◌, ◌*◌, ℕ, zero, suc, ◌+◌, ◌<◌, ◌≡◌, refl, ◌∙◌, lt→ltb, Bool, true, false, List, [], ◌∷◌,
  length, get_elem?, set, Result, ok, ◌>>=◌, arith, length-set, length-replicate, All, some,
}
use lsm_tree_engine.BloomFilter.{
  BloomFilter, new_filter, hash, hash1, hash2, write_bit, add_loop, add, contains_loop,
  possibly_contains,
}

-- The bit vector has the length that the filter says, and is not empty.
pub record IsValid (f : BloomFilter) : Type 0 where
  pub sized : length f.bits ≡ f.num_bits
  pub positive : 0 < f.num_bits

-- Every bit set in one vector is set in the other.
abbrev Covers : List Bool → List Bool → Type 0
Covers before after =
    (length after ≡ length before)
    × ((at : ℕ) → get_elem? before at ≡ some true → get_elem? after at ≡ some true)

get_elem?-set-true :
    (bits : List Bool) (i at : ℕ)
    → get_elem? bits at ≡ some true
    → get_elem? (set bits i true) at ≡ some true
get_elem?-set-true [] i at h = h
get_elem?-set-true (b ∷ bits) zero zero h = refl
get_elem?-set-true (b ∷ bits) zero (suc at) h = h
get_elem?-set-true (b ∷ bits) (suc i) zero h = h
get_elem?-set-true (b ∷ bits) (suc i) (suc at) h = get_elem?-set-true bits i at h

get_elem?-set_self :
    (bits : List Bool) (i : ℕ) (bit : Bool)
    → i < length bits
    → get_elem? (set bits i bit) i ≡ some bit
get_elem?-set_self [] i bit h = elim h [ ]
get_elem?-set_self (b ∷ bits) zero bit h = refl
get_elem?-set_self (b ∷ bits) (suc i) bit h = get_elem?-set_self bits i bit (omega arith)

module _ (hasher : List ℕ → ℕ) (num_bits : ℕ) (positive : 0 < num_bits) where
  hash_in_range :
      (key : List ℕ) (i : ℕ) → (at : ℕ) × (hash hasher num_bits key i ≡ ok at) × (at < num_bits)
  unfolding hash
  hash_in_range key i = (
    (hash1 hasher key + i * hash2 hasher key) % 2 ^ 64 % num_bits,
    ground arith,
    mod-lt _ positive,
  )

  -- The loop of `add` ends without a fault, keeps the bits that were set, and sets those of the key.
  add_loop_lem :
      (key : List ℕ) (n i : ℕ) (bits : List Bool)
      → length bits ≡ num_bits
      → (after : List Bool) × (add_loop hasher num_bits key n i bits ≡ ok after)
        × Covers bits after
        × (contains_loop hasher num_bits key n i after ≡ ok true)
  unfolding add_loop contains_loop write_bit
  add_loop_lem key zero i bits sized = (bits, refl, (refl, λ at h. h), refl)
  add_loop_lem key (suc n) i bits sized =
      let (at, placed, inside) = hash_in_range key i in
      let marked : List Bool = set bits at true in
      let (after, run, (same, keeps), found) =
        add_loop_lem key n (i + 1) marked (length-set bits at true ∙ sized) in
      (
        after,
        rw (placed, lt→ltb at (length bits) (omega arith)) run,
        (same ∙ length-set bits at true, λ k h. keeps k (get_elem?-set-true bits at k h)),
        rw (placed, keeps at (get_elem?-set_self bits at true (omega arith))) found,
      )

  -- More bits do not hide a key.
  contains_loop_mono :
      (key : List ℕ) (n i : ℕ) (before after : List Bool)
      → Covers before after
      → contains_loop hasher num_bits key n i before ≡ ok true
      → contains_loop hasher num_bits key n i after ≡ ok true
  unfolding contains_loop
  contains_loop_mono key zero i before after covers h = refl
  contains_loop_mono key (suc n) i before after covers h =
      let (at, placed, inside) = hash_in_range key i in
      let h' = rw placed at h in
      rw placed
        (ground (arith, h', covers.1 at, contains_loop_mono key n (i + 1) before after covers))

-- Adding a list of keys one after the other.
unfoldable pub add_all : (List ℕ → ℕ) → BloomFilter → List (List ℕ) → Result BloomFilter
add_all hasher f [] = ok f
add_all hasher f (key ∷ keys) = do f' ← add hasher f key; add_all hasher f' keys

module _ (hasher : List ℕ → ℕ) where
  -- On a valid filter `add` returns a valid filter with the same sizes that answers `true` for the key
  -- and for every key for which the filter answered `true` before.
  pub add_keeps :
      (f : BloomFilter) (key : List ℕ)
      → IsValid f
      → (f' : BloomFilter) × (add hasher f key ≡ ok f')
        × IsValid f'
        × (possibly_contains hasher f' key ≡ ok true)
        × ((other : List ℕ)
            → possibly_contains hasher f other ≡ ok true
            → possibly_contains hasher f' other ≡ ok true)
  unfolding add possibly_contains
  add_keeps f key valid =
      let (after, run, covers, found) =
        add_loop_lem hasher f.num_bits valid.positive key f.num_hashes 0 f.bits valid.sized in
      (
        record f { bits = after },
        rw run refl,
        record { sized = covers.0 ∙ valid.sized; positive = valid.positive },
        found,
        λ other h.
            contains_loop_mono hasher f.num_bits valid.positive other f.num_hashes 0 f.bits after
              covers h,
      )

  add_all_lem :
      (f : BloomFilter) (keys : List (List ℕ))
      → IsValid f
      → (f' : BloomFilter) × (add_all hasher f keys ≡ ok f')
        × IsValid f'
        × All (λ key. possibly_contains hasher f' key ≡ ok true) keys
        × ((other : List ℕ)
            → possibly_contains hasher f other ≡ ok true
            → possibly_contains hasher f' other ≡ ok true)
  unfolding add_all
  add_all_lem f [] valid = (f, refl, valid, tt, λ other h. h)
  add_all_lem f (key ∷ keys) valid =
      let (f₁, run₁, valid₁, found, keeps₁) = add_keeps f key valid in
      let (f₂, run₂, valid₂, all, keeps₂) = add_all_lem f₁ keys valid₁ in
      (f₂, rw run₁ run₂, valid₂, (keeps₂ key found, all), λ other h. keeps₂ other (keeps₁ other h))

  -- Adding keys to a filter as the constructor leaves it, with at least one bit, ends without a fault,
  -- and `possibly_contains` then answers `true` for each of them: no false negatives.
  pub possibly_contains-add_all :
      (expected_elements rate num_bits num_hashes : ℕ) (keys : List (List ℕ))
      → 0 < num_bits
      → (f : BloomFilter) × (add_all hasher
            (new_filter expected_elements rate num_bits num_hashes)
            keys
          ≡ ok f)
        × All (λ key. possibly_contains hasher f key ≡ ok true) keys
  unfolding new_filter
  possibly_contains-add_all expected_elements rate num_bits num_hashes keys positive =
      let (f, run, valid, all, keeps) =
        add_all_lem (new_filter expected_elements rate num_bits num_hashes) keys
          (record { sized = length-replicate num_bits false; positive = positive }) in
      (f, run, all)
