-- ===== src/Sst/Finding.antt =====
-- `SST::find_block_idx` (src/sst/sst.cpp) against a search from the first block on.
use lsm_tree_engine.Prelude.{
  suc, ◌-◌, ◌/◌, Option, Result, ok, err, out_of_bounds, arith, lt→ltb, le→ltb, lt→leb, le→leb,
  get_elem?-some, get_elem?-lt, length, ◌⊎◌, ◌+◌, ◌≤◌, subst, sym, ap, ◌∙◌, Bool-cases, inl, inr, ℕ,
  zero, ◌<◌, ◌≡◌, refl, if◌then◌else◌, true, false, List, [], ◌∷◌, get_elem?, none, some,
}
use lsm_tree_engine.Sst.{Sst, find_loop, find_block_idx}
use lsm_tree_engine.BloomFilter.{BloomFilter}
use mathlib.Core.Option.{some-injective}
use native.Mathlib.Decide.{dec_lt}
use lsm_tree_engine.Prelude.Order.{lt_bytes_trans, lt_bytes-le, lt_bytes}
use lsm_tree_engine.BlockMeta.{BlockMeta}

abbrev pub one_more : Option ℕ → Option ℕ
one_more none = none
one_more (some i) = some (suc i)

-- The first block that does not end before the key.
unfoldable pub first_reaching : List BlockMeta → List ℕ → Option ℕ
first_reaching [] key = none
first_reaching (meta ∷ metas) key =
    let rest = one_more (first_reaching metas key) in
    if lt_bytes meta.last_key key then rest else some 0

-- Each block ends where it begins or later, and before the next ones begin.
pub record IsSorted (metas : List BlockMeta) : Type 0 where
  pub in_order :
      (i : ℕ) (meta : BlockMeta)
      → get_elem? metas i ≡ some meta
      → lt_bytes meta.last_key meta.first_key ≡ false
  pub apart :
      (i j : ℕ) (meta meta' : BlockMeta)
      → i < j
      → get_elem? metas i ≡ some meta
      → get_elem? metas j ≡ some meta'
      → lt_bytes meta.last_key meta'.first_key ≡ true

first_reaching_end :
    (metas : List BlockMeta) (key : List ℕ)
    → ((i : ℕ) (meta : BlockMeta)
        → get_elem? metas i ≡ some meta
        → lt_bytes meta.last_key key ≡ true)
    → first_reaching metas key ≡ none
unfolding first_reaching
first_reaching_end [] key before = refl
first_reaching_end (meta ∷ metas) key before =
    rw (before 0 meta refl, first_reaching_end metas key (λ i. before (suc i))) refl

first_reaching_at :
    (metas : List BlockMeta) (key : List ℕ) (n : ℕ) (meta : BlockMeta)
    → get_elem? metas n ≡ some meta
    → lt_bytes meta.last_key key ≡ false
    → ((i : ℕ) (m : BlockMeta)
        → i < n
        → get_elem? metas i ≡ some m
        → lt_bytes m.last_key key ≡ true)
    → first_reaching metas key ≡ some n
unfolding first_reaching
first_reaching_at [] key n meta at reaches before = cc
first_reaching_at (m ∷ metas) key zero meta at reaches before =
    let same : m ≡ meta = cc in rw (same, reaches) refl
first_reaching_at (m ∷ metas) key (suc n) meta at reaches before =
    rw
      (
        before 0 m (omega arith) refl,
        first_reaching_at metas key n meta at reaches (λ i m' h. before (suc i) m' (omega arith)),
      )
      refl

module _ (metas : List BlockMeta) (sorted : IsSorted metas) (key : List ℕ) where
  -- The blocks before a place end before the key, and those from a place on do not.
  abbrev Before : ℕ → Type 0
  Before n =
      (i : ℕ) (m : BlockMeta) → i < n → get_elem? metas i ≡ some m → lt_bytes m.last_key key ≡ true

  abbrev From : ℕ → Type 0
  From n =
      (i : ℕ) (m : BlockMeta) → n ≤ i → get_elem? metas i ≡ some m → lt_bytes m.last_key key ≡ false

  module _ (mid : ℕ) (meta : BlockMeta) (at : get_elem? metas mid ≡ some meta) where
    ahead : lt_bytes key meta.first_key ≡ true → From mid
    ahead less i m le there = elim (Bool-cases (lt_bytes m.last_key key)) [
      | inr fine ↦ fine
      | inl early ↦
          let below : lt_bytes m.last_key meta.first_key ≡ true =
            lt_bytes_trans _ key _ early less in
          elim (dec_lt mid i) [
            | no p ↦
                let same : mid ≡ i = omega arith in
                let e : meta ≡ m =
                  some-injective _ _ (sym at ∙ ap (get_elem? metas) same ∙ there) in
                cc (sorted.in_order mid meta at, below, e)
            | yes p ↦
                let short : lt_bytes m.last_key meta.last_key ≡ true =
                  lt_bytes-le _ meta.first_key _ below (sorted.in_order mid meta at) in
                cc (
                  lt_bytes_trans _ meta.last_key _ short (sorted.apart mid i meta m p at there),
                  sorted.in_order i m there,
                )
          ]
    ]

    behind :
        (i : ℕ) (m : BlockMeta)
        → i < mid
        → get_elem? metas i ≡ some m
        → lt_bytes meta.last_key key ≡ true
        → lt_bytes m.last_key key ≡ true
    behind i m lt there late =
        lt_bytes_trans _ meta.last_key _
          (lt_bytes-le _ meta.first_key _ (sorted.apart i mid m meta lt there at)
            (sorted.in_order mid meta at))
          late

    past : lt_bytes meta.last_key key ≡ true → Before (mid + 1)
    past late i m lt there = elim (dec_lt i mid) [
      | yes p ↦ behind i m p there late
      | no p ↦
          let same : mid ≡ i = omega arith in
          let e : meta ≡ m = some-injective _ _ (sym at ∙ ap (get_elem? metas) same ∙ there) in
          subst (λ (x : BlockMeta). lt_bytes x.last_key key ≡ true) e late
    ]

    inside : lt_bytes key meta.first_key ≡ false → Before mid
    inside reached i m lt there =
        lt_bytes-le _ meta.first_key _ (sorted.apart i mid m meta lt there at) reached

  find_loop-first_reaching :
      (fuel left hi : ℕ)
      → hi - left < fuel
      → left ≤ hi
      → hi ≤ length metas
      → Before left
      → From hi
      → find_loop metas key fuel left hi ≡ ok (first_reaching metas key)
  unfolding find_loop
  find_loop-first_reaching zero left hi room le in_range before from = elim room [ ]
  find_loop-first_reaching (suc fuel) left hi room le in_range before from = elim (dec_lt left hi) [
    | yes more ↦
        let mid = left + (hi - 1 - left) / 2 in
        let (meta, at) = get_elem?-some metas mid (omega arith) in
        elim (Bool-cases (lt_bytes key meta.first_key)) [
          | inl less ↦
              rw (lt→ltb left hi more, at, find_loop, less)
                (find_loop-first_reaching fuel left mid (omega arith) (omega arith) (omega arith)
                  before (ahead mid meta at less))
          | inr reached ↦ elim (Bool-cases (lt_bytes meta.last_key key)) [
            | inl late ↦
                rw (lt→ltb left hi more, at, find_loop, reached, late)
                  (find_loop-first_reaching fuel (mid + 1) hi (omega arith) (omega arith) in_range
                    (past mid meta at late) from)
            | inr reaches ↦
                rw (lt→ltb left hi more, at, find_loop, reached, reaches)
                  (ap ok (
                    sym (
                      first_reaching_at metas key mid meta at reaches
                        (inside mid meta at reached))))
          ]
        ]
    | no none_left ↦ elim (dec_lt left (length metas)) [
      | yes more ↦
          let (meta, at) = get_elem?-some metas left more in
          rw (le→ltb left hi (omega arith), lt→leb (length metas) left more)
            (ap ok (
              sym (
                first_reaching_at metas key left meta at (from left meta (omega arith) at) before)))
      | no done ↦
          rw (le→ltb left hi (omega arith), le→leb (length metas) left (omega arith))
            (ap ok (
              sym (
                first_reaching_end metas key
                  λ i m there. before i m (ground (arith, get_elem?-lt metas i m there)) there)))
    ]
  ]

Option-cases : {A : Type 0} (o : Option A) → (o ≡ none) ⊎ ((a : A) × (o ≡ some a))
Option-cases none = inl refl
Option-cases (some a) = inr (a, refl)

-- What the search answers with a filter and without one.
abbrev pub answer_with : Option BloomFilter → Option ℕ → Result (Option ℕ)
answer_with none idx = err out_of_bounds
answer_with (some filter) idx = ok idx

-- On a file with a filter the binary search ends, reads inside the list of blocks, and answers what a search from the
-- first block on would: the first block that does not end before the key, or nothing. For blocks each of which ends
-- where it begins or later, and before the next ones begin; for a file without a filter it goes through a null pointer.
pub find_block_idx-first_reaching :
    (sst : Sst) (key : List ℕ)
    → IsSorted sst.meta_entries
    → find_block_idx sst key ≡ answer_with sst.bloom_filter (first_reaching sst.meta_entries key)
unfolding find_block_idx
find_block_idx-first_reaching sst key sorted = elim (Option-cases sst.bloom_filter) [
  | inl missing ↦ rw missing refl
  | inr (filter, there) ↦ rw there (
      find_loop-first_reaching sst.meta_entries sorted key (suc (length sst.meta_entries)) 0
        (length sst.meta_entries) (omega arith) (omega arith) (omega arith) (λ i m lt. elim lt [ ])
        (λ i m le at. absurd (ground (arith, get_elem?-lt sst.meta_entries i m at))))
]
