-- ===== src/Block/Search/Sorted.antt =====
-- What the lookups of a block (src/block/block.cpp) are to find, and the order they rely on: equal
-- keys side by side, the newest transaction first.
use lsm_tree_engine.Block.{out_of_bounds, err, ok, Result, Entry}
use lsm_tree_engine.Prelude.{
  ℕ, zero, suc, ◌≤◌, ◌<◌, ◌≡◌, ◌≢◌, Result, ok, err, out_of_bounds, refl, sym, ◌∙◌, leb, ◌==◌, Bool,
  true, false, ◌||◌, List, [], ◌∷◌, length, get_elem?, Ordering, ◌⊎◌, inl, inr, Option, none, some,
  arith,
}
use lsm_tree_engine.Prelude.Order.{compare_bytes, compare_bytes_self, compare_bytes_trans}

abbrev pub blank : Entry
blank = record { key = []; value = []; tranc_id = 0 }

-- The entry at an index; `blank` past the end.
abbrev pub nth : List Entry → ℕ → Entry
nth [] i = blank
nth (e ∷ es) zero = e
nth (e ∷ es) (suc i) = nth es i

pub get_elem?-nth : (es : List Entry) (i : ℕ) → i < length es → get_elem? es i ≡ some (nth es i)
get_elem?-nth [] i h = elim h [ ]
get_elem?-nth (e ∷ es) zero h = refl
get_elem?-nth (e ∷ es) (suc i) h = get_elem?-nth es i (omega arith)

-- An earlier entry has the smaller key, or the same key and no smaller transaction id.
abbrev pub Before : Entry → Entry → Type 0
Before e f =
    (compare_bytes e.key f.key ≡ Ordering.lt) ⊎ ((e.key ≡ f.key) × (f.tranc_id ≤ e.tranc_id))

abbrev pub IsSorted : List Entry → Type 0
IsSorted es = (i j : ℕ) → i < j → j < length es → Before (nth es i) (nth es j)

-- Transaction id 0 sees every version, any other the versions up to itself.
abbrev pub visible : ℕ → Entry → Bool
visible tranc_id e = tranc_id == 0 || leb e.tranc_id tranc_id

-- No version of the key that is visible stands before an index.
abbrev pub HiddenBefore : List Entry → List ℕ → ℕ → ℕ → Type 0
HiddenBefore es key tranc_id i =
    (j : ℕ) → j < i → (nth es j).key ≡ key → visible tranc_id (nth es j) ≡ false

-- The index of the newest visible version of a key, or the fact that there is none.
abbrev pub Newest : List Entry → List ℕ → ℕ → Option ℕ → Type 0
Newest es key tranc_id (some i) =
    (i < length es)
    × ((nth es i).key ≡ key)
    × (visible tranc_id (nth es i) ≡ true)
    × HiddenBefore es key tranc_id i
Newest es key tranc_id none = HiddenBefore es key tranc_id (length es)

-- What `adjust_idx_by_tranc_id` answers at an entry with the key: the newest visible version, where
-- the bytes of `key_len` that are not written happen to be zero or no transaction asks; otherwise a
-- read outside the block.
abbrev pub Adjusts : ℕ → List Entry → List ℕ → ℕ → Result (Option ℕ) → Type 0
Adjusts stale es key tranc_id (ok found) =
    ((stale ≡ 0) ⊎ (tranc_id ≡ 0)) × Newest es key tranc_id found
Adjusts stale es key tranc_id (err e) = (e ≡ out_of_bounds) × (stale ≢ 0) × (tranc_id ≢ 0)

-- The key does not stand.
abbrev pub Missing : List Entry → List ℕ → Type 0
Missing es key = (j : ℕ) → j < length es → ¬ ((nth es j).key ≡ key)

-- What the search answers: an index where the key stands and no version of it is visible, or nothing
-- where the key is missing or where a version of it is visible.
abbrev pub Answers : List Entry → List ℕ → ℕ → Option ℕ → Type 0
Answers es key tranc_id (some i) =
    (i < length es) × ((nth es i).key ≡ key) × HiddenBefore es key tranc_id (length es)
Answers es key tranc_id none = Missing es key ⊎ ((i : ℕ) × Newest es key tranc_id (some i))

-- The same, and where it ends so: where the bytes of `key_len` that are not written happen to be zero,
-- no transaction asks or the key does not stand; otherwise it reads outside the block.
abbrev pub Searches : ℕ → List Entry → List ℕ → ℕ → Result (Option ℕ) → Type 0
Searches stale es key tranc_id (ok found) =
    ((stale ≡ 0) ⊎ ((tranc_id ≡ 0) ⊎ Missing es key)) × Answers es key tranc_id found
Searches stale es key tranc_id (err e) =
    (e ≡ out_of_bounds)
    × (stale ≢ 0)
    × (tranc_id ≢ 0)
    × ((i : ℕ) × (i < length es) × ((nth es i).key ≡ key))

lt_not_self : (k : List ℕ) → ¬ (compare_bytes k k ≡ Ordering.lt)
lt_not_self k h = ground (arith, compare_bytes_self k)

module _ (es : List Entry) (sorted : IsSorted es) where
  -- Among equal keys the transaction ids fall.
  pub ids_fall :
      (i j : ℕ)
      → i < j
      → j < length es
      → (nth es i).key ≡ (nth es j).key
      → (nth es j).tranc_id ≤ (nth es i).tranc_id
  ids_fall i j lt h e = elim (sorted i j lt h) [
    | inl less ↦ absurd (lt_not_self (nth es j).key (rw e at less))
    | inr (same, le) ↦ le
  ]

  -- Equal keys stand side by side.
  pub keys_convex :
      (i m j : ℕ)
      → i < m
      → m < j
      → j < length es
      → (nth es i).key ≡ (nth es j).key
      → (nth es m).key ≡ (nth es j).key
  keys_convex i m j p q h e = elim (sorted m j q h) [
    | inr (same, le) ↦ same
    | inl less ↦ elim (sorted i m p (omega arith)) [
      | inr (same, le) ↦ sym same ∙ e
      | inl less' ↦ absurd (
          lt_not_self (nth es j).key
            (rw e at (compare_bytes_trans (nth es i).key (nth es m).key (nth es j).key less' less)))
    ]
  ]
