-- ===== src/SkipList/Keys.antt =====
-- The first visible version of a key among sorted ones (specification of `SkipList::get`,
-- src/skiplist/skiplist.cpp).
use lsm_tree_engine.Prelude.{
  ℕ, ◌≡◌, refl, true, false, Bool-cases, inl, inr, List, [], ◌∷◌, ◌++◌, All, none, arith,
}
use lsm_tree_engine.Prelude.Order.{eq_bytes, lt_bytes, eq_bytes_iff, compare_bytes_self}
use lsm_tree_engine.SkipList.{Version}
use lsm_tree_engine.SkipList.Insertion.{lt_bytes_total}
use lsm_tree_engine.SkipList.Versions.{IsSorted, version_less, key_of, find_version, lt_bytes_trans}

-- Behind a greater key stand greater keys.
key_behind :
    (x y : Version) (key : List ℕ)
    → version_less x y ≡ true
    → lt_bytes key (key_of x) ≡ true
    → lt_bytes key (key_of y) ≡ true
unfolding version_less
key_behind (a, v, t) (b, w, u) key h k =
    ground (arith, lt_bytes_trans key a b, (eq_bytes_iff a b).0)

less_apart : (a b : List ℕ) → lt_bytes b a ≡ true → eq_bytes a b ≡ false
less_apart a b h = elim (Bool-cases (eq_bytes a b)) [
  | inl e ↦ absurd (ground (arith, (eq_bytes_iff a b).0, compare_bytes_self a))
  | inr differ ↦ differ
]

less_apart_left : (a b : List ℕ) → lt_bytes a b ≡ true → eq_bytes a b ≡ false
less_apart_left a b h = elim (Bool-cases (eq_bytes a b)) [
  | inl e ↦ absurd (ground (arith, (eq_bytes_iff a b).0, compare_bytes_self a))
  | inr differ ↦ differ
]

find_version_apart :
    (key : List ℕ) (tranc_id : ℕ) (xs : List Version)
    → All (λ x. eq_bytes (key_of x) key ≡ false) xs
    → find_version key tranc_id xs ≡ none
unfolding find_version
find_version_apart key tranc_id [] h = refl
find_version_apart key tranc_id (x ∷ xs) (apart, h) =
    rw apart (find_version_apart key tranc_id xs h)

pub find_version-append :
    (key : List ℕ) (tranc_id : ℕ) (xs ys : List Version)
    → All (λ x. lt_bytes (key_of x) key ≡ true) xs
    → find_version key tranc_id (xs ++ ys) ≡ find_version key tranc_id ys
unfolding find_version
find_version-append key tranc_id [] ys h = refl
find_version-append key tranc_id (x ∷ xs) ys (less, h) =
    rw (less_apart_left (key_of x) key less) (find_version-append key tranc_id xs ys h)

-- From a first version with another key, the key does not come any more.
behind_apart :
    (key : List ℕ) (x : Version) (xs : List Version)
    → lt_bytes key (key_of x) ≡ true
    → All (λ y. version_less x y ≡ true) xs
    → All (λ y. eq_bytes (key_of y) key ≡ false) xs
behind_apart key x [] greater h = tt
behind_apart key x (y ∷ xs) greater (less, h) =
    (less_apart (key_of y) key (key_behind x y key less greater), behind_apart key x xs greater h)

pub find_version_past :
    (key : List ℕ) (tranc_id : ℕ) (x : Version) (xs : List Version)
    → lt_bytes (key_of x) key ≡ false
    → eq_bytes (key_of x) key ≡ false
    → IsSorted (x ∷ xs)
    → find_version key tranc_id (x ∷ xs) ≡ none
find_version_past key tranc_id x xs not_less differ (less, sorted) =
    find_version_apart key tranc_id (x ∷ xs)
      (differ, behind_apart key x xs (lt_bytes_total (key_of x) key not_less differ) less)
