-- ===== src/SkipList/Laws.antt =====
-- What a transaction sees after `SkipList::put` (src/skiplist/skiplist.cpp).
use lsm_tree_engine.Prelude.{
  ◌&&◌, not, ℕ, ◌<◌, ◌≡◌, refl, sym, ◌∙◌, ap, ◌==◌, if◌then◌else◌, Bool, true, false, Bool-cases,
  ◌⊎◌, inl, inr, List, [], ◌∷◌, Option, none, some, ok, arith,
}
use mathlib.Core.Option.{some-injective}
use lsm_tree_engine.Prelude.Order.{eq_bytes, eq_bytes_iff}
use lsm_tree_engine.SkipList.{SkipList, Version, version_at, get, put}
use lsm_tree_engine.SkipList.Versions.{
  version_less, same_version, insert_version, find_version, is_visible, key_of,
}
use lsm_tree_engine.SkipList.Get.{version_of, get-find_version}
use lsm_tree_engine.SkipList.Putting.{put-Holds}
use lsm_tree_engine.SkipList.Invariant.{Holds}

-- A later version of the same key is hidden from the transaction.
less_hidden :
    (x : Version) (key value : List ℕ) (tranc_id : ℕ)
    → (tranc_id == 0) ≡ false
    → version_less x (key, value, tranc_id) ≡ true
    → eq_bytes (key_of x) key && is_visible tranc_id x ≡ false
unfolding version_less
less_hidden (a, v, t) key value tranc_id snapshot less = ground arith

own :
    (key value : List ℕ) (tranc_id : ℕ) (xs : List Version)
    → (tranc_id == 0) ≡ false
    → find_version key tranc_id ((key, value, tranc_id) ∷ xs) ≡ some (key, value, tranc_id)
unfolding find_version
own key value tranc_id xs snapshot = ground (arith, (eq_bytes_iff key key).1 refl)

pub find-insert_same :
    (key value : List ℕ) (tranc_id : ℕ) (xs : List Version)
    → (tranc_id == 0) ≡ false
    → find_version key tranc_id (insert_version (key, value, tranc_id) xs)
      ≡ some (key, value, tranc_id)
unfolding insert_version find_version
find-insert_same key value tranc_id [] snapshot = own key value tranc_id [] snapshot
find-insert_same key value tranc_id (x ∷ xs) snapshot =
    elim (Bool-cases (version_less x (key, value, tranc_id))) [
      | inl less ↦
          rw (less, less_hidden x key value tranc_id snapshot less)
            (find-insert_same key value tranc_id xs snapshot)
      | inr not_less ↦ elim (Bool-cases (same_version x (key, value, tranc_id))) [
        | inl same ↦ rw (not_less, same) (own key value tranc_id xs snapshot)
        | inr differ ↦ rw (not_less, differ) (own key value tranc_id (x ∷ xs) snapshot)
      ]
    ]

-- A version that is not of the key, or that the transaction does not see.
abbrev pub is_hidden : List ℕ → ℕ → Version → Bool
is_hidden key tranc_id x = not (eq_bytes (key_of x) key && is_visible tranc_id x)

same_hidden :
    (x e : Version) (key : List ℕ) (tranc_id : ℕ)
    → same_version x e ≡ true
    → is_hidden key tranc_id e ≡ true
    → is_hidden key tranc_id x ≡ true
same_hidden (a, v, t) (b, w, u) key tranc_id same hidden =
    let same_key : a ≡ b = (eq_bytes_iff a b).0 (ground arith) in
    let same_id : t ≡ u = ground arith in rw (same_key, same_id) hidden

skip :
    (x : Version) (key : List ℕ) (tranc_id : ℕ) (xs : List Version)
    → is_hidden key tranc_id x ≡ true
    → find_version key tranc_id (x ∷ xs) ≡ find_version key tranc_id xs
unfolding find_version
skip x key tranc_id xs hidden = ground arith

find-insert_hidden :
    (e : Version) (key : List ℕ) (tranc_id : ℕ) (xs : List Version)
    → is_hidden key tranc_id e ≡ true
    → find_version key tranc_id (insert_version e xs) ≡ find_version key tranc_id xs
unfolding insert_version find_version
find-insert_hidden e key tranc_id [] hidden = skip e key tranc_id [] hidden
find-insert_hidden e key tranc_id (x ∷ xs) hidden = elim (Bool-cases (version_less x e)) [
  | inl less ↦ rw less (
      ap
        (λ (rest : Option Version).
          if eq_bytes (key_of x) key && is_visible tranc_id x then some x else rest)
        (find-insert_hidden e key tranc_id xs hidden))
  | inr not_less ↦ elim (Bool-cases (same_version x e)) [
    | inl same ↦
        rw (not_less, same)
          (skip e key tranc_id xs hidden
            ∙ sym (skip x key tranc_id xs (same_hidden x e key tranc_id same hidden)))
    | inr differ ↦ rw (not_less, differ) (skip e key tranc_id (x ∷ xs) hidden)
  ]
]

found_some :
    (s : SkipList) (a : Option ℕ) (v : Version)
    → version_of s a ≡ some v
    → (b : ℕ) × (a ≡ some b) × (version_at s b ≡ v)
found_some s none v e = cc
found_some s (some b) v e = (b, refl, some-injective _ _ e)

-- After a transaction other than 0 puts a value into a well formed skip list, `get` of that key in the
-- same transaction gives a node with the key, the value and the transaction's id.
pub put-get :
    (coin : ℕ → Bool) (bits : ℕ) (s : SkipList) (versions : List Version)
    → Holds s versions
    → (key value : List ℕ) (tranc_id : ℕ) → (tranc_id == 0) ≡ false
    → (s' : SkipList) × (a : ℕ) × (put coin bits s key value tranc_id ≡ ok s')
      × (get s' key tranc_id ≡ ok (some a))
      × (version_at s' a ≡ (key, value, tranc_id))
put-get coin bits s versions h key value tranc_id snapshot =
    let (s', run, holds) = put-Holds coin bits s versions h key value tranc_id in
    let (a, found, answer) = get-find_version s' _ holds key tranc_id in
    let (b, e, same) =
      found_some s' a (key, value, tranc_id)
        (answer ∙ find-insert_same key value tranc_id versions snapshot) in
    (s', b, run, found ∙ ap ok e, same)

-- A `put` into a well formed skip list changes nothing for a `get` of another key, nor for one in an
-- earlier transaction other than 0: the `get` before it and the one after it succeed, and give the same
-- version or both none.
pub put-get_hidden :
    (coin : ℕ → Bool) (bits : ℕ) (s : SkipList) (versions : List Version)
    → Holds s versions
    → (key value : List ℕ) (tranc_id : ℕ) (other : List ℕ) (reader : ℕ)
    → (eq_bytes key other ≡ false) ⊎ ((0 < reader) × (reader < tranc_id))
    → (s' : SkipList) × (before : Option ℕ) × (after : Option ℕ) × (put coin bits s key value
          tranc_id
        ≡ ok s')
      × (get s other reader ≡ ok before)
      × (get s' other reader ≡ ok after)
      × (version_of s' after ≡ version_of s before)
put-get_hidden coin bits s versions h key value tranc_id other reader apart =
    let (s', run, holds) = put-Holds coin bits s versions h key value tranc_id in
    let (before, run₁, found₁) = get-find_version s versions h other reader in
    let (after, run₂, found₂) = get-find_version s' _ holds other reader in
    (
      s',
      before,
      after,
      run,
      run₁,
      run₂,
      found₂
          ∙ find-insert_hidden (key, value, tranc_id) other reader versions
              (elim apart [ inl differ ↦ ground arith | inr (low, high) ↦ ground arith ])
          ∙ sym found₁,
    )
