-- ===== src/SkipList/Runs.antt =====
-- Any calls of `SkipList::put` on a new list, then `flush` and `get_size` (src/skiplist/skiplist.cpp).
use lsm_tree_engine.Prelude.{
  ℕ, ◌<◌, ◌≡◌, refl, ◌%◌, ◌^◌, Bool, List, [], ◌∷◌, Result, ok, ◌>>=◌, subst,
}
use lsm_tree_engine.SkipList.{SkipList, Version, put, new_list, flush, get_size}
use lsm_tree_engine.SkipList.Versions.{insert_version, total_size, IsSorted}
use lsm_tree_engine.SkipList.Get.{flush-versions}
use lsm_tree_engine.SkipList.Putting.{get_size-total_size, put-Holds, new_list-Holds}
use lsm_tree_engine.SkipList.Invariant.{Holds}

-- A call: the flips of its coin, its random bits, and what is put.
pub record PutCall : Type 0 where
  pub coin : ℕ → Bool
  pub bits : ℕ
  pub key : List ℕ
  pub value : List ℕ
  pub tranc_id : ℕ

unfoldable pub put_all : SkipList → List PutCall → Result SkipList
put_all s [] = ok s
put_all s (c ∷ calls) = do s' ← put c.coin c.bits s c.key c.value c.tranc_id; put_all s' calls

unfoldable pub insert_all : List Version → List PutCall → List Version
insert_all versions [] = versions
insert_all versions (c ∷ calls) =
    insert_all (insert_version (c.key, c.value, c.tranc_id) versions) calls

put_all-Holds :
    (calls : List PutCall) (s : SkipList) (versions : List Version)
    → Holds s versions
    → (s' : SkipList) × (put_all s calls ≡ ok s') × Holds s' (insert_all versions calls)
unfolding put_all insert_all
put_all-Holds [] s versions h = (s, refl, h)
put_all-Holds (c ∷ calls) s versions h =
    let (s₁, run, h₁) = put-Holds c.coin c.bits s versions h c.key c.value c.tranc_id in
    let (s', runs, h') =
      put_all-Holds calls s₁ (insert_version (c.key, c.value, c.tranc_id) versions) h₁ in
    (s', rw run runs, h')

-- Whatever the coin and the random bits, a new skip list of at least one level takes any puts without a
-- fault, and then `flush` gives the versions that were put, in order and the last value of each, and
-- `get_size` the bytes of their keys and values and eight more for each, on `size_t`.
pub flush-put_all :
    (max_level : ℕ) (calls : List PutCall)
    → 0 < max_level
    → (s : SkipList) × (put_all (new_list max_level) calls ≡ ok s)
      × (flush s ≡ ok (insert_all [] calls))
      × IsSorted (insert_all [] calls)
      × (get_size s ≡ total_size (insert_all [] calls) % 2 ^ 64)
flush-put_all max_level calls h =
    let (s, run, holds) =
      put_all-Holds calls (new_list max_level) [] (new_list-Holds max_level h) in
    (
      s,
      run,
      flush-versions s _ holds,
      subst IsSorted holds.versions_eq holds.is_linked.sorted,
      get_size-total_size s (insert_all [] calls) holds,
    )
