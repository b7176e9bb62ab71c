-- ===== src/SkipList/Contents.antt =====
-- The operations of the skip list (src/skiplist/skiplist.cpp) that change it, on the versions that it holds.
use lsm_tree_engine.Prelude.{
  subst, Result, if◌then◌else◌, ℕ, zero, suc, ◌+◌, ◌-◌, ◌<◌, ◌≤◌, ◌≡◌, ◌≢◌, refl, sym, ◌∙◌, ap,
  Bool, true, false, Bool-cases, inl, inr, List, [], ◌∷◌, ◌++◌, length, map, All, Option, some, ok,
  arith,
}
use lsm_tree_engine.Prelude.Order.{eq_bytes_iff}
use lsm_tree_engine.SkipList.{
  SkipList, Version, version_at, is_version, put_node, put_value, random_level, random_level_loop,
}
use lsm_tree_engine.SkipList.Chains.{filter, last}
use lsm_tree_engine.SkipList.Distinct.{first}
use lsm_tree_engine.SkipList.Replacing.{replaced, versions_replaced, replaced-IsLinked, map-append}
use lsm_tree_engine.SkipList.Insertion.{IsSorted-tail, behind_first}
use lsm_tree_engine.SkipList.Versions.{IsSorted, version_less, same_version, insert_version}
use lsm_tree_engine.SkipList.Put.{put_node-Holds}
use lsm_tree_engine.SkipList.Invariant.{IsLinked, Holds}

random_level_loop-bounded :
    (coin : ℕ → Bool) (n i level : ℕ)
    → (level ≤ random_level_loop coin n i level) × (random_level_loop coin n i level ≤ level + n)
unfolding random_level_loop
random_level_loop-bounded coin zero i level = (omega arith, omega arith)
random_level_loop-bounded coin (suc n) i level =
    ground (arith, random_level_loop-bounded coin n (i + 1) (level + 1))

-- The level of a new node is one of the levels that there are, if there are any.
pub random_level-bounded :
    (coin : ℕ → Bool) (max_level : ℕ)
    → 0 < max_level
    → (0 < random_level coin max_level) × (random_level coin max_level ≤ max_level)
unfolding random_level
random_level-bounded coin max_level h =
    let (low, high) = random_level_loop-bounded coin (max_level - 1) 0 1 in
    (omega arith, omega arith)

-- The value of a version that is there is replaced.
put_value-Holds :
    (s : SkipList) (pre post : List ℕ) (y : ℕ) (linked : ℕ → ℕ → Bool)
    → IsLinked s (pre ++ (y ∷ post)) linked
    → (key value : List ℕ) (tranc_id : ℕ) → is_version s key tranc_id (some y) ≡ true
    → (s' : SkipList) × (put_value s (some y) value tranc_id ≡ ok s')
      × Holds s' (map (version_at s) pre ++ ((key, value, tranc_id) ∷ map (version_at s) post))
unfolding put_value
put_value-Holds s pre post y linked inv key value tranc_id found =
    let same_key : (s.nodes y).key ≡ key = (eq_bytes_iff (s.nodes y).key key).0 (ground arith) in
    let same_id : (s.nodes y).tranc_id ≡ tranc_id = ground arith in
    (
      replaced s pre post y linked inv value,
      rw (← same_id) refl,
      record {
        addresses = pre ++ (y ∷ post);
        linked = linked;
        is_linked = replaced-IsLinked s pre post y linked inv value;
        versions_eq =
            versions_replaced s pre post y linked inv value
            ∙ ap (λ (v : Version). map (version_at s) pre ++ (v ∷ map (version_at s) post))
                (rw (same_key, same_id) refl);
      },
    )

-- The two ways of `put`, by the first node that is not less than the new one.
module _ (s : SkipList) (pre : List ℕ) (linked : ℕ → ℕ → Bool) (n new_level : ℕ)
    (key value : List ℕ) (tranc_id : ℕ) (node : version_at s n ≡ (key, value, tranc_id))
    (unlinked : (i : ℕ) → linked i n ≡ false) (small : n < s.fresh)
    (tall : (s.nodes n).height ≡ new_level) (grown : s.current_level ≤ new_level)
    (bounded : new_level ≤ s.max_level)
    (before : All (λ a. version_less (version_at s a) (version_at s n) ≡ true) pre)
    (update : ℕ → Option ℕ)
    (met : (i : ℕ) → i < s.current_level → update i ≡ some (last s.head (filter (linked i) pre)))
    (bits : ℕ) where
  abbrev put_branch : Option ℕ → Result SkipList
  put_branch current =
      if is_version s key tranc_id current
      then put_value s current value tranc_id
      else put_node s bits n new_level update

  insert_first :
      (v : Version) (vs : List Version)
      → version_less v (version_at s n) ≡ false
      → same_version v (version_at s n) ≡ true
      → insert_version (version_at s n) (v ∷ vs) ≡ version_at s n ∷ vs
  unfolding insert_version
  insert_first v vs not_less same = rw (not_less, same) refl

  insert_before :
      (v : Version) (vs : List Version)
      → version_less v (version_at s n) ≡ false
      → same_version v (version_at s n) ≡ false
      → insert_version (version_at s n) (v ∷ vs) ≡ version_at s n ∷ v ∷ vs
  unfolding insert_version
  insert_before v vs not_less differ = rw (not_less, differ) refl

  same_as :
      (y : ℕ) → is_version s key tranc_id (some y) ≡ same_version (version_at s y) (version_at s n)
  same_as y = ap (λ (v : Version). same_version (version_at s y) v) (sym node)

  pub put_branch-Holds :
      (post : List ℕ)
      → IsLinked s (pre ++ post) linked
      → length (pre ++ post) + 1 < s.fresh
      → All (λ a. a ≢ n) (s.head ∷ (pre ++ post))
      → All (λ a. version_less (version_at s a) (version_at s n) ≡ false) post
      → (s' : SkipList) × (put_branch (first post) ≡ ok s')
        × Holds s'
            (map (version_at s) pre ++ insert_version (version_at s n) (map (version_at s) post))
  unfolding insert_version
  put_branch-Holds [] inv few apart behind =
      put_node-Holds s pre [] linked inv n new_level few apart unlinked small tall grown bounded
        before update met bits tt
  put_branch-Holds (y ∷ post) inv few apart (not_less, behind) =
      elim (Bool-cases (is_version s key tranc_id (some y))) [
        | inl found ↦
            let (s', run, holds) =
              put_value-Holds s pre post y linked inv key value tranc_id found in
            let now : insert_version (version_at s n) (map (version_at s) (y ∷ post))
                ≡ (key, value, tranc_id) ∷ map (version_at s) post =
              insert_first (version_at s y) (map (version_at s) post) not_less
                (sym (same_as y) ∙ found)
              ∙ ap (λ (v : Version). v ∷ map (version_at s) post) node in
            (
              s',
              rw found run,
              subst (λ (vs : List Version). Holds s' (map (version_at s) pre ++ vs)) (sym now)
                  holds,
            )
        | inr missing ↦
            let differ : same_version (version_at s y) (version_at s n) ≡ false =
              sym (same_as y) ∙ missing in
            let sorted : IsSorted (map (version_at s) (y ∷ post)) =
              IsSorted-tail (map (version_at s) pre) (map (version_at s) (y ∷ post))
                (subst IsSorted (map-append (version_at s) pre (y ∷ post)) inv.sorted) in
            let (s', run, holds) =
              put_node-Holds s pre (y ∷ post) linked inv n new_level few apart unlinked small tall
                grown bounded before update met bits
                (behind_first (version_at s n) (version_at s y) (map (version_at s) post) sorted
                  not_less differ) in
            (
              s',
              ap
                    (λ (b : Bool).
                      if b
                      then put_value s (some y) value tranc_id
                      else put_node s bits n new_level update)
                    missing
                  ∙ run,
              subst (λ (vs : List Version). Holds s' (map (version_at s) pre ++ vs))
                  (sym (insert_before (version_at s y) (map (version_at s) post) not_less differ))
                  holds,
            )
      ]
