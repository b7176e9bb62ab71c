-- ===== src/SkipList/Put.antt =====
-- `SkipList::put` (src/skiplist/skiplist.cpp) on a new node that is made and whose place is found.
use lsm_tree_engine.Prelude.{
  subst, ℕ, ◌+◌, ◌%◌, ◌^◌, ◌<◌, ◌≤◌, ◌≡◌, ◌≢◌, refl, ◌∙◌, ap, ltb, Bool, true, false, List, [], ◌∷◌,
  ◌++◌, length, map, All, Option, some, ok, arith,
}
use lsm_tree_engine.SkipList.{SkipList, Version, version_at, node_less, put_node}
use lsm_tree_engine.SkipList.Chains.{filter, last}
use lsm_tree_engine.SkipList.Levels.{level_of, fill_update_lem}
use lsm_tree_engine.SkipList.Linking.{IsLevel, link_loop_lem}
use lsm_tree_engine.SkipList.Placing.{placed-IsLinked}
use lsm_tree_engine.SkipList.Replacing.{map-append}
use lsm_tree_engine.SkipList.Insertion.{IsSorted-put, insert_version-append}
use lsm_tree_engine.SkipList.Versions.{IsSorted, version_less, insert_version, size_of}
use lsm_tree_engine.SkipList.Invariant.{IsLinked, Holds}

pub map-All :
    (Q : Version → Type 0) (f : ℕ → Version) (xs : List ℕ)
    → All (λ a. Q (f a)) xs
    → All Q (map f xs)
map-All Q f [] h = tt
map-All Q f (x ∷ xs) (q, h) = (q, map-All Q f xs h)

-- `operator<` is the order of the versions.
pub node_less-version :
    (s : SkipList) (a b : ℕ)
    → node_less (s.nodes a) (s.nodes b) ≡ version_less (version_at s a) (version_at s b)
unfolding node_less version_less
node_less-version s a b = refl

module _ (s : SkipList) (pre post : List ℕ) (linked : ℕ → ℕ → Bool)
    (inv : IsLinked s (pre ++ post) linked) (n new_level : ℕ)
    (few : length (pre ++ post) + 1 < s.fresh) (apart : All (λ a. a ≢ n) (s.head ∷ (pre ++ post)))
    (unlinked : (i : ℕ) → linked i n ≡ false) (small : n < s.fresh)
    (tall : (s.nodes n).height ≡ new_level) (grown : s.current_level ≤ new_level)
    (bounded : new_level ≤ s.max_level)
    (before : All (λ a. version_less (version_at s a) (version_at s n) ≡ true) pre)
    (update : ℕ → Option ℕ)
    (met : (i : ℕ)
      → i < s.current_level
      → update i ≡ some (last s.head (filter (linked i) pre))) where
  abbrev e : Version
  e = version_at s n

  before_versions : All (λ v. version_less v e ≡ true) (map (version_at s) pre)
  before_versions = map-All (λ v. version_less v e ≡ true) (version_at s) pre before

  versions : map (version_at s) (pre ++ post) ≡ map (version_at s) pre ++ map (version_at s) post
  versions = map-append (version_at s) pre post

  insert_split :
      insert_version e (map (version_at s) (pre ++ post))
      ≡ map (version_at s) pre ++ insert_version e (map (version_at s) post)
  insert_split =
      ap (insert_version e) versions
      ∙ insert_version-append e (map (version_at s) pre) (map (version_at s) post) before_versions

  abbrev grown_size : SkipList
  grown_size = record s { size_bytes = (s.size_bytes + size_of (version_at s n)) % 2 ^ 64 }

  levels :
      (i : ℕ)
      → i < new_level
      → IsLevel grown_size n i (filter (linked i) pre) (filter (linked i) post)
  levels i low =
      let level = level_of s pre post linked inv n i apart (omega arith) in
      record {
        chain = level.chain;
        apart = level.apart;
        distinct = level.distinct;
        tall_last = level.tall_last;
        tall_next = level.tall_next;
      }

  -- The new node is linked in where only later versions are behind it.
  pub put_node-Holds :
      (bits : ℕ)
      → All (λ v. version_less e v ≡ true) (map (version_at s) post)
      → (s' : SkipList) × (put_node s bits n new_level update ≡ ok s')
        × Holds s' (map (version_at s) pre ++ (e ∷ map (version_at s) post))
  unfolding put_node
  put_node-Holds bits behind =
      let (f, b, m, run, done, reached, some_level) =
        link_loop_lem grown_size n new_level (λ i. filter (linked i) pre)
          (λ i. filter (linked i) post) levels _
          (λ i low. fill_update_lem s pre post linked inv update new_level i met low) (omega arith)
          (ltb s.current_level new_level) bits new_level 0 s.forward s.backward (omega arith)
          (record { below = λ j h. absurd (omega arith); above = λ j h. refl }) in
      let positive : 0 < m = some_level (omega (arith, inv.positive)) in
      let sorted = subst IsSorted versions inv.sorted in
      let placed_inv =
        placed-IsLinked s pre post linked inv n new_level m f b few apart unlinked small positive
          tall grown bounded reached done.below done.above
          (IsSorted-put (map (version_at s) pre) (map (version_at s) post) e sorted before_versions
            behind) in
      (
        _,
        rw run refl,
        record {
          addresses = pre ++ (n ∷ post);
          linked = _;
          is_linked = placed_inv;
          versions_eq = map-append (version_at s) pre (n ∷ post);
        },
      )
