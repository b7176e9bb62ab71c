-- ===== src/SkipList/Invariant.antt =====
-- When a skip list (src/skiplist/skiplist.cpp) is well formed, and which versions it then holds.
use lsm_tree_engine.Prelude.{
  ℕ, ◌%◌, ◌^◌, ◌≤◌, ◌<◌, ◌≡◌, suc, true, false, Bool, List, ◌∷◌, length, map, All,
}
use lsm_tree_engine.SkipList.{SkipList, Version, version_at}
use lsm_tree_engine.SkipList.Chains.{Chain, Distinct, filter}
use lsm_tree_engine.SkipList.Versions.{IsSorted, total_size}

-- The addresses of the nodes in order, and on which levels each is linked: every level is the chain of
-- its nodes from the head on.
pub record IsLinked (s : SkipList) (addresses : List ℕ) (linked : ℕ → ℕ → Bool) : Type 0 where
  pub head_height : (s.nodes s.head).height ≡ s.max_level
  pub positive : 0 < s.current_level
  pub bounded : s.current_level ≤ s.max_level
  pub chains : (i : ℕ) → i < s.max_level → Chain (s.forward i) s.head (filter (linked i) addresses)
  pub tall : (i a : ℕ) → a < s.fresh → linked i a ≡ true → i < (s.nodes a).height
  pub bottom : All (λ a. linked 0 a ≡ true) addresses
  pub nested : (i a : ℕ) → linked (suc i) a ≡ true → linked i a ≡ true
  pub low : (i : ℕ) → s.current_level ≤ i → All (λ a. linked i a ≡ false) addresses
  pub distinct : Distinct (s.head ∷ addresses)
  pub allocated : All (λ a. a < s.fresh) (s.head ∷ addresses)
  pub few : length addresses < s.fresh
  pub sorted : IsSorted (map (version_at s) addresses)
  pub sized : s.size_bytes ≡ total_size (map (version_at s) addresses) % 2 ^ 64

-- The skip list is well formed and holds these versions, in this order.
pub record Holds (s : SkipList) (versions : List Version) : Type 0 where
  pub addresses : List ℕ
  pub linked : ℕ → ℕ → Bool
  pub is_linked : IsLinked s addresses linked
  pub versions_eq : map (version_at s) addresses ≡ versions
