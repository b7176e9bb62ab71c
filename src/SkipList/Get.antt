-- ===== src/SkipList/Get.antt =====
-- `SkipList::get` and `SkipList::flush` (src/skiplist/skiplist.cpp) on the versions that the skip list holds.
use lsm_tree_engine.Prelude.{
  Result, subst, ℕ, zero, suc, ◌<◌, ◌≡◌, refl, sym, ◌∙◌, ap, leb, ◌==◌, if◌then◌else◌, Bool, true,
  false, Bool-cases, inl, inr, List, [], ◌∷◌, ◌++◌, length, length-append, map, All, Option, none,
  some, ok, arith,
}
use lsm_tree_engine.Prelude.Order.{eq_bytes, lt_bytes}
use lsm_tree_engine.SkipList.{
  SkipList, Version, version_at, if_key, get_visible, get, flush_loop, flush,
}
use lsm_tree_engine.SkipList.Chains.{Chain, last, filter, filter_whole}
use lsm_tree_engine.SkipList.Distinct.{first}
use lsm_tree_engine.SkipList.Levels.{heights, All-right}
use lsm_tree_engine.SkipList.Search.{forward_at-ok}
use lsm_tree_engine.SkipList.Replacing.{map-append}
use lsm_tree_engine.SkipList.Insertion.{IsSorted-tail}
use lsm_tree_engine.SkipList.Versions.{IsSorted, key_of, key_order, find_version, cut}
use lsm_tree_engine.SkipList.Keys.{find_version-append, find_version_past}
use lsm_tree_engine.SkipList.Finding.{descend-place, forward_at-place}
use lsm_tree_engine.SkipList.Put.{map-All}
use lsm_tree_engine.SkipList.Invariant.{IsLinked, Holds}

-- The version at an address that may be null.
abbrev pub version_of : SkipList → Option ℕ → Option Version
version_of s none = none
version_of s (some a) = some (version_at s a)

Chain-first : (xs : List ℕ) (f : ℕ → Option ℕ) (a : ℕ) → Chain f a xs → f a ≡ first xs
Chain-first [] f a e = e
Chain-first (x ∷ xs) f a (e, chain) = e

Chain-right :
    (xs ys : List ℕ) (f : ℕ → Option ℕ) (a : ℕ) → Chain f a (xs ++ ys) → Chain f (last a xs) ys
Chain-right [] ys f a chain = chain
Chain-right (x ∷ xs) ys f a (e, chain) = Chain-right xs ys f x chain

-- The lowest level is the chain of all nodes.
bottom-Chain :
    (s : SkipList) (addresses : List ℕ) (linked : ℕ → ℕ → Bool)
    → IsLinked s addresses linked
    → Chain (s.forward 0) s.head addresses × All (λ a. 0 < (s.nodes a).height) addresses
bottom-Chain s addresses linked inv =
    let all : filter (linked 0) addresses ≡ addresses =
      filter_whole (linked 0) addresses inv.bottom in
    (
      subst (Chain (s.forward 0) s.head) all
          (inv.chains 0 (omega (arith, inv.positive, inv.bounded))),
      subst (All (λ a. 0 < (s.nodes a).height)) all
          (heights s [] addresses linked inv 0 addresses inv.allocated.1),
    )

module _ (s : SkipList) where
  flush_loop_lem :
      (fuel c : ℕ) (xs : List ℕ)
      → Chain (s.forward 0) c xs
      → All (λ a. 0 < (s.nodes a).height) xs
      → length xs < fuel
      → flush_loop s fuel (first xs) ≡ ok (map (version_at s) xs)
  unfolding flush_loop
  flush_loop_lem zero c xs chain tall room = absurd (omega arith)
  flush_loop_lem (suc fuel) c [] chain tall room = refl
  flush_loop_lem (suc fuel) c (x ∷ xs) (e, chain) (tall_x, tall) room =
      let next : s.forward 0 x ≡ first xs = Chain-first xs (s.forward 0) x chain in
      rw (forward_at-ok s 0 x tall_x, next, flush_loop_lem fuel x xs chain tall (omega arith)) refl

module _ (s : SkipList) (key : List ℕ) (tranc_id : ℕ) where
  -- What a search finds from these nodes on.
  abbrev pub Finds : Result (Option ℕ) → List ℕ → Type 0
  Finds run xs =
      (a : Option ℕ) × (run ≡ ok a)
      × (version_of s a ≡ find_version key tranc_id (map (version_at s) xs))

  get_visible_lem :
      tranc_id == 0 ≡ false
      → (fuel c : ℕ) (xs : List ℕ) → Chain (s.forward 0) c xs
      → All (λ a. 0 < (s.nodes a).height) xs
      → All (λ a. lt_bytes (s.nodes a).key key ≡ false) xs
      → IsSorted (map (version_at s) xs)
      → length xs < fuel
      → Finds (get_visible s key tranc_id fuel (first xs)) xs
  unfolding get_visible find_version
  get_visible_lem snapshot zero c xs chain tall not_less sorted room = absurd (omega arith)
  get_visible_lem snapshot (suc fuel) c [] chain tall not_less sorted room = (none, refl, refl)
  get_visible_lem snapshot (suc fuel) c (x ∷ xs) (e, chain) (tall_x, tall) (not_less_x, not_less)
        sorted room =
      elim (Bool-cases (eq_bytes (s.nodes x).key key)) [
        | inr differ ↦ (
          none,
          rw differ refl,
          sym (
              find_version_past key tranc_id (version_at s x) (map (version_at s) xs) not_less_x
                differ sorted),
        )
        | inl same ↦ elim (Bool-cases (leb (s.nodes x).tranc_id tranc_id)) [
          | inl seen ↦ (some x, rw (same, seen) refl, rw (same, snapshot, seen) refl)
          | inr unseen ↦
              let next : s.forward 0 x ≡ first xs = Chain-first xs (s.forward 0) x chain in
              let (a, run, found) =
                get_visible_lem snapshot fuel x xs chain tall not_less sorted.1 (omega arith) in
              (
                a,
                rw (same, unseen, forward_at-ok s 0 x tall_x, next) run,
                rw (same, snapshot, unseen) found,
              )
        ]
      ]

  if_key_lem :
      tranc_id ≡ 0
      → (xs : List ℕ) → All (λ a. lt_bytes (s.nodes a).key key ≡ false) xs
      → IsSorted (map (version_at s) xs)
      → version_of s (if_key s key (first xs)) ≡ find_version key tranc_id (map (version_at s) xs)
  unfolding find_version
  if_key_lem latest [] not_less sorted = refl
  if_key_lem latest (x ∷ xs) (not_less_x, not_less) sorted =
      elim (Bool-cases (eq_bytes (s.nodes x).key key)) [
        | inl same ↦ rw (same, latest) refl
        | inr differ ↦
            ap (λ (b : Bool). version_of s (if b then some x else none)) differ
            ∙ sym (
                find_version_past key tranc_id (version_at s x) (map (version_at s) xs) not_less_x
                  differ sorted)
      ]

  get_post :
      (pre post : List ℕ) (linked : ℕ → ℕ → Bool)
      → IsLinked s (pre ++ post) linked
      → All (λ a. lt_bytes (s.nodes a).key key ≡ true) pre
      → All (λ a. lt_bytes (s.nodes a).key key ≡ false) post
      → Finds (get s key tranc_id) post
  unfolding get
  get_post pre post linked inv before behind =
      let less : ℕ → Bool = λ a. lt_bytes (s.nodes a).key key in
      let positive : 0 < s.max_level = omega (arith, inv.positive, inv.bounded) in
      let (update, run, met) =
        descend-place s pre post linked inv less before behind (s.nodes s.head).height
          (omega (arith, inv.head_height)) (omega (arith, inv.head_height)) in
      let found = forward_at-place s pre post linked inv less before behind in
      let sorted : IsSorted (map (version_at s) post) =
        IsSorted-tail (map (version_at s) pre) (map (version_at s) post)
          (subst IsSorted (map-append (version_at s) pre post) inv.sorted) in
      let (chain, tall) = bottom-Chain s (pre ++ post) linked inv in
      elim (Bool-cases (tranc_id == 0)) [
        | inl latest ↦ (
          if_key s key (first post),
          rw (run, found, latest) refl,
          if_key_lem (ground arith) post behind sorted,
        )
        | inr snapshot ↦
            let (a, run', answer) =
              get_visible_lem snapshot (suc s.fresh) (last s.head pre) post
                (Chain-right pre post (s.forward 0) s.head chain)
                (All-right (λ a. 0 < (s.nodes a).height) pre post tall) behind sorted
                (omega (arith, inv.few, length-append pre post)) in
            (a, rw (run, found, snapshot) run', answer)
      ]

-- `get` of a well formed skip list returns without a fault, with the first version of the key that the
-- transaction sees among those that the skip list holds, or null where there is none.
pub get-find_version :
    (s : SkipList) (versions : List Version)
    → Holds s versions
    → (key : List ℕ) (tranc_id : ℕ)
    → (a : Option ℕ) × (get s key tranc_id ≡ ok a)
      × (version_of s a ≡ find_version key tranc_id versions)
get-find_version s versions h key tranc_id =
    let (pre, post, split, before, behind) =
      cut (version_at s) (λ x. lt_bytes (key_of x) key) h.addresses h.is_linked.sorted
        (λ x y. key_order x y key) in
    let (a, run, found) =
      get_post s key tranc_id pre post h.linked
        (subst (λ (xs : List ℕ). IsLinked s xs h.linked) split h.is_linked) before behind in
    let whole : map (version_at s) pre ++ map (version_at s) post ≡ versions =
      sym (map-append (version_at s) pre post)
      ∙ ap (map (version_at s)) (sym split)
      ∙ h.versions_eq in
    (
      a,
      run,
      found
          ∙ sym (
              find_version-append key tranc_id (map (version_at s) pre) (map (version_at s) post)
                (map-All (λ v. lt_bytes (key_of v) key ≡ true) (version_at s) pre before))
          ∙ ap (find_version key tranc_id) whole,
    )

-- `flush` of a well formed skip list returns the versions that the skip list holds, in their order.
pub flush-versions :
    (s : SkipList) (versions : List Version) → Holds s versions → flush s ≡ ok versions
unfolding flush
flush-versions s versions h =
    let (chain, tall) = bottom-Chain s h.addresses h.linked h.is_linked in
    let inv = h.is_linked in
    rw
      (
        forward_at-ok s 0 s.head (omega (arith, inv.head_height, inv.positive, inv.bounded)),
        Chain-first h.addresses (s.forward 0) s.head chain,
        flush_loop_lem s (suc s.fresh) s.head h.addresses chain tall (omega (arith, inv.few)),
      )
      (ap ok h.versions_eq)
