-- ===== src/SkipList/Putting.antt =====
-- `SkipList::put` and `SkipList::clear` (src/skiplist/skiplist.cpp) and the constructor, on the
-- versions that the list holds.
use lsm_tree_engine.Prelude.{
  ◌%◌, ◌^◌, [], ◌∷◌, subst, ℕ, ◌<◌, ◌≡◌, ◌≢◌, refl, sym, ◌∙◌, ap, Bool, true, false, List, ◌++◌,
  map, All, none, ok, arith, max,
}
use lsm_tree_engine.SkipList.Chains.{filter, at_put_self, All-imp}
use lsm_tree_engine.SkipList.{
  get_size, no_nodes, make_head, SkipList, SkipListNode, Version, version_at, node_less, make_node,
  random_level, put, new_list, clear,
}
use lsm_tree_engine.SkipList.Replacing.{map-append}
use lsm_tree_engine.SkipList.Insertion.{insert_version-append}
use lsm_tree_engine.SkipList.Versions.{
  total_size, version_less, insert_version, cut, version_less_trans,
}
use lsm_tree_engine.SkipList.Making.{linked_but, made-IsLinked, versions_made}
use lsm_tree_engine.SkipList.Finding.{descend-place, forward_at-place}
use lsm_tree_engine.SkipList.Put.{map-All, node_less-version}
use lsm_tree_engine.SkipList.Contents.{random_level-bounded, put_branch-Holds}
use lsm_tree_engine.SkipList.Invariant.{IsLinked, Holds}

less_nodes :
    (s : SkipList) (n : ℕ) (b : Bool) (xs : List ℕ)
    → All (λ a. version_less (version_at s a) (version_at s n) ≡ b) xs
    → All (λ a. node_less (s.nodes a) (s.nodes n) ≡ b) xs
less_nodes s n b xs =
    All-imp (λ a. version_less (version_at s a) (version_at s n) ≡ b)
      (λ a. node_less (s.nodes a) (s.nodes n) ≡ b) xs (λ a h. node_less-version s a n ∙ h)

module _ (coin : ℕ → Bool) (bits : ℕ) (s : SkipList) (key value : List ℕ) (tranc_id : ℕ) where
  abbrev level : ℕ
  level = max (random_level coin s.max_level) s.current_level

  abbrev s₁ : SkipList
  s₁ = make_node s key value level tranc_id

  -- `put` where the place of the new node is known.
  put_at :
      (pre post : List ℕ) (linked : ℕ → ℕ → Bool)
      → IsLinked s (pre ++ post) linked
      → All (λ a. version_less (version_at s₁ a) (version_at s₁ s.fresh) ≡ true) pre
      → All (λ a. version_less (version_at s₁ a) (version_at s₁ s.fresh) ≡ false) post
      → (s' : SkipList) × (put coin bits s key value tranc_id ≡ ok s')
        × Holds s' (
            map (version_at s₁) pre
            ++ insert_version (version_at s₁ s.fresh) (map (version_at s₁) post))
  unfolding put make_node
  put_at pre post linked inv before behind =
      let inv₁ = made-IsLinked s (pre ++ post) linked inv key value level tranc_id in
      let positive : 0 < s.max_level = omega (arith, inv.positive, inv.bounded) in
      let (some_level, high) = random_level-bounded coin s.max_level positive in
      let less = less_nodes s₁ s.fresh true pre before in
      let not_less = less_nodes s₁ s.fresh false post behind in
      let (update, run, met) =
        descend-place s₁ pre post (linked_but linked s.fresh) inv₁
          (λ a. node_less (s₁.nodes a) (s₁.nodes s.fresh)) less not_less s.current_level
          inv.positive inv.bounded in
      let found =
        forward_at-place s₁ pre post (linked_but linked s.fresh) inv₁
          (λ a. node_less (s₁.nodes a) (s₁.nodes s.fresh)) less not_less in
      let node : s₁.nodes s.fresh
          ≡ record { key = key; value = value; tranc_id = tranc_id; height = level } =
        at_put_self s.nodes s.fresh _ in
      let (s', done, holds) =
        put_branch-Holds s₁ pre (linked_but linked s.fresh) s.fresh level key value tranc_id
          (ap (λ (x : SkipListNode). (x.key, x.value, x.tranc_id)) node)
          (λ i. at_put_self (linked i) s.fresh false) (omega arith)
          (ap (λ (x : SkipListNode). x.height) node) (omega arith) (omega (arith, inv.bounded))
          before update met bits post inv₁ (omega (arith, inv.few))
          (All-imp (λ a. a < s.fresh) (λ a. a ≢ s.fresh) (s.head ∷ (pre ++ post))
            (λ a h e. absurd (omega arith)) inv.allocated)
          behind in
      (s', rw (run, found) done, holds)

-- `put` into a well formed skip list succeeds, leaves it well formed, and puts the version at its place
-- among those that the list holds, or in the place of the one with its key and id, for any flips of the
-- coin and any random bits.
pub put-Holds :
    (coin : ℕ → Bool) (bits : ℕ) (s : SkipList) (versions : List Version)
    → Holds s versions
    → (key value : List ℕ) (tranc_id : ℕ)
    → (s' : SkipList) × (put coin bits s key value tranc_id ≡ ok s')
      × Holds s' (insert_version (key, value, tranc_id) versions)
unfolding make_node
put-Holds coin bits s versions h key value tranc_id =
    let s₁ = make_node s key value (max (random_level coin s.max_level) s.current_level) tranc_id in
    let e : Version = version_at s₁ s.fresh in
    let inv₁ =
      made-IsLinked s h.addresses h.linked h.is_linked key value
        (max (random_level coin s.max_level) s.current_level) tranc_id in
    let same : map (version_at s₁) h.addresses ≡ versions =
      versions_made s h.addresses h.linked h.is_linked key value
        (max (random_level coin s.max_level) s.current_level) tranc_id
      ∙ h.versions_eq in
    let (pre, post, split, before, behind) =
      cut (version_at s₁) (λ x. version_less x e) h.addresses inv₁.sorted
        (λ x y less k. version_less_trans x y e less k) in
    let (s', run, holds) =
      put_at coin bits s key value tranc_id pre post h.linked
        (subst (λ (xs : List ℕ). IsLinked s xs h.linked) split h.is_linked) before behind in
    let parts : map (version_at s₁) pre ++ map (version_at s₁) post ≡ versions =
      sym (map-append (version_at s₁) pre post) ∙ ap (map (version_at s₁)) (sym split) ∙ same in
    let now : map (version_at s₁) pre ++ insert_version e (map (version_at s₁) post)
        ≡ insert_version (key, value, tranc_id) versions =
      sym (
        insert_version-append e (map (version_at s₁) pre) (map (version_at s₁) post)
          (map-All (λ v. version_less v e ≡ true) (version_at s₁) pre before))
      ∙ ap (insert_version e) parts
      ∙ ap (λ (v : Version). insert_version v versions)
          (ap (λ (x : SkipListNode). (x.key, x.value, x.tranc_id))
            (at_put_self s.nodes s.fresh _)) in
    (s', run, subst (Holds s') now holds)

-- A new skip list holds nothing.
pub new_list-Holds : (max_level : ℕ) → 0 < max_level → Holds (new_list max_level) []
unfolding new_list make_head make_node no_nodes filter
new_list-Holds max_level h = record {
  addresses = [];
  linked = λ i a. false;
  is_linked = record {
    head_height = refl;
    positive = omega arith;
    bounded = omega arith;
    chains = λ i low. refl;
    tall = λ i a small e. cc;
    bottom = tt;
    nested = λ i a e. e;
    low = λ i high. tt;
    distinct = (tt, tt);
    allocated = (omega arith, tt);
    few = omega arith;
    sorted = tt;
    sized = refl;
  };
  versions_eq = refl;
}

-- `clear` leaves a well formed skip list without versions, at the level that it had.
pub clear-Holds : (s : SkipList) (versions : List Version) → Holds s versions → Holds (clear s) []
unfolding clear make_head make_node filter
clear-Holds s versions h = record {
  addresses = [];
  linked = λ i a. false;
  is_linked = record {
    head_height = ap (λ (x : SkipListNode). x.height) (at_put_self s.nodes s.fresh _);
    positive = h.is_linked.positive;
    bounded = h.is_linked.bounded;
    chains = λ i low. at_put_self (s.forward i) s.fresh none;
    tall = λ i a small e. cc;
    bottom = tt;
    nested = λ i a e. e;
    low = λ i high. tt;
    distinct = (tt, tt);
    allocated = (omega arith, tt);
    few = omega arith;
    sorted = tt;
    sized = refl;
  };
  versions_eq = refl;
}

pub get_size-total_size :
    (s : SkipList) (versions : List Version)
    → Holds s versions
    → get_size s ≡ total_size versions % 2 ^ 64
unfolding get_size
get_size-total_size s versions h =
    h.is_linked.sized ∙ ap (λ (vs : List Version). total_size vs % 2 ^ 64) h.versions_eq
