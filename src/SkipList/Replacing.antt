-- ===== src/SkipList/Replacing.antt =====
-- `SkipList::put` (src/skiplist/skiplist.cpp) on a version that is there: its value is replaced.
use lsm_tree_engine.Prelude.{
  subst, ℕ, ◌+◌, ◌-◌, ◌%◌, ◌^◌, ◌≡◌, ◌≢◌, refl, sym, ◌∙◌, ap, ◌==◌, Bool, true, Bool-cases, inl,
  inr, List, [], ◌∷◌, ◌++◌, length, map, All, arith,
}
use lsm_tree_engine.SkipList.{sub_size, SkipList, SkipListNode, Version, version_at, at_put}
use lsm_tree_engine.SkipList.Chains.{All-imp, at_put_self, at_put_ne}
use lsm_tree_engine.SkipList.Distinct.{Distinct-beside}
use lsm_tree_engine.SkipList.Making.{map_same}
use lsm_tree_engine.SkipList.Versions.{IsSorted, version_less, total_size}
use lsm_tree_engine.SkipList.Insertion.{total_size-append}
use lsm_tree_engine.SkipList.Invariant.{IsLinked}

less_replace :
    (x : Version) (xs ys : List Version) (key old value : List ℕ) (tranc_id : ℕ)
    → All (λ y. version_less x y ≡ true) (xs ++ ((key, old, tranc_id) ∷ ys))
    → All (λ y. version_less x y ≡ true) (xs ++ ((key, value, tranc_id) ∷ ys))
unfolding version_less
less_replace x [] ys key old value tranc_id h = h
less_replace x (z ∷ xs) ys key old value tranc_id (less, h) =
    (less, less_replace x xs ys key old value tranc_id h)

replace_less :
    (ys : List Version) (key old value : List ℕ) (tranc_id : ℕ)
    → All (λ y. version_less (key, old, tranc_id) y ≡ true) ys
    → All (λ y. version_less (key, value, tranc_id) y ≡ true) ys
unfolding version_less
replace_less [] key old value tranc_id h = tt
replace_less (y ∷ ys) key old value tranc_id (less, h) =
    (less, replace_less ys key old value tranc_id h)

-- A value plays no part in the order.
pub IsSorted-replace :
    (xs ys : List Version) (key old value : List ℕ) (tranc_id : ℕ)
    → IsSorted (xs ++ ((key, old, tranc_id) ∷ ys))
    → IsSorted (xs ++ ((key, value, tranc_id) ∷ ys))
IsSorted-replace [] ys key old value tranc_id (less, sorted) =
    (replace_less ys key old value tranc_id less, sorted)
IsSorted-replace (x ∷ xs) ys key old value tranc_id (less, sorted) = (
  less_replace x xs ys key old value tranc_id less,
  IsSorted-replace xs ys key old value tranc_id sorted,
)

pub map-append : (f : ℕ → Version) (xs ys : List ℕ) → map f (xs ++ ys) ≡ map f xs ++ map f ys
map-append f [] ys = refl
map-append f (x ∷ xs) ys = ap (◌∷◌ (f x)) (map-append f xs ys)

-- The size after a value took the place of another, on `size_t`.
resized :
    (rest old new : ℕ)
    → ((rest + old) % 2 ^ 64 + (new + 2 ^ 64 - old % 2 ^ 64) % 2 ^ 64) % 2 ^ 64
      ≡ (rest + new) % 2 ^ 64
resized rest old new = omega arith

module _ (s : SkipList) (pre post : List ℕ) (y : ℕ) (linked : ℕ → ℕ → Bool)
    (inv : IsLinked s (pre ++ (y ∷ post)) linked) (value : List ℕ) where
  abbrev replaced_node : SkipListNode
  replaced_node = record (s.nodes y) { value = value }

  abbrev pub replaced : SkipList
  replaced = record s {
    size_bytes = (s.size_bytes + sub_size (length value) (length (s.nodes y).value)) % 2 ^ 64;
    nodes = at_put s.nodes y (record (s.nodes y) { value = value });
  }

  same_height : (a : ℕ) → (replaced.nodes a).height ≡ (s.nodes a).height
  same_height a = elim (Bool-cases (y == a)) [
    | inl e ↦ let same : y ≡ a = ground arith in rw e (ap (λ (b : ℕ). (s.nodes b).height) same)
    | inr differ ↦ rw differ refl
  ]

  abbrev pub new_version : Version
  new_version = ((s.nodes y).key, value, (s.nodes y).tranc_id)

  unchanged :
      (xs : List ℕ) → All (λ a. a ≢ y) xs → map (version_at replaced) xs ≡ map (version_at s) xs
  unchanged xs apart = map_same (version_at replaced) (version_at s) xs (
      All-imp (λ a. a ≢ y) (λ a. version_at replaced a ≡ version_at s a) xs
        (λ a other.
          ap (λ (x : SkipListNode). (x.key, x.value, x.tranc_id))
            (at_put_ne s.nodes y (record (s.nodes y) { value = value }) a other))
        apart)

  versions_before :
      map (version_at s) (pre ++ (y ∷ post))
      ≡ map (version_at s) pre
        ++ (((s.nodes y).key, (s.nodes y).value, (s.nodes y).tranc_id) ∷ map (version_at s) post)
  versions_before = map-append (version_at s) pre (y ∷ post)

  pub versions_replaced :
      map (version_at replaced) (pre ++ (y ∷ post))
      ≡ map (version_at s) pre ++ (new_version ∷ map (version_at s) post)
  versions_replaced =
      let (front, back) = Distinct-beside pre post y inv.distinct.1 in
      let here : version_at replaced y ≡ new_version =
        ap (λ (x : SkipListNode). (x.key, x.value, x.tranc_id))
          (at_put_self s.nodes y (record (s.nodes y) { value = value })) in
      map-append (version_at replaced) pre (y ∷ post)
      ∙ rw (unchanged pre front, unchanged post back, here) refl

  sized_replaced :
      replaced.size_bytes ≡ total_size (map (version_at replaced) (pre ++ (y ∷ post))) % 2 ^ 64
  sized_replaced =
      let xs : List Version = map (version_at s) pre in
      let ys : List Version = map (version_at s) post in
      let rest : ℕ = total_size xs + (length (s.nodes y).key + 8 + total_size ys) in
      let before : s.size_bytes ≡ (rest + length (s.nodes y).value) % 2 ^ 64 =
        inv.sized
        ∙ ap (λ (vs : List Version). total_size vs % 2 ^ 64) versions_before
        ∙ ap (λ (n : ℕ). n % 2 ^ 64) (total_size-append xs _ ∙ omega arith) in
      ap (λ (n : ℕ). (n + sub_size (length value) (length (s.nodes y).value)) % 2 ^ 64) before
      ∙ resized rest (length (s.nodes y).value) (length value)
      ∙ sym (
          ap (λ (vs : List Version). total_size vs % 2 ^ 64) versions_replaced
          ∙ ap (λ (n : ℕ). n % 2 ^ 64) (total_size-append xs _ ∙ omega arith))

  pub replaced-IsLinked : IsLinked replaced (pre ++ (y ∷ post)) linked
  replaced-IsLinked = record {
    head_height = same_height s.head ∙ inv.head_height;
    positive = inv.positive;
    bounded = inv.bounded;
    chains = inv.chains;
    tall = λ i a small h. omega (arith, same_height a, inv.tall i a small h);
    bottom = inv.bottom;
    nested = inv.nested;
    low = inv.low;
    distinct = inv.distinct;
    allocated = inv.allocated;
    few = inv.few;
    sorted = subst IsSorted (sym versions_replaced) (
        IsSorted-replace (map (version_at s) pre) (map (version_at s) post) (s.nodes y).key
          (s.nodes y).value value (s.nodes y).tranc_id (subst IsSorted versions_before inv.sorted));
    sized = sized_replaced;
  }
