-- ===== src/SkipList/Removal.antt =====
-- `SkipList::remove` (src/skiplist/skiplist.cpp). A node that is unlinked stays in the store.
use lsm_tree_engine.Prelude.{
  append-nil, sym, subst, ℕ, zero, suc, ◌+◌, ◌%◌, ◌^◌, ◌≡◌, refl, ◌==◌, if◌then◌else◌, true, List,
  [], ◌∷◌, length, map, All, Option, none, some, Result, ok, err, ◌>>=◌, from_option, out_of_bounds,
  arith, min,
}
use lsm_tree_engine.SkipList.Invariant.{IsLinked, Holds}
use lsm_tree_engine.Prelude.Order.{eq_bytes, lt_bytes}
use lsm_tree_engine.Bytes.{sub_size}
use lsm_tree_engine.SkipList.{
  SkipList, Version, forward_at, set_forward, set_backward, descend, version_at,
}
use lsm_tree_engine.SkipList.Iterator.{equal}
use lsm_tree_engine.SkipList.Versions.{key_of}
use lsm_tree_engine.SkipList.Finding.{descend-place, forward_at-place}

-- `for (int i = 0; i < current_level; i++)` with the `break`, `n` levels left.
unfoldable pub unlink_loop : SkipList → ℕ → (ℕ → Option ℕ) → ℕ → ℕ → Result SkipList
unlink_loop s current update zero i = ok s
unlink_loop s current update (suc n) i = do
  u ← from_option out_of_bounds (update i)
  next ← forward_at s i u
  if equal next (some current)
      then (do
        after ← forward_at s i current
        s' ← set_forward s i u after
        unlink_loop s' current update n (i + 1))
      else ok s

-- The backward pointers, `n` levels left.
unfoldable pub backward_loop : SkipList → ℕ → (ℕ → Option ℕ) → ℕ → ℕ → Result SkipList
backward_loop s current update zero i = ok s
backward_loop s current update (suc n) i = do
  next ← forward_at s i current
  s' ← elim next [ none ↦ ok s | some a ↦ set_backward s i a (update i) ]
  backward_loop s' current update n (i + 1)

-- `while (current_level > 1 && head->forward[current_level - 1] == nullptr)`, the level to be lowered.
unfoldable pub lower_level : SkipList → ℕ → Result ℕ
lower_level s zero = ok 0
lower_level s (suc n) = if n == 0 then ok 1 else (do
  first ← forward_at s n s.head
  elim first [ none ↦ lower_level s n | some a ↦ ok (suc n) ])

unfoldable pub remove : SkipList → List ℕ → Result SkipList
remove s key = do
  (before, update) ←
      descend s (λ a. lt_bytes (s.nodes a).key key) (s.nodes s.head).height s.head (λ i. none)
  next ← forward_at s 0 before
  current ← from_option out_of_bounds next
  s₁ ←
      if eq_bytes (s.nodes current).key key
      then unlink_loop s current update s.current_level 0
      else ok s
  s₂ ← backward_loop s₁ current update (min (s₁.nodes current).height s₁.current_level) 0
  current_level ← lower_level s₂ s₂.current_level
  ok (record s₂ {
    size_bytes =
        (s₂.size_bytes + sub_size 0 (length key + length (s₂.nodes current).value)) % 2 ^ 64;
    current_level = current_level;
  })

All-map :
    (Q : Version → Type 0) (f : ℕ → Version) (xs : List ℕ)
    → All Q (map f xs)
    → All (λ a. Q (f a)) xs
All-map Q f [] h = tt
All-map Q f (x ∷ xs) (q, h) = (q, All-map Q f xs h)

-- `remove` of a key behind all keys of a well formed skip list, an empty one included, goes through a
-- null pointer.
pub remove-past :
    (s : SkipList) (versions : List Version) (key : List ℕ)
    → Holds s versions
    → All (λ v. lt_bytes (key_of v) key ≡ true) versions
    → remove s key ≡ err out_of_bounds
unfolding remove
remove-past s versions key h behind =
    let inv =
      subst (λ (xs : List ℕ). IsLinked s xs h.linked) (sym (append-nil h.addresses)) h.is_linked in
    let before : All (λ a. lt_bytes (s.nodes a).key key ≡ true) h.addresses =
      All-map (λ v. lt_bytes (key_of v) key ≡ true) (version_at s) h.addresses
        (subst (All (λ v. lt_bytes (key_of v) key ≡ true)) (sym h.versions_eq) behind) in
    let (update, run, met) =
      descend-place s h.addresses [] h.linked inv (λ a. lt_bytes (s.nodes a).key key) before tt
        (s.nodes s.head).height (omega (arith, inv.head_height, inv.positive, inv.bounded))
        (omega (arith, inv.head_height)) in
    let found =
      forward_at-place s h.addresses [] h.linked inv (λ a. lt_bytes (s.nodes a).key key) before
        tt in
    rw (run, found) refl
