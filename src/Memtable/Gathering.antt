-- ===== src/Memtable/Gathering.antt =====
-- The items that `Memtable::begin` (src/memtable/memtable.cpp) gives to its iterator.
use lsm_tree_engine.Prelude.{
  ℕ, ◌+◌, ◌≡◌, refl, ◌∙◌, ◌==◌, Bool, false, Bool-cases, inl, inr, List, [], ◌∷◌, ◌++◌, All, ok,
  arith,
}
use lsm_tree_engine.SkipList.{SkipList, Version}
use lsm_tree_engine.SkipList.Get.{flush-versions}
use lsm_tree_engine.SkipList.Iterator.{read_all, read_all-flush}
use lsm_tree_engine.HeapIterator.{SearchItem, new_iterator}
use lsm_tree_engine.Memtable.{Memtable, collect, gather, skips_others, begin}
use lsm_tree_engine.Memtable.Contents.{Contains, HoldAll}

-- The items of all tables, numbered from `table_idx` on.
abbrev pub collect_all : (ℕ → Bool) → ℕ → List (List Version) → List SearchItem
collect_all skips table_idx [] = []
collect_all skips table_idx (v ∷ vs) =
    collect skips table_idx v ++ collect_all skips (table_idx + 1) vs

gather-collect_all :
    (skips : ℕ → Bool) (table_idx : ℕ) (tables : List SkipList) (versions : List (List Version))
    → HoldAll tables versions
    → gather read_all skips table_idx tables ≡ ok (collect_all skips table_idx versions)
unfolding gather
gather-collect_all skips table_idx [] [] h = refl
gather-collect_all skips table_idx [] (v ∷ vs) h = elim h [ ]
gather-collect_all skips table_idx (t ∷ ts) [] h = elim h [ ]
gather-collect_all skips table_idx (t ∷ ts) (v ∷ vs) (holds, h) =
    let here : read_all t ≡ ok v = read_all-flush t ∙ flush-versions t v holds in
    rw (here, gather-collect_all skips (table_idx + 1) ts vs h) refl

collect_own :
    (tranc_id table_idx : ℕ) (versions : List Version)
    → (tranc_id == 0) ≡ false
    → All
        (λ (x : SearchItem). x.tranc_id ≡ tranc_id)
        (collect (skips_others tranc_id) table_idx versions)
unfolding collect
collect_own tranc_id table_idx [] snapshot = tt
collect_own tranc_id table_idx ((key, value, id) ∷ versions) snapshot =
    let rest = collect_own tranc_id table_idx versions snapshot in
    elim (Bool-cases (id == tranc_id)) [
      | inl own ↦ rw (snapshot, own) (ground arith, rest)
      | inr other ↦ rw (snapshot, other) rest
    ]

All-append_items :
    (Q : SearchItem → Type 0) (xs ys : List SearchItem) → All Q xs → All Q ys → All Q (xs ++ ys)
All-append_items Q [] ys h k = k
All-append_items Q (x ∷ xs) ys (q, h) k = (q, All-append_items Q xs ys h k)

collect_all_own :
    (tranc_id table_idx : ℕ) (tables : List (List Version))
    → (tranc_id == 0) ≡ false
    → All
        (λ (x : SearchItem). x.tranc_id ≡ tranc_id)
        (collect_all (skips_others tranc_id) table_idx tables)
collect_all_own tranc_id table_idx [] snapshot = tt
collect_all_own tranc_id table_idx (v ∷ vs) snapshot =
    All-append_items (λ x. x.tranc_id ≡ tranc_id) _ _ (collect_own tranc_id table_idx v snapshot)
      (collect_all_own tranc_id (table_idx + 1) vs snapshot)

-- `begin` in a transaction other than 0 makes its iterator of versions that this transaction wrote
-- itself, and of no others, whatever the memory table holds; its tables are well formed.
pub begin-own :
    (queue : List SearchItem → List SearchItem) (m : Memtable) (current : List Version)
    (frozen : List (List Version)) (tranc_id : ℕ)
    → Contains m current frozen
    → (tranc_id == 0) ≡ false
    → (items : List SearchItem) × (begin queue m tranc_id ≡ new_iterator queue items tranc_id)
      × All (λ x. x.tranc_id ≡ tranc_id) items
unfolding begin
begin-own queue m current frozen tranc_id h snapshot = (
  collect_all (skips_others tranc_id) 0 (current ∷ frozen),
  rw
      (gather-collect_all (skips_others tranc_id) 0 (m.current_table ∷ m.frozen_tables)
        (current ∷ frozen) (h.current_holds, h.frozen_hold))
      refl,
  collect_all_own tranc_id 0 (current ∷ frozen) snapshot,
)
