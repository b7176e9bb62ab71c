-- ===== src/Memtable/Contents.antt =====
-- What the memory table (src/memtable/memtable.cpp) holds: the versions of its current table, and those of its
-- frozen ones, newest first.
use lsm_tree_engine.Memtable.{
  get_cur_size, Memtable, Random, new_memtable, put, put_batch, remove, remove_batch, clear,
  frozen_cur_table,
}
use lsm_tree_engine.Prelude.{
  ℕ, ◌+◌, ◌%◌, ◌^◌, ◌≡◌, refl, ap, List, [], ◌∷◌, map, Result, ok, ◌>>=◌, arith,
}
use lsm_tree_engine.SkipList.{SkipList, Version}
use lsm_tree_engine.SkipList.Versions.{insert_version, total_size}
use lsm_tree_engine.SkipList.Invariant.{Holds}
use lsm_tree_engine.SkipList.Putting.{get_size-total_size, put-Holds, new_list-Holds, clear-Holds}

-- Each table holds the versions at its place.
abbrev pub HoldAll : List SkipList → List (List Version) → Type 0
HoldAll [] [] = Unit {0}
HoldAll [] (v ∷ vs) = ⊥
HoldAll (t ∷ ts) [] = ⊥
HoldAll (t ∷ ts) (v ∷ vs) = Holds t v × HoldAll ts vs

abbrev pub total_sizes : List (List Version) → ℕ
total_sizes [] = 0
total_sizes (v ∷ vs) = total_size v + total_sizes vs

-- The invariant: every table is well formed, and `frozen_bytes` is the size of the frozen ones, on `size_t`.
pub record Contains (m : Memtable) (current : List Version) (frozen : List (List Version))
    : Type 0 where
  pub current_holds : Holds m.current_table current
  pub frozen_hold : HoldAll m.frozen_tables frozen
  pub frozen_sized : m.frozen_bytes ≡ total_sizes frozen % 2 ^ 64

-- The versions of a batch, put one after the other.
unfoldable pub insert_pairs : List (List ℕ × List ℕ) → ℕ → List Version → List Version
insert_pairs [] tranc_id versions = versions
insert_pairs ((key, value) ∷ kvs) tranc_id versions =
    insert_pairs kvs tranc_id (insert_version (key, value, tranc_id) versions)

pub put-Contains :
    (random : Random) (m : Memtable) (current : List Version) (frozen : List (List Version))
    → Contains m current frozen
    → (key value : List ℕ) (tranc_id : ℕ)
    → (m' : Memtable) × (put random m key value tranc_id ≡ ok m')
      × Contains m' (insert_version (key, value, tranc_id) current) frozen
unfolding put
put-Contains (coin, bits) m current frozen h key value tranc_id =
    let (table, run, holds) =
      put-Holds coin bits m.current_table current h.current_holds key value tranc_id in
    (
      record m { current_table = table },
      rw run refl,
      record { current_holds = holds; frozen_hold = h.frozen_hold; frozen_sized = h.frozen_sized },
    )

-- On a memory table whose tables are well formed and whose `frozen_bytes` is right `put_batch` never
-- faults, and leaves them so; it puts its pairs in their order into the current table, and leaves the
-- frozen tables as they are.
pub put_batch-Contains :
    (random : ℕ → Random) (i : ℕ) (kvs : List (List ℕ × List ℕ)) (tranc_id : ℕ) (m : Memtable)
    (current : List Version) (frozen : List (List Version))
    → Contains m current frozen
    → (m' : Memtable) × (put_batch random i m kvs tranc_id ≡ ok m')
      × Contains m' (insert_pairs kvs tranc_id current) frozen
unfolding put_batch insert_pairs
put_batch-Contains random i [] tranc_id m current frozen h = (m, refl, h)
put_batch-Contains random i ((key, value) ∷ kvs) tranc_id m current frozen h =
    let (m₁, run, h₁) = put-Contains (random i) m current frozen h key value tranc_id in
    let (m', runs, h') =
      put_batch-Contains random (i + 1) kvs tranc_id m₁
        (insert_version (key, value, tranc_id) current) frozen h₁ in
    (m', rw run runs, h')

-- A batch of removals is a batch of empty values.
pub remove_batch-put_batch :
    (random : ℕ → Random) (i : ℕ) (keys : List (List ℕ)) (tranc_id : ℕ) (m : Memtable)
    → remove_batch random i m keys tranc_id
      ≡ put_batch random i m (map (λ (key : List ℕ). (key, [])) keys) tranc_id
unfolding remove_batch put_batch put remove
remove_batch-put_batch random i [] tranc_id m = refl
remove_batch-put_batch random i (key ∷ keys) tranc_id m =
    ap (λ (rest : Memtable → Result Memtable). put (random i) m key [] tranc_id >>= rest)
      (λ j m'. remove_batch-put_batch random (i + 1) keys tranc_id m' j)

pub new_memtable-Contains : Contains new_memtable [] []
unfolding new_memtable
new_memtable-Contains = record {
  current_holds = new_list-Holds 16 (omega arith);
  frozen_hold = tt;
  frozen_sized = refl;
}

pub clear-Contains :
    (m : Memtable) (current : List Version) (frozen : List (List Version))
    → Contains m current frozen
    → Contains (clear m) [] []
unfolding clear
clear-Contains m current frozen h = record {
  current_holds = clear-Holds m.current_table current h.current_holds;
  frozen_hold = tt;
  frozen_sized = refl;
}

-- The current table becomes the newest frozen one.
pub frozen_cur_table-Contains :
    (m : Memtable) (current : List Version) (frozen : List (List Version))
    → Contains m current frozen
    → Contains (frozen_cur_table m) [] (current ∷ frozen)
unfolding frozen_cur_table
frozen_cur_table-Contains m current frozen h = record {
  current_holds = new_list-Holds 16 (omega arith);
  frozen_hold = (h.current_holds, h.frozen_hold);
  frozen_sized =
      omega (arith, h.frozen_sized, get_size-total_size m.current_table current h.current_holds);
}

pub get_cur_size-total_size :
    (m : Memtable) (current : List Version) (frozen : List (List Version))
    → Contains m current frozen
    → get_cur_size m ≡ total_size current % 2 ^ 64
unfolding get_cur_size
get_cur_size-total_size m current frozen h =
    get_size-total_size m.current_table current h.current_holds
