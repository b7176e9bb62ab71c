-- ===== src/Memtable/Reads.antt =====
-- The reads of the memory table (src/memtable/memtable.cpp).
use lsm_tree_engine.Prelude.{
  ℕ, ◌≡◌, refl, sym, ◌∙◌, ap, List, [], ◌∷◌, Option, none, some, Result, ok, ◌>>=◌, inl, inr,
}
use lsm_tree_engine.Prelude.Results.{Result-cases}
use lsm_tree_engine.SkipList.{SkipList, Version, version_at, get as get_in_list}
use lsm_tree_engine.SkipList.Versions.{find_version}
use lsm_tree_engine.SkipList.Get.{version_of, get-find_version}
use lsm_tree_engine.Memtable.{
  Memtable, Cursor, cur_get, frozen_get, get, get_batch, frozen_cur_table,
}
use lsm_tree_engine.Memtable.Contents.{Contains, HoldAll, frozen_cur_table-Contains}

abbrev pub cursor_version : Cursor → Option Version
cursor_version none = none
cursor_version (some (table, a)) = some (version_at table a)

abbrev pub or_else : Option Version → Option Version → Option Version
or_else none other = other
or_else (some x) other = some x

-- The visible version of a key in the first table that has one.
unfoldable pub find_tables : List ℕ → ℕ → List (List Version) → Option Version
find_tables key tranc_id [] = none
find_tables key tranc_id (v ∷ vs) =
    or_else (find_version key tranc_id v) (find_tables key tranc_id vs)

-- What is found in a table, or else in those behind it.
frozen_get_first :
    (t : SkipList) (ts : List SkipList) (key : List ℕ) (tranc_id : ℕ) (a : Option ℕ) (c : Cursor)
    → get_in_list t key tranc_id ≡ ok a
    → frozen_get ts key tranc_id ≡ ok c
    → (c' : Cursor) × (frozen_get (t ∷ ts) key tranc_id ≡ ok c')
      × (cursor_version c' ≡ or_else (version_of t a) (cursor_version c))
unfolding frozen_get
frozen_get_first t ts key tranc_id none c run rest = (c, rw run rest, refl)
frozen_get_first t ts key tranc_id (some a) c run rest = (some (t, a), rw run refl, refl)

frozen_get-find_tables :
    (tables : List SkipList) (frozen : List (List Version)) (key : List ℕ) (tranc_id : ℕ)
    → HoldAll tables frozen
    → (c : Cursor) × (frozen_get tables key tranc_id ≡ ok c)
      × (cursor_version c ≡ find_tables key tranc_id frozen)
unfolding frozen_get find_tables
frozen_get-find_tables [] [] key tranc_id h = (none, refl, refl)
frozen_get-find_tables [] (v ∷ vs) key tranc_id h = elim h [ ]
frozen_get-find_tables (t ∷ ts) [] key tranc_id h = elim h [ ]
frozen_get-find_tables (t ∷ ts) (v ∷ vs) key tranc_id (holds, h) =
    let (a, run, found) = get-find_version t v holds key tranc_id in
    let (c, rest, found') = frozen_get-find_tables ts vs key tranc_id h in
    let (c', run', found'') = frozen_get_first t ts key tranc_id a c run rest in
    (
      c',
      run',
      found''
          ∙ ap (λ (x : Option Version). or_else x (cursor_version c)) found
          ∙ ap (or_else (find_version key tranc_id v)) found',
    )

get-frozen_get :
    (m : Memtable) (key : List ℕ) (tranc_id : ℕ)
    → get m key tranc_id ≡ frozen_get (m.current_table ∷ m.frozen_tables) key tranc_id
unfolding get cur_get frozen_get
get-frozen_get m key tranc_id = elim (Result-cases (get_in_list m.current_table key tranc_id)) [
  | inl (none, e) ↦ rw e refl
  | inl (some a, e) ↦ rw e refl
  | inr (fault, e) ↦ rw e refl
]

-- Of a memory table whose tables are well formed `get` never faults; it finds the visible version of
-- the key in the current table or else in the newest frozen table that has one, or null where none has.
pub get-find_tables :
    (m : Memtable) (current : List Version) (frozen : List (List Version)) (key : List ℕ)
    (tranc_id : ℕ)
    → Contains m current frozen
    → (c : Cursor) × (get m key tranc_id ≡ ok c)
      × (cursor_version c ≡ find_tables key tranc_id (current ∷ frozen))
get-find_tables m current frozen key tranc_id h =
    let (c, run, found) =
      frozen_get-find_tables (m.current_table ∷ m.frozen_tables) (current ∷ frozen) key tranc_id
        (h.current_holds, h.frozen_hold) in
    (c, get-frozen_get m key tranc_id ∙ run, found)

-- Freezing the current table changes no `get`: both find the same version, or both none.
pub get-frozen_cur_table :
    (m : Memtable) (current : List Version) (frozen : List (List Version)) (key : List ℕ)
    (tranc_id : ℕ)
    → Contains m current frozen
    → (before : Cursor) × (after : Cursor) × (get m key tranc_id ≡ ok before)
      × (get (frozen_cur_table m) key tranc_id ≡ ok after)
      × (cursor_version after ≡ cursor_version before)
unfolding find_tables find_version
get-frozen_cur_table m current frozen key tranc_id h =
    let (before, run, found) = get-find_tables m current frozen key tranc_id h in
    let (after, run', found') =
      get-find_tables (frozen_cur_table m) [] (current ∷ frozen) key tranc_id
        (frozen_cur_table-Contains m current frozen h) in
    (before, after, run, run', found' ∙ sym found)

-- The results of a call for each key, until one faults.
abbrev pub for_each : (List ℕ → Result Cursor) → List (List ℕ) → Result (List Cursor)
for_each call [] = ok []
for_each call (key ∷ keys) = do
  result ← call key
  results ← for_each call keys
  ok (result ∷ results)

-- `get_batch` is `get` of each key.
pub get_batch-get :
    (m : Memtable) (keys : List (List ℕ)) (tranc_id : ℕ)
    → get_batch m keys tranc_id ≡ for_each (λ key. get m key tranc_id) keys
unfolding get_batch get
get_batch-get m [] tranc_id = refl
get_batch-get m (key ∷ keys) tranc_id = elim (Result-cases (cur_get m key tranc_id)) [
  | inl (none, e) ↦ rw (e, get_batch-get m keys tranc_id) refl
  | inl (some c, e) ↦ rw (e, get_batch-get m keys tranc_id) refl
  | inr (fault, e) ↦ rw e refl
]
