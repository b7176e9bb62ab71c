-- ===== src/Memtable/Flushing.antt =====
-- `Memtable::flush_last` (src/memtable/memtable.cpp): which table goes to the builder, and what is left.
use lsm_tree_engine.Prelude.{
  ℕ, ◌≡◌, Bool, true, false, List, [], ◌∷◌, Option, some, Result, ok, ◌>>=◌,
}
use lsm_tree_engine.SkipList.{SkipList, Version}
use lsm_tree_engine.Memtable.{Memtable, SstBuilder, add_all, pop_back}
use lsm_tree_engine.Memtable.Contents.{Contains}

-- What the oldest table holds, and what the others hold: the current one, the frozen ones.
abbrev pub oldest : List Version → List (List Version) → List Version
oldest current [] = current
oldest current (v ∷ vs) = (pop_back v vs).1

abbrev pub current_left : List Version → List (List Version) → List Version
current_left current [] = []
current_left current (v ∷ vs) = current

abbrev pub frozen_left : List (List Version) → List (List Version)
frozen_left [] = []
frozen_left (v ∷ vs) = (pop_back v vs).0

abbrev pub is_nil : List (List Version) → Bool
is_nil [] = true
is_nil (v ∷ vs) = false

module _ (B : SstBuilder) where
  -- The versions go to the builder in their order, and it builds the file.
  abbrev pub build_all : List Version → B.State → Memtable → Result (Memtable × Option B.Sst)
  build_all versions builder m = do
    builder' ← add_all B builder versions
    sst ← B.build builder'
    ok (m, some sst)

  -- A memory table by its parts.
  abbrev memory : SkipList → List SkipList → ℕ → Memtable
  memory table tables bytes = record {
    current_table = table;
    frozen_tables = tables;
    frozen_bytes = bytes;
  }

  -- Something is built of `versions`, and the memory table then holds these.
  abbrev Builds :
      Result (Memtable × Option B.Sst)
      → B.State
      → List Version
      → List Version
      → List (List Version)
      → Type 0
  Builds run builder versions current frozen =
      (m : Memtable) × (run ≡ build_all versions builder m) × Contains m current frozen
