-- ===== src/Transaction/Tests.antt =====
-- The theorems on transactions (src/engine/transaction.cpp) at concrete inputs, with an engine that
-- keeps the last version of a key in memory.
use lsm_tree_engine.Prelude.{
  ◌∙◌, get_elem?, ℕ, ◌<◌, ◌≡◌, refl, ap, true, List, [], ◌∷◌, Option, none, some, ok, arith,
}
use lsm_tree_engine.Transaction.{
  commit_record, TranContext, IsolationLevel, read_uncommitted, repeatable_read, serializable,
  new_context, new_tranc, put_through, put, query, repeatable_query, get, commit,
}
use lsm_tree_engine.Prelude.Order.{compare_bytes}
use lsm_tree_engine.Prelude.Maps.{Map, find, insert}
use lsm_tree_engine.Wal.{Wal}
use lsm_tree_engine.Wal.Record.{Record, create_record, put_record}
use lsm_tree_engine.Transaction.Storage.{Engine, Found}
use lsm_tree_engine.Transaction.Manager.{TranManager, get_next_tranc_id}
use lsm_tree_engine.Transaction.Manager.Ids.{IsWord}
use lsm_tree_engine.Transaction.Begin.{begin_all, begin_all-Increasing}
use lsm_tree_engine.Transaction.Buffered.{
  Write, puts, removes, last_write, apply_all, get-apply_all,
}
use lsm_tree_engine.Transaction.Reads.{read, read_all, get-read_all}
use lsm_tree_engine.Transaction.Commit.{any_clash, clashes, commit-Decides, commit-apply_all}
use lsm_tree_engine.Transaction.Abort.{put_all}

abbrev in_memory : Map Found → List ℕ → Option Found
in_memory s key = find key s

abbrev toy : Engine
toy = record {
  Contents = Map Found;
  get = λ s key id. ok (in_memory s key);
  put = λ s key value id. ok (insert key (value, id) s);
  remove = λ s key id. ok (insert key ([], id) s);
  memtable_get = λ s key id. ok (in_memory s key);
  sst_get = λ s key id. ok none;
}

abbrev same : Record → Record
same r = r

abbrev a : List ℕ
a = b'a' ∷ []

abbrev b : List ℕ
b = b'b' ∷ []

abbrev context : IsolationLevel → TranContext
context level = record {
  tranc_id = 7;
  operations = [];
  isolation_level = level;
  rollback_map = [];
  read_map = [];
  temp_map = [];
}

-- The contents before and after a later transaction's write.
abbrev before : Map Found
before = (a, (b'x' ∷ [], 3)) ∷ []

abbrev after : Map Found
after = (a, (b'y' ∷ [], 9)) ∷ []

abbrev writes : List Write
writes = puts a (b'z' ∷ []) ∷ removes a ∷ puts b (b'w' ∷ []) ∷ []

abbrev log_file : Wal
log_file = record {
  log_file = [];
  closed = [];
  seq = 0;
  file_size_limit = 4096;
  buffer_size = 128;
  buffer = [];
  max_finished_tranc_id = 0;
}

abbrev manager : TranManager
manager = record {
  wal = some log_file;
  next_tranc_id = 8;
  max_flushed_tranc_id = 0;
  max_finished_tranc_id = 6;
}

manager-IsWord : IsWord manager
manager-IsWord = record {
  next_fits = omega arith;
  flushed_fits = omega arith;
  finished_fits = omega arith;
}

abbrev levels : List (IsolationLevel × IsolationLevel)
levels = (serializable, serializable) ∷ (read_uncommitted, serializable) ∷ []

-- The two transactions that are begun.
abbrev first_begun : TranContext
first_begun = record (context serializable) { tranc_id = 8; operations = create_record 88 8 ∷ [] }

abbrev second_begun : TranContext
second_begun = record (context read_uncommitted) {
  tranc_id = 9;
  operations = create_record 88 9 ∷ [];
}

begun : begin_all 88 manager levels ≡ first_begun ∷ second_begun ∷ []
unfolding begin_all new_tranc new_context get_next_tranc_id
begun = refl

begin_all-Increasing_example : first_begun.tranc_id < second_begun.tranc_id
begin_all-Increasing_example =
    begin_all-Increasing 88 manager levels 0 1 first_begun second_begun (omega arith) (omega arith)
      (ap (λ (cs : List TranContext). get_elem? cs 0) begun)
      (ap (λ (cs : List TranContext). get_elem? cs 1) begun)

get-apply_all_example :
    (c' : TranContext) × (apply_all toy 88 same (context serializable) before writes
      ≡ ok (c', before))
    × ((later : Map Found) (key value : List ℕ)
        → last_write writes key ≡ some value
        → get toy 88 same c' later key ≡ ok (some value, c'))
get-apply_all_example = get-apply_all toy 88 same (context serializable) before writes refl

-- What is read after the removal: the empty string, not a missing value.
last_removal : last_write writes a ≡ some []
unfolding last_write compare_bytes
last_removal = refl

-- The context once the key was read.
abbrev reader : TranContext
reader = record (context repeatable_read) { read_map = (a, some (b'x' ∷ [], 3)) ∷ [] }

abbrev reader₂ : TranContext
reader₂ = record reader { read_map = (a, some (b'x' ∷ [], 3)) ∷ (b, none) ∷ [] }

first_read : read toy 88 same (context repeatable_read) before a ≡ ok (some (b'x' ∷ []), reader)
unfolding get query repeatable_query find insert compare_bytes
first_read = refl

more_reads : read_all toy 88 same reader ((after, b) ∷ (after, a) ∷ []) ≡ ok reader₂
unfolding read_all get query repeatable_query find insert compare_bytes
more_reads = refl

get-read_all_example : read toy 88 same reader₂ after a ≡ ok (some (b'x' ∷ []), reader₂)
get-read_all_example =
    get-read_all toy 88 same (context repeatable_read) reader reader₂ before after a
      (some (b'x' ∷ [])) ((after, b) ∷ (after, a) ∷ []) refl first_read more_reads

-- A context with a buffered write of the key that a later transaction has changed in `after`.
abbrev writer : TranContext
writer = record (context serializable) { temp_map = (a, some (b'z' ∷ [])) ∷ [] }

conflicting : any_clash (clashes 7 0 (in_memory after) (λ _. none)) writer.temp_map ≡ true
unfolding any_clash find compare_bytes
conflicting = refl

-- A transaction that buffers a write and commits with success; the contents stay `before`.
abbrev buffered : TranContext
buffered = record writer { operations = put_record 88 same 7 a (b'z' ∷ []) ∷ [] }

abbrev committed_operations : List Record
committed_operations = put_record 88 same 7 a (b'z' ∷ []) ∷ commit_record 88 7 ∷ []

abbrev committed : TranContext
committed = record buffered { operations = committed_operations }

abbrev committed_manager : TranManager
committed_manager = record manager {
  wal = some (record log_file { buffer = committed_operations });
  max_finished_tranc_id = 7;
}

buffers :
    apply_all toy 88 same (context serializable) before (puts a (b'z' ∷ []) ∷ [])
    ≡ ok (buffered, before)
unfolding apply_all put find insert compare_bytes
buffers = refl

commits :
    commit toy 88 same (λ _. []) true buffered manager before
    ≡ ok (true, committed, committed_manager, before)
commits =
    commit-Decides toy 88 same (λ _. []) true buffered manager log_file before (in_memory before)
      (λ _. none) refl refl (λ key. refl) (λ key. refl)
    ∙ (unfold any_clash find compare_bytes in refl)

commit-apply_all_example : before ≡ before
commit-apply_all_example =
    commit-apply_all toy 88 same (λ _. []) true (context serializable) buffered committed manager
      committed_manager before before before (puts a (b'z' ∷ []) ∷ []) true refl buffers commits

-- A put at ReadUncommitted and the abort of its transaction.
abbrev uncommitted : TranContext
uncommitted = record (context read_uncommitted) {
  operations = put_record 88 same 7 a (b'z' ∷ []) ∷ [];
}

put_now :
    put_all toy 88 same (context read_uncommitted) before ((a, b'z' ∷ []) ∷ [])
    ≡ ok (uncommitted, (a, (b'z' ∷ [], 7)) ∷ [])
unfolding put_all put put_through find insert compare_bytes
put_now = refl
