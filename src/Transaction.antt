-- ===== src/Transaction.antt =====
-- src/engine/transaction.cpp, include/engine/transaction.h: the context of a transaction. The storage engine is
-- the interface `Engine`; `sizeof_record` and `no_return` are the parameters of the log records, `object`
-- and `synced` those of the log.
pub mod Storage
pub mod Manager
pub mod Buffered
pub mod Reads
pub mod Begin
pub mod Commit
pub mod Abort
mod Tests
use lsm_tree_engine.Prelude.{
  ℕ, ltb, leb, if◌then◌else◌, Bool, true, false, List, [], ◌∷◌, ◌++◌, Option, none, some, Result,
  ok, err, ◌>>=◌, write_failed,
}
use lsm_tree_engine.Prelude.Maps.{Map, find, insert}
use lsm_tree_engine.Wal.Record.{
  Record, create_record, put_record, delete_record, commit_record, rollback_record,
}
use lsm_tree_engine.Transaction.Storage.{Engine, Found}
use lsm_tree_engine.Transaction.Manager.{
  TranManager, get_next_tranc_id, write_to_wal, update_max_finished_tranc_id,
}

pub data IsolationLevel : Type 0 where
  read_uncommitted read_committed repeatable_read serializable : IsolationLevel
  -- an `int` that names no enumerator
  unnamed : ℕ → IsolationLevel

pub record TranContext : Type 0 where
  pub tranc_id : ℕ
  pub operations : List Record
  pub isolation_level : IsolationLevel
  pub rollback_map : Map (Option Found)
  pub read_map : Map (Option Found)
  pub temp_map : Map (Option (List ℕ))

-- The constructor leaves `isolation_level_` as the memory was: `stale`, whatever level is asked for.
pub new_context : ℕ → ℕ → IsolationLevel → IsolationLevel → TranContext
new_context sizeof_record tranc_id stale isolation_level = record {
  tranc_id = tranc_id;
  operations = create_record sizeof_record tranc_id ∷ [];
  isolation_level = stale;
  rollback_map = [];
  read_map = [];
  temp_map = [];
}

pub new_tranc : ℕ → TranManager → IsolationLevel → IsolationLevel → TranContext × TranManager
new_tranc sizeof_record m stale isolation_level =
    let (tranc_id, m') = get_next_tranc_id m in
    (new_context sizeof_record tranc_id stale isolation_level, m')

abbrev pub is_read_uncommitted : IsolationLevel → Bool
is_read_uncommitted read_uncommitted = true
is_read_uncommitted level = false

abbrev pub checks_conflicts : IsolationLevel → Bool
checks_conflicts repeatable_read = true
checks_conflicts serializable = true
checks_conflicts level = false

abbrev pub value_of : Option Found → Option (List ℕ)
value_of none = none
value_of (some (value, tranc_id)) = some value

-- A version of a later transaction.
abbrev pub is_newer : ℕ → Option Found → Bool
is_newer tranc_id none = false
is_newer tranc_id (some (value, writer)) = ltb tranc_id writer

module _ (E : Engine) (sizeof_record : ℕ) (no_return : Record → Record) where
  -- The value that `put` reads into `prev_record` is not kept.
  pub put_through : TranContext → E.Contents → List ℕ → List ℕ → Result E.Contents
  put_through c s key value = elim (find key c.rollback_map) [
    | none ↦ (do prev_record ← E.get s key c.tranc_id; E.put s key value c.tranc_id)
    | some r ↦ E.put s key value c.tranc_id
  ]

  pub put : TranContext → E.Contents → List ℕ → List ℕ → Result (TranContext × E.Contents)
  put c s key value = do
    let operations = c.operations ++ (put_record sizeof_record no_return c.tranc_id key value ∷ [])
    let c' = record c { operations = operations }
    if is_read_uncommitted c.isolation_level
        then (do s' ← put_through c' s key value; ok (c', s'))
        else ok (record c' { temp_map = insert key (some value) c.temp_map }, s)

  -- The context with the value before the first removal of the key in `rollback_map_`.
  pub keep_previous : TranContext → E.Contents → List ℕ → Result TranContext
  keep_previous c s key = elim (find key c.rollback_map) [
    | none ↦ (do
      prev_record ← E.get s key c.tranc_id
      ok (record c { rollback_map = insert key prev_record c.rollback_map }))
    | some r ↦ ok c
  ]

  pub remove : TranContext → E.Contents → List ℕ → Result (TranContext × E.Contents)
  remove c s key = do
    let operations = c.operations ++ (delete_record sizeof_record c.tranc_id key ∷ [])
    let c' = record c { operations = operations }
    if is_read_uncommitted c.isolation_level
        then (do c₁ ← keep_previous c' s key; s' ← E.remove s key c.tranc_id; ok (c₁, s'))
        else ok (record c' { temp_map = insert key (some []) c.temp_map }, s)

  -- The query of `get` at levels RepeatableRead and above.
  pub repeatable_query : TranContext → E.Contents → List ℕ → Result (Option Found × TranContext)
  repeatable_query c s key = elim (find key c.read_map) [
    | some seen ↦ ok (seen, c)
    | none ↦ (do
      seen ← E.get s key c.tranc_id
      ok (seen, record c { read_map = insert key seen c.read_map }))
  ]

  pub query :
      TranContext → E.Contents → List ℕ → IsolationLevel → Result (Option Found × TranContext)
  query c s key read_uncommitted = do seen ← E.get s key 0; ok (seen, c)
  query c s key read_committed = do seen ← E.get s key c.tranc_id; ok (seen, c)
  query c s key level = repeatable_query c s key

  pub get : TranContext → E.Contents → List ℕ → Result (Option (List ℕ) × TranContext)
  get c s key = elim (find key c.temp_map) [
    | some value ↦ ok (value, c)
    | none ↦ (do (seen, c') ← query c s key c.isolation_level; ok (value_of seen, c'))
  ]

  -- Whether the loop of `commit` over `temp_map_` finds a conflict.
  pub conflicts : E.Contents → ℕ → ℕ → Map (Option (List ℕ)) → Result Bool
  conflicts s tranc_id max_flushed [] = ok false
  conflicts s tranc_id max_flushed ((key, v) ∷ rest) =
      let next = conflicts s tranc_id max_flushed rest in
      let on_disk = (do
        found ← E.sst_get s key 0
        if is_newer tranc_id found then ok true else next) in
      (do
        found ← E.memtable_get s key 0
        if is_newer tranc_id found
            then ok true
            else (if leb max_flushed tranc_id then next else on_disk))

  -- The end of `commit`: what it returns, the context and the manager.
  pub finish :
      (Record → List ℕ)
      → Bool
      → TranContext
      → TranManager
      → Result (Bool × TranContext × TranManager)
  finish object synced c m = do
    let c' = record c { operations = c.operations ++ (commit_record sizeof_record c.tranc_id ∷ []) }
    (wal_success, m') ← write_to_wal object synced m c'.operations
    if wal_success
        then ok (true, c', update_max_finished_tranc_id m' c.tranc_id)
        else err write_failed

  -- The conflict check of `commit`, which only two levels have, and what follows its outcome.
  pub check : TranContext → TranManager → E.Contents → Result Bool
  check c m s =
      if checks_conflicts c.isolation_level
      then conflicts s c.tranc_id m.max_flushed_tranc_id c.temp_map
      else ok false

  pub conclude :
      (Record → List ℕ)
      → Bool
      → TranContext
      → TranManager
      → E.Contents
      → Bool
      → Result (Bool × TranContext × TranManager × E.Contents)
  conclude object synced c m s true = ok (
    false,
    record c { operations = c.operations ++ (rollback_record sizeof_record c.tranc_id ∷ []) },
    m,
    s,
  )
  conclude object synced c m s false = do
    (committed, c', m') ← finish object synced c m
    ok (committed, c', m', s)

  pub commit :
      (Record → List ℕ)
      → Bool
      → TranContext
      → TranManager
      → E.Contents
      → Result (Bool × TranContext × TranManager × E.Contents)
  commit object synced c m s = do conflict ← check c m s; conclude object synced c m s conflict

  -- One round of `abort`.
  pub restore : ℕ → E.Contents → List ℕ → Option Found → Result E.Contents
  restore tranc_id s key (some (value, writer)) = E.put s key value writer
  restore tranc_id s key none = E.remove s key tranc_id

  pub restore_all : ℕ → E.Contents → Map (Option Found) → Result E.Contents
  restore_all tranc_id s [] = ok s
  restore_all tranc_id s ((key, found) ∷ rest) = do
    s' ← restore tranc_id s key found
    restore_all tranc_id s' rest

  pub abort : TranContext → E.Contents → Result (Bool × E.Contents)
  abort c s =
      if is_read_uncommitted c.isolation_level
      then (do s' ← restore_all c.tranc_id s c.rollback_map; ok (true, s'))
      else ok (true, s)
