-- ===== src/Transaction/Commit.antt =====
-- `TranContext::commit` (src/engine/transaction.cpp).
use lsm_tree_engine.Transaction.{
  check, conclude, TranContext, is_read_uncommitted, checks_conflicts, is_newer, conflicts, finish,
  commit,
}
use lsm_tree_engine.Prelude.{
  ℕ, ◌≡◌, refl, sym, ◌∙◌, ap, max, ltb, Bool, true, false, ◌&&◌, ◌||◌, List, [], ◌∷◌, ◌++◌, Option,
  some, Result, ok, first_ok, ok-injective, arith,
}
use lsm_tree_engine.Prelude.Maps.{Map}
use lsm_tree_engine.Wal.{Wal}
use lsm_tree_engine.Wal.Buffering.{log_unforced}
use lsm_tree_engine.Wal.Record.{Record, commit_record, rollback_record}
use lsm_tree_engine.Transaction.Storage.{Engine, Found}
use lsm_tree_engine.Transaction.Manager.{TranManager, write_to_wal, update_max_finished_tranc_id}
use lsm_tree_engine.Transaction.Buffered.{Write, apply_all, apply_all_lem}

-- The manager once a log took the records.
abbrev pub logged : TranManager → Wal → List Record → TranManager
logged m w operations = record m { wal = some (record w { buffer = w.buffer ++ operations }) }

write_to_wal_lem :
    (object : Record → List ℕ) (synced : Bool) (m : TranManager) (w : Wal)
    (operations : List Record)
    → m.wal ≡ some w
    → write_to_wal object synced m operations ≡ ok (true, logged m w operations)
unfolding write_to_wal
write_to_wal_lem object synced m w operations there =
    rw (there, log_unforced object synced w operations) refl

-- Whether a later transaction has changed the key, for the versions that memory table and SST files hold; the
-- files are asked only if the transaction is below the largest flushed one.
abbrev pub clashes : ℕ → ℕ → (List ℕ → Option Found) → (List ℕ → Option Found) → List ℕ → Bool
clashes tranc_id max_flushed in_memory on_disk key =
    is_newer tranc_id (in_memory key)
    || (ltb tranc_id max_flushed && is_newer tranc_id (on_disk key))

unfoldable pub any_clash : (List ℕ → Bool) → Map (Option (List ℕ)) → Bool
any_clash clash [] = false
any_clash clash ((key, v) ∷ rest) = clash key || any_clash clash rest

module _ (E : Engine) (sizeof_record : ℕ) (no_return : Record → Record) where
  conflicts_lem :
      (s : E.Contents) (tranc_id max_flushed : ℕ) (in_memory on_disk : List ℕ → Option Found)
      (m : Map (Option (List ℕ)))
      → ((key : List ℕ) → E.memtable_get s key 0 ≡ ok (in_memory key))
      → ((key : List ℕ) → E.sst_get s key 0 ≡ ok (on_disk key))
      → conflicts E sizeof_record no_return s tranc_id max_flushed m
        ≡ ok (any_clash (clashes tranc_id max_flushed in_memory on_disk) m)
  unfolding conflicts any_clash
  conflicts_lem s tranc_id max_flushed in_memory on_disk [] mem disk = refl
  conflicts_lem s tranc_id max_flushed in_memory on_disk ((key, v) ∷ rest) mem disk =
      let again = conflicts_lem s tranc_id max_flushed in_memory on_disk rest mem disk in
      rw (mem key, disk key, again) (ground arith)

  -- What `commit` leaves at a level that checks for conflicts.
  abbrev pub decided :
      TranContext
      → TranManager
      → Wal
      → E.Contents
      → Bool
      → Result (Bool × TranContext × TranManager × E.Contents)
  decided c m w s true = ok (
    false,
    record c { operations = c.operations ++ (rollback_record sizeof_record c.tranc_id ∷ []) },
    m,
    s,
  )
  decided c m w s false =
      let operations = c.operations ++ (commit_record sizeof_record c.tranc_id ∷ []) in
      ok (
        true,
        record c { operations = operations },
        record (logged m w operations) {
          max_finished_tranc_id = max c.tranc_id m.max_finished_tranc_id;
        },
        s,
      )

  conclude_lem :
      (object : Record → List ℕ) (synced : Bool) (c : TranContext) (m : TranManager) (w : Wal)
      (s : E.Contents) (clash : Bool)
      → m.wal ≡ some w
      → conclude E sizeof_record no_return object synced c m s clash ≡ decided c m w s clash
  unfolding conclude finish update_max_finished_tranc_id
  conclude_lem object synced c m w s true there = refl
  conclude_lem object synced c m w s false there =
      let operations : List Record =
        c.operations ++ (commit_record sizeof_record c.tranc_id ∷ []) in
      rw (write_to_wal_lem object synced m w operations there) refl

  pub commit-Decides :
      (object : Record → List ℕ) (synced : Bool) (c : TranContext) (m : TranManager) (w : Wal)
      (s : E.Contents) (in_memory on_disk : List ℕ → Option Found)
      → checks_conflicts c.isolation_level ≡ true
      → m.wal ≡ some w
      → ((key : List ℕ) → E.memtable_get s key 0 ≡ ok (in_memory key))
      → ((key : List ℕ) → E.sst_get s key 0 ≡ ok (on_disk key))
      → commit E sizeof_record no_return object synced c m s
        ≡ decided c m w s
            (any_clash (clashes c.tranc_id m.max_flushed_tranc_id in_memory on_disk) c.temp_map)
  unfolding commit check
  commit-Decides object synced c m w s in_memory on_disk checked there mem disk =
      rw
        (
          checked,
          conflicts_lem s c.tranc_id m.max_flushed_tranc_id in_memory on_disk c.temp_map mem disk,
        )
        (conclude_lem object synced c m w s _ there)

  conclude_keeps :
      (object : Record → List ℕ) (synced : Bool) (c : TranContext) (m : TranManager)
      (s : E.Contents) (clash b : Bool) (c' : TranContext) (m' : TranManager) (s' : E.Contents)
      → conclude E sizeof_record no_return object synced c m s clash ≡ ok (b, c', m', s')
      → s' ≡ s
  unfolding conclude
  conclude_keeps object synced c m s true b c' m' s' run = cc
  conclude_keeps object synced c m s false b c' m' s' run =
      let (result, _, run') = first_ok (finish E sizeof_record no_return object synced c m) _ run in
      cc

  -- Whatever `commit` answers, the contents of the engine are what they were.
  commit_keeps :
      (object : Record → List ℕ) (synced : Bool) (c : TranContext) (m : TranManager)
      (s : E.Contents) (b : Bool) (c' : TranContext) (m' : TranManager) (s' : E.Contents)
      → commit E sizeof_record no_return object synced c m s ≡ ok (b, c', m', s')
      → s' ≡ s
  unfolding commit
  commit_keeps object synced c m s b c' m' s' run =
      let (clash, _, run') = first_ok (check E sizeof_record no_return c m s) _ run in
      conclude_keeps object synced c m s clash b c' m' s' run'

  -- The writes of a transaction at a level other than ReadUncommitted never reach the engine: after any
  -- sequence of `put` and `remove` and a `commit` that answers, be it `true`, the contents are those before the
  -- transaction.
  pub commit-apply_all :
      (object : Record → List ℕ) (synced : Bool) (c c₁ c₂ : TranContext) (m m' : TranManager)
      (s s₁ s₂ : E.Contents) (ws : List Write) (b : Bool)
      → is_read_uncommitted c.isolation_level ≡ false
      → apply_all E sizeof_record no_return c s ws ≡ ok (c₁, s₁)
      → commit E sizeof_record no_return object synced c₁ m s₁ ≡ ok (b, c₂, m', s₂)
      → s₂ ≡ s
  commit-apply_all object synced c c₁ c₂ m m' s s₁ s₂ ws b buffered writes run =
      let (c', run', level, id, temp, reads) =
        apply_all_lem E sizeof_record no_return c s ws buffered in
      commit_keeps object synced c₁ m s₁ b c₂ m' s₂ run
      ∙ ap (λ (r : TranContext × E.Contents). r.1) (ok-injective (sym writes ∙ run'))
