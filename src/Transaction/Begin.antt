-- ===== src/Transaction/Begin.antt =====
-- `TranManager::new_tranc` (src/engine/transaction.cpp): the ids of the transactions that are begun.
use lsm_tree_engine.Prelude.{
  ℕ, zero, suc, ◌+◌, ◌%◌, ◌<◌, ◌^◌, ◌≡◌, sym, ◌∙◌, ap, List, [], ◌∷◌, some, get_elem?, arith,
}
use mathlib.Core.Option.{some-injective}
use lsm_tree_engine.Transaction.Manager.{TranManager, get_next_tranc_id}
use lsm_tree_engine.Transaction.{IsolationLevel, TranContext, new_context, new_tranc}

-- Transactions begun one after the other: for each, what its level's memory held and the level asked for.
unfoldable pub begin_all :
    ℕ → TranManager → List (IsolationLevel × IsolationLevel) → List TranContext
begin_all sizeof_record m [] = []
begin_all sizeof_record m ((stale, level) ∷ rest) =
    let (c, m') = new_tranc sizeof_record m stale level in c ∷ begin_all sizeof_record m' rest

-- As long as the counter does not wrap, the transaction begun after `i` others has the id of the first plus
-- `i`.
tranc_id_at :
    (sizeof_record : ℕ) (m : TranManager) (levels : List (IsolationLevel × IsolationLevel)) (i : ℕ)
    (c : TranContext)
    → m.next_tranc_id + i < 2 ^ 64
    → get_elem? (begin_all sizeof_record m levels) i ≡ some c
    → c.tranc_id ≡ m.next_tranc_id + i
unfolding begin_all new_tranc new_context get_next_tranc_id
tranc_id_at sizeof_record m [] i c room at = cc
tranc_id_at sizeof_record m ((stale, level) ∷ rest) zero c room at =
    ap (λ (d : TranContext). d.tranc_id) (sym (some-injective _ _ at)) ∙ omega arith
tranc_id_at sizeof_record m ((stale, level) ∷ rest) (suc i) c room at =
    let m' : TranManager = record m { next_tranc_id = (m.next_tranc_id + 1) % 2 ^ 64 } in
    omega (arith, tranc_id_at sizeof_record m' rest i c (omega arith) at)

-- Two transactions begun at different moments have different ids, and the later one the greater, as long as
-- the 64-bit counter does not wrap in between.
pub begin_all-Increasing :
    (sizeof_record : ℕ) (m : TranManager) (levels : List (IsolationLevel × IsolationLevel))
    (i j : ℕ) (c d : TranContext)
    → i < j
    → m.next_tranc_id + j < 2 ^ 64
    → get_elem? (begin_all sizeof_record m levels) i ≡ some c
    → get_elem? (begin_all sizeof_record m levels) j ≡ some d
    → c.tranc_id < d.tranc_id
begin_all-Increasing sizeof_record m levels i j c d before room at_i at_j = omega (
  arith,
  tranc_id_at sizeof_record m levels i c (omega arith) at_i,
  tranc_id_at sizeof_record m levels j d room at_j,
)
