-- ===== src/Transaction/Abort.antt =====
-- `TranContext::abort` (src/engine/transaction.cpp) behind writes that went straight to the engine.
use lsm_tree_engine.Prelude.{
  subst, ℕ, ◌≡◌, refl, ap, true, List, [], ◌∷◌, ◌++◌, Result, ok, ◌>>=◌, first_ok, ok-injective,
}
use lsm_tree_engine.Wal.Record.{Record, put_record}
use lsm_tree_engine.Transaction.Storage.{Engine}
use lsm_tree_engine.Transaction.{
  TranContext, is_read_uncommitted, put_through, put, restore_all, abort,
}

module _ (E : Engine) (sizeof_record : ℕ) (no_return : Record → Record) where
  unfoldable pub put_all :
      TranContext → E.Contents → List (List ℕ × List ℕ) → Result (TranContext × E.Contents)
  put_all c s [] = ok (c, s)
  put_all c s ((key, value) ∷ rest) = do
    (c', s') ← put E sizeof_record no_return c s key value
    put_all c' s' rest

  -- The level, and that nothing is noted for a rollback.
  abbrev Through : TranContext → Type 0
  Through c = (is_read_uncommitted c.isolation_level ≡ true) × (c.rollback_map ≡ [])

  put_through_lem :
      (c : TranContext) (s : E.Contents) (key value : List ℕ) (c' : TranContext) (s' : E.Contents)
      → Through c
      → put E sizeof_record no_return c s key value ≡ ok (c', s')
      → Through c'
  unfolding put
  put_through_lem c s key value c' s' (level, nothing) run =
      let r : Record = put_record sizeof_record no_return c.tranc_id key value in
      let d : TranContext = record c { operations = c.operations ++ (r ∷ []) } in
      let run' = rw level at run in
      let (s₁, _, same) = first_ok (put_through E sizeof_record no_return d s key value) _ run' in
      let e : d ≡ c' = ap (λ (p : TranContext × E.Contents). p.0) (ok-injective same) in
      subst Through e (level, nothing)

  put_all_lem :
      (c : TranContext) (s : E.Contents) (writes : List (List ℕ × List ℕ)) (c' : TranContext)
      (s' : E.Contents)
      → Through c
      → put_all c s writes ≡ ok (c', s')
      → Through c'
  unfolding put_all
  put_all_lem c s [] c' s' through run =
      subst Through (ap (λ (p : TranContext × E.Contents). p.0) (ok-injective run)) through
  put_all_lem c s ((key, value) ∷ rest) c' s' through run =
      let ((c₁, s₁), got, run') = first_ok (put E sizeof_record no_return c s key value) _ run in
      put_all_lem c₁ s₁ rest c' s' (put_through_lem c s key value c₁ s₁ through got) run'

  -- At ReadUncommitted `abort` undoes no `put`: behind any puts of a transaction that has noted nothing for a
  -- rollback before them, it answers `true` and leaves the contents of the engine as the puts made them.
  pub abort-put_all :
      (c c' : TranContext) (s s' : E.Contents) (writes : List (List ℕ × List ℕ))
      → is_read_uncommitted c.isolation_level ≡ true
      → c.rollback_map ≡ []
      → put_all c s writes ≡ ok (c', s')
      → abort E sizeof_record no_return c' s' ≡ ok (true, s')
  unfolding abort restore_all
  abort-put_all c c' s s' writes level nothing run =
      let (level', nothing') = put_all_lem c s writes c' s' (level, nothing) run in
      rw (level', nothing') refl
