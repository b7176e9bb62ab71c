-- ===== src/Transaction/Reads.antt =====
-- `TranContext::get` (src/engine/transaction.cpp) at the levels RepeatableRead and Serializable: a value that
-- was read is read again.
use lsm_tree_engine.Prelude.{
  ok-injective, bind_assoc, ℕ, ◌≡◌, refl, sym, ◌∙◌, subst, Bool, true, false, List, [], ◌∷◌, Option,
  none, some, Option-cases, Bool-cases, Result, ok, ◌>>=◌, first_ok, arith, ◌⊎◌, inl, inr,
}
use lsm_tree_engine.Prelude.Order.{eq_bytes, eq_bytes_iff}
use lsm_tree_engine.Prelude.Maps.{find, insert, find-insert_self, find-insert_ne}
use lsm_tree_engine.Wal.Record.{Record}
use lsm_tree_engine.Transaction.Storage.{Engine, Found}
use lsm_tree_engine.Transaction.{
  IsolationLevel, read_uncommitted, read_committed, repeatable_read, serializable, unnamed,
  TranContext, repeatable_query, query, get, value_of,
}

-- The levels at which `get` keeps what it read.
abbrev pub pins : IsolationLevel → Bool
pins read_uncommitted = false
pins read_committed = false
pins level = true

module _ (E : Engine) (sizeof_record : ℕ) (no_return : Record → Record) where
  abbrev pub read : TranContext → E.Contents → List ℕ → Result (Option (List ℕ) × TranContext)
  read = get E sizeof_record no_return

  -- Reads of several keys, each from the contents of its moment.
  unfoldable pub read_all : TranContext → List (E.Contents × List ℕ) → Result TranContext
  read_all c [] = ok c
  read_all c ((s, key) ∷ rest) = do (value, c') ← read c s key; read_all c' rest

  -- What `get` answers for a key without asking the engine.
  abbrev known_of : Option (Option (List ℕ)) → Option (Option Found) → Option (Option (List ℕ))
  known_of (some value) seen = some value
  known_of none (some seen) = some (value_of seen)
  known_of none none = none

  abbrev known : TranContext → List ℕ → Option (Option (List ℕ))
  known c key = known_of (find key c.temp_map) (find key c.read_map)

  query-pins :
      (c : TranContext) (s : E.Contents) (key : List ℕ) (level : IsolationLevel)
      → pins level ≡ true
      → query E sizeof_record no_return c s key level
        ≡ repeatable_query E sizeof_record no_return c s key
  unfolding query
  query-pins c s key read_uncommitted h = cc
  query-pins c s key read_committed h = cc
  query-pins c s key repeatable_read h = refl
  query-pins c s key serializable h = refl
  query-pins c s key (unnamed n) h = refl

  -- The context after a read that asked the engine.
  abbrev noted : TranContext → List ℕ → Option Found → TranContext
  noted c key seen = record c { read_map = insert key seen c.read_map }

  read-known :
      (c : TranContext) (s : E.Contents) (key : List ℕ) (value : Option (List ℕ))
      → pins c.isolation_level ≡ true
      → known c key ≡ some value
      → read c s key ≡ ok (value, c)
  unfolding get repeatable_query
  read-known c s key value pinned h = elim (Option-cases (find key c.temp_map)) [
    | inr (v, temp) ↦ let h' = rw (known, temp) at h in rw (get, temp) (ground arith)
    | inl temp ↦ elim (Option-cases (find key c.read_map)) [
      | inr (seen, there) ↦
          let h' = rw (known, temp, there) at h in
          rw (get, temp, query-pins c s key c.isolation_level pinned, repeatable_query, there)
            (ground arith)
      | inl absent ↦ let h' = rw (known, temp, absent) at h in absurd (ground arith)
    ]
  ]

  read-unknown :
      (c : TranContext) (s : E.Contents) (key : List ℕ)
      → pins c.isolation_level ≡ true
      → find key c.temp_map ≡ none
      → find key c.read_map ≡ none
      → read c s key ≡ (E.get s key c.tranc_id >>= λ seen. ok (value_of seen, noted c key seen))
  unfolding get repeatable_query
  read-unknown c s key pinned temp absent =
      rw (get, temp, query-pins c s key c.isolation_level pinned, repeatable_query, absent)
        (bind_assoc (E.get s key c.tranc_id) _ _)

  -- Nothing that was known is forgotten.
  abbrev Remembers : TranContext → TranContext → Type 0
  Remembers c c' =
      (pins c'.isolation_level ≡ true)
      × ((key : List ℕ) (value : Option (List ℕ))
          → known c key ≡ some value
          → known c' key ≡ some value)

  unknown :
      (c : TranContext) (key : List ℕ)
      → known c key ≡ none
      → (find key c.temp_map ≡ none) × (find key c.read_map ≡ none)
  unknown c key h = ground arith

  known-noted_self :
      (c : TranContext) (key : List ℕ) (seen : Option Found)
      → find key c.temp_map ≡ none
      → known (noted c key seen) key ≡ some (value_of seen)
  known-noted_self c key seen temp = rw (known, temp, find-insert_self key seen c.read_map) refl

  known_of_more :
      (t : Option (Option (List ℕ))) (r r' : Option (Option Found)) (value : Option (List ℕ))
      → (r ≡ none) ⊎ (r' ≡ r)
      → known_of t r ≡ some value
      → known_of t r' ≡ some value
  known_of_more (some v) r r' value kept h = h
  known_of_more none none r' value kept h = cc
  known_of_more none (some seen) r' value (inl e) h = cc
  known_of_more none (some seen) r' value (inr e) h = rw e h

  find-noted :
      (c : TranContext) (key : List ℕ) (seen : Option Found) (other : List ℕ)
      → find key c.read_map ≡ none
      → (find other c.read_map ≡ none)
        ⊎ (find other (insert key seen c.read_map) ≡ find other c.read_map)
  find-noted c key seen other absent = elim (Bool-cases (eq_bytes key other)) [
    | inl same ↦
        inl (
          subst (λ (k : List ℕ). find k c.read_map ≡ none) ((eq_bytes_iff key other).0 same) absent)
    | inr differ ↦ inr (find-insert_ne key other seen c.read_map differ)
  ]

  known-noted :
      (c : TranContext) (key : List ℕ) (seen : Option Found) (other : List ℕ)
      (value : Option (List ℕ))
      → find key c.read_map ≡ none
      → known c other ≡ some value
      → known (noted c key seen) other ≡ some value
  known-noted c key seen other value absent h =
      known_of_more (find other c.temp_map) (find other c.read_map)
        (find other (insert key seen c.read_map)) value (find-noted c key seen other absent) h

  -- A read that answers leaves a context that knows the answer and all that was known.
  Noted : TranContext → List ℕ → Option (List ℕ) × TranContext → Type 0
  Noted c key (value, c') = Remembers c c' × (known c' key ≡ some value)

  read-Noted :
      (c : TranContext) (s : E.Contents) (key : List ℕ) (value : Option (List ℕ)) (c' : TranContext)
      → pins c.isolation_level ≡ true
      → read c s key ≡ ok (value, c')
      → Noted c key (value, c')
  unfolding Noted
  read-Noted c s key value c' pinned run = elim (Option-cases (known c key)) [
    | inr (v, h) ↦
        subst (Noted c key) (ok-injective (sym (read-known c s key v pinned h) ∙ run))
          ((pinned, λ k w there. there), h)
    | inl h ↦
        let (temp, absent) = unknown c key h in
        let (seen, got, same) =
          first_ok (E.get s key c.tranc_id) _
            (sym (read-unknown c s key pinned temp absent) ∙ run) in
        subst (Noted c key) (ok-injective same) (
          (pinned, λ k w there. known-noted c key seen k w absent there),
          known-noted_self c key seen temp,
        )
  ]

  read_all-Remembers :
      (c : TranContext) (reads : List (E.Contents × List ℕ)) (c' : TranContext)
      → pins c.isolation_level ≡ true
      → read_all c reads ≡ ok c'
      → Remembers c c'
  unfolding read_all Noted
  read_all-Remembers c [] c' pinned run =
      subst (Remembers c) (ok-injective run) (pinned, λ k w there. there)
  read_all-Remembers c ((s, key) ∷ rest) c' pinned run =
      let ((value, c₁), got, run') = first_ok (read c s key) _ run in
      let ((pinned₁, keeps₁), h) = read-Noted c s key value c₁ pinned got in
      let (pinned₂, keeps₂) = read_all-Remembers c₁ rest c' pinned₁ run' in
      (pinned₂, λ k w there. keeps₂ k w (keeps₁ k w there))

  -- At the levels above ReadCommitted reads are repeatable: once `get` has answered for a key, it gives the
  -- same answer after any further reads of any keys, whatever the contents of the engine have become.
  pub get-read_all :
      (c c₁ c₂ : TranContext) (s later : E.Contents) (key : List ℕ) (value : Option (List ℕ))
      (reads : List (E.Contents × List ℕ))
      → pins c.isolation_level ≡ true
      → read c s key ≡ ok (value, c₁)
      → read_all c₁ reads ≡ ok c₂
      → read c₂ later key ≡ ok (value, c₂)
  unfolding Noted
  get-read_all c c₁ c₂ s later key value reads pinned got run =
      let ((pinned₁, keeps₁), h) = read-Noted c s key value c₁ pinned got in
      let (pinned₂, keeps₂) = read_all-Remembers c₁ reads c₂ pinned₁ run in
      read-known c₂ later key value pinned₂ (keeps₂ key value h)
