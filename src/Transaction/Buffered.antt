-- ===== src/Transaction/Buffered.antt =====
-- A transaction that buffers its writes (src/engine/transaction.cpp, levels other than ReadUncommitted):
-- what it reads back.
use lsm_tree_engine.Prelude.{
  ◌++◌, ℕ, ◌≡◌, refl, ◌∙◌, ap, if◌then◌else◌, false, List, [], ◌∷◌, Option, none, some, Result, ok,
  ◌>>=◌, arith, Bool-cases, inl, inr,
}
use lsm_tree_engine.Transaction.{
  delete_record, put_record, TranContext, is_read_uncommitted, put, remove, get,
}
use lsm_tree_engine.Prelude.Order.{eq_bytes, eq_bytes_iff}
use lsm_tree_engine.Prelude.Maps.{Map, find, insert, find-insert_self, find-insert_ne}
use lsm_tree_engine.Wal.Record.{Record}
use lsm_tree_engine.Transaction.Storage.{Engine}

pub data Write : Type 0 where
  puts : List ℕ → List ℕ → Write
  removes : List ℕ → Write

abbrev pub key_of : Write → List ℕ
key_of (puts key value) = key
key_of (removes key) = key

-- What `get` answers for the key behind the write: a removal reads as an empty value.
abbrev pub written : Write → List ℕ
written (puts key value) = value
written (removes key) = []

-- The last value written under a key.
unfoldable pub last_write : List Write → List ℕ → Option (List ℕ)
last_write [] key = none
last_write (w ∷ ws) key = elim (last_write ws key) [
  | some value ↦ some value
  | none ↦ if eq_bytes (key_of w) key then some (written w) else none
]

module _ (E : Engine) (sizeof_record : ℕ) (no_return : Record → Record) where
  abbrev pub apply : TranContext → E.Contents → Write → Result (TranContext × E.Contents)
  apply c s (puts key value) = put E sizeof_record no_return c s key value
  apply c s (removes key) = remove E sizeof_record no_return c s key

  unfoldable pub apply_all :
      TranContext → E.Contents → List Write → Result (TranContext × E.Contents)
  apply_all c s [] = ok (c, s)
  apply_all c s (w ∷ ws) = do (c', s') ← apply c s w; apply_all c' s' ws

  find-insert :
      (key other : List ℕ) (value : Option (List ℕ)) (m : Map (Option (List ℕ)))
      → find other (insert key value m) ≡ (if eq_bytes key other then some value else find other m)
  find-insert key other value m = elim (Bool-cases (eq_bytes key other)) [
    | inl same ↦ rw (same, ← (eq_bytes_iff key other).0 same) (find-insert_self key value m)
    | inr differ ↦ rw differ (find-insert_ne key other value m differ)
  ]

  abbrev buffer : TranContext → Record → List ℕ → List ℕ → TranContext
  buffer c r key value = record c {
    operations = c.operations ++ (r ∷ []);
    temp_map = insert key (some value) c.temp_map;
  }

  -- One buffered write.
  apply_lem :
      (c : TranContext) (s : E.Contents) (w : Write)
      → is_read_uncommitted c.isolation_level ≡ false
      → (c' : TranContext) × (apply c s w ≡ ok (c', s))
        × (c'.isolation_level ≡ c.isolation_level)
        × (c'.tranc_id ≡ c.tranc_id)
        × (c'.temp_map ≡ insert (key_of w) (some (written w)) c.temp_map)
        × (c'.read_map ≡ c.read_map)
  unfolding put remove
  apply_lem c s (puts key value) buffered =
      let r : Record = put_record sizeof_record no_return c.tranc_id key value in
      (buffer c r key value, rw buffered refl, refl, refl, refl, refl)
  apply_lem c s (removes key) buffered =
      let r : Record = delete_record sizeof_record c.tranc_id key in
      (buffer c r key [], rw buffered refl, refl, refl, refl, refl)

  -- What stands in `temp_map_` for a key: its last write, or what stood there before.
  abbrev pub overlaid : Option (List ℕ) → Option (Option (List ℕ)) → Option (Option (List ℕ))
  overlaid (some value) before = some (some value)
  overlaid none before = before

  overlaid_step :
      (w : Write) (ws : List Write) (key : List ℕ) (m : Map (Option (List ℕ)))
      → overlaid (last_write ws key) (find key (insert (key_of w) (some (written w)) m))
        ≡ overlaid (last_write (w ∷ ws) key) (find key m)
  unfolding last_write
  overlaid_step w ws key m = rw (find-insert (key_of w) key (some (written w)) m) (ground arith)

  pub apply_all_lem :
      (c : TranContext) (s : E.Contents) (ws : List Write)
      → is_read_uncommitted c.isolation_level ≡ false
      → (c' : TranContext) × (apply_all c s ws ≡ ok (c', s))
        × (c'.isolation_level ≡ c.isolation_level)
        × (c'.tranc_id ≡ c.tranc_id)
        × ((key : List ℕ)
            → find key c'.temp_map ≡ overlaid (last_write ws key) (find key c.temp_map))
        × (c'.read_map ≡ c.read_map)
  unfolding apply_all last_write
  apply_all_lem c s [] buffered = (c, refl, refl, refl, λ key. refl, refl)
  apply_all_lem c s (w ∷ ws) buffered =
      let (c₁, run₁, level₁, id₁, temp₁, read₁) = apply_lem c s w buffered in
      let (c₂, run₂, level₂, id₂, temp₂, read₂) =
        apply_all_lem c₁ s ws (ap is_read_uncommitted level₁ ∙ buffered) in
      (
        c₂,
        rw run₁ run₂,
        level₂ ∙ level₁,
        id₂ ∙ id₁,
        λ key.
            temp₂ key
            ∙ ap (λ (m : Map (Option (List ℕ))). overlaid (last_write ws key) (find key m)) temp₁
            ∙ overlaid_step w ws key c.temp_map,
        read₂ ∙ read₁,
      )

  -- At a level other than ReadUncommitted, any sequence of `put` and `remove` leaves the engine's contents
  -- as they were, and whatever another transaction does to the contents afterwards, `get` answers for
  -- every key that was written its last value, the empty string behind a removal.
  pub get-apply_all :
      (c : TranContext) (s : E.Contents) (ws : List Write)
      → is_read_uncommitted c.isolation_level ≡ false
      → (c' : TranContext) × (apply_all c s ws ≡ ok (c', s))
        × ((later : E.Contents) (key value : List ℕ)
            → last_write ws key ≡ some value
            → get E sizeof_record no_return c' later key ≡ ok (some value, c'))
  unfolding get
  get-apply_all c s ws buffered =
      let (c', run, level, id, temp, reads) = apply_all_lem c s ws buffered in
      (c', run, λ later key value last. rw (get, temp key, last) refl)
