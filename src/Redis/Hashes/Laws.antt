-- ===== src/Redis/Hashes/Laws.antt =====
-- `hget` behind `hset` (src/redis_wrapper/redis_wrapper.cpp).
use lsm_tree_engine.Prelude.{
  ℕ, ◌≡◌, ◌≢◌, refl, sym, ap, ◌∙◌, false, Bool-cases, inl, inr, if◌then◌else◌, List, [], ◌∷◌, ◌++◌,
  Option, none, some, Result, ok,
}
use lsm_tree_engine.Prelude.Order.{eq_bytes, eq_bytes_iff}
use lsm_tree_engine.Redis.{Text, KeyValue, is_empty_text}
use lsm_tree_engine.Redis.Keys.{get_hash_filed_key, ok_reply, bulk, null_reply}
use lsm_tree_engine.Redis.Texts.{get_fileds_from_hash_value, get_hash_value_from_fields, contains}
use lsm_tree_engine.Redis.Laws.{
  IsMap, Alive, key-ne-get_expire_key, key-ne-get_hash_filed_key, get_hash_filed_key-injective,
  get_expire_key-ne-get_hash_filed_key,
}
use lsm_tree_engine.Redis.Hashes.{expire_hash_clean, hset, hget}

abbrev pub field_reply : Option Text → Text
field_reply none = null_reply
field_reply (some value) = bulk value

module _ (K : KeyValue) (now : ℕ) (key : Text) where
  -- A key that holds a list of fields.
  abbrev pub Lists : List Text → K.Store → Type 0
  Lists fields s =
      (value : Text) × (K.get s key ≡ some value) × (get_fileds_from_hash_value value ≡ ok fields)

  hget_lem :
      (s : K.Store) (name field : Text)
      → Alive K now key s
      → hget K now (name ∷ key ∷ field ∷ []) s
        ≡ (ok (field_reply (K.get s (get_hash_filed_key key field))), s)
  unfolding hget expire_hash_clean
  hget_lem s name field (time, at, fresh) = go (K.get s (get_hash_filed_key key field)) refl
    where
      go :
          (o : Option Text)
          → K.get s (get_hash_filed_key key field) ≡ o
          → hget K now (name ∷ key ∷ field ∷ []) s
            ≡ (ok (field_reply (K.get s (get_hash_filed_key key field))), s)
      go none e = rw (at, fresh, e) refl
      go (some value) e = rw (at, fresh, e) refl

module _ (K : KeyValue) (laws : IsMap K) (now : ℕ) (key : Text) where
  -- What `hset` leaves behind.
  after_hset : List Text → Text → Text → K.Store → K.Store
  after_hset fields field value s =
      let s₁ = K.put s (get_hash_filed_key key field) value in
      if contains fields field
      then s₁
      else K.put s₁ key (get_hash_value_from_fields (fields ++ (field ∷ [])))

  hset_lem :
      (s : K.Store) (name field value : Text) (fields : List Text)
      → Alive K now key s
      → Lists K now key fields s
      → hset K now (name ∷ key ∷ field ∷ value ∷ []) s
        ≡ (ok ok_reply, after_hset fields field value s)
  unfolding hset expire_hash_clean after_hset
  hset_lem s name field value fields (time, at, fresh) (listed, holds, reads) =
      let holds' : K.get (K.put s (get_hash_filed_key key field) value) key ≡ some listed =
        laws.get_put_other s _ key value (λ same. key-ne-get_hash_filed_key key field (sym same))
        ∙ holds in
      elim (Bool-cases (contains fields field)) [
        | inl there ↦ rw (at, fresh, holds', reads, there) refl
        | inr new ↦ rw (at, fresh, holds', reads, new) refl
      ]

  -- Every other key keeps its value.
  after_hset_other :
      (s : K.Store) (field value : Text) (fields : List Text) (key' : Text)
      → key ≢ key'
      → K.get (after_hset fields field value s) key'
        ≡ K.get (K.put s (get_hash_filed_key key field) value) key'
  unfolding after_hset
  after_hset_other s field value fields key' other = elim (Bool-cases (contains fields field)) [
    | inl there ↦ rw there refl
    | inr new ↦ rw new (laws.get_put_other _ key key' _ other)
  ]

  field_kept :
      (s : K.Store) (field field' value : Text) (fields : List Text)
      → eq_bytes field field' ≡ false
      → K.get (after_hset fields field value s) (get_hash_filed_key key field')
        ≡ K.get s (get_hash_filed_key key field')
  field_kept s field field' value fields differ =
      after_hset_other s field value fields _ (key-ne-get_hash_filed_key key field')
      ∙ laws.get_put_other s _ _ value λ same.
        cc (
          (eq_bytes_iff field field').1 (get_hash_filed_key-injective key field field' same),
          differ,
        )

  field_stored :
      (s : K.Store) (field value : Text) (fields : List Text)
      → is_empty_text value ≡ false
      → K.get (after_hset fields field value s) (get_hash_filed_key key field) ≡ some value
  field_stored s field value fields full =
      after_hset_other s field value fields _ (key-ne-get_hash_filed_key key field)
      ∙ laws.get_put s _ value full

  after_hset-Alive :
      (s : K.Store) (field value : Text) (fields : List Text)
      → Alive K now key s
      → Alive K now key (after_hset fields field value s)
  after_hset-Alive s field value fields (time, at, fresh) = (
    time,
    after_hset_other s field value fields _ (key-ne-get_expire_key key)
        ∙ laws.get_put_other s _ _ value
            (λ same. get_expire_key-ne-get_hash_filed_key key field (sym same))
        ∙ at,
    fresh,
  )

  -- On a key that lists fields and has a time to live that has not passed, a field that `hset` has stored is what
  -- `hget` replies, and every other field is as it was; `hset` replies that it is done. For a store that is a map and a
  -- value that is not empty.
  pub hset-hget :
      (s s' : K.Store) (name field field' value : Text) (fields : List Text)
      → is_empty_text value ≡ false
      → Alive K now key s
      → Lists K now key fields s
      → (hset K now (name ∷ key ∷ field ∷ value ∷ []) s).1 ≡ s'
      → ((hset K now (name ∷ key ∷ field ∷ value ∷ []) s).0 ≡ ok ok_reply)
        × ((hget K now (name ∷ key ∷ field' ∷ []) s').0 ≡ (
            if eq_bytes field field'
            then ok (bulk value)
            else (hget K now (name ∷ key ∷ field' ∷ []) s).0))
  hset-hget s s' name field field' value fields full alive lists after =
      let run = hset_lem s name field value fields alive lists in
      let e : after_hset fields field value s ≡ s' =
        ap (λ (p : Result Text × K.Store). p.1) (sym run) ∙ after in
      let alive' = after_hset-Alive s field value fields alive in
      let reply = hget_lem K now key (after_hset fields field value s) name field' alive' in
      (
        rw run refl,
        rw (← e, reply)
            (elim (Bool-cases (eq_bytes field field')) [
              | inl same ↦
                  rw
                    (
                      same,
                      ← ((eq_bytes_iff field field').0 same),
                      field_stored s field value fields full,
                    )
                    refl
              | inr differ ↦
                  rw
                    (
                      differ,
                      hget_lem K now key s name field' alive,
                      field_kept s field field' value fields differ,
                    )
                    refl
            ]),
      )
