-- ===== src/Redis/Laws.antt =====
-- What the commands (src/redis_wrapper/redis_wrapper.cpp) rely on of the store: that it answers as a map from keys to
-- values that are not empty, an empty value being how the engine notes a removal.
use lsm_tree_engine.Prelude.{
  List, [], ◌∷◌, ◌++◌, ℕ, ◌≡◌, ◌≢◌, ap, ◌∙◌, false, length, length-append, none, some, ok, arith,
}
use lsm_tree_engine.Redis.Keys.{
  hash_header, set_prefix, get_hash_filed_key, get_set_elem_key, get_expire_key, expire_header,
}
use lsm_tree_engine.Redis.{is_empty_text, Text, KeyValue, codes}
use lsm_tree_engine.Redis.Commands.{is_expired}

-- Puts and removals one after the other.
abbrev pub puts : (K : KeyValue) → K.Store → List (Text × Text) → K.Store
puts K s [] = s
puts K s ((key, value) ∷ kvs) = puts K (K.put s key value) kvs

abbrev pub removes : (K : KeyValue) → K.Store → List Text → K.Store
removes K s [] = s
removes K s (key ∷ keys) = removes K (K.remove s key) keys

pub record IsMap (K : KeyValue) : Type 0 where
  pub get_put :
      (s : K.Store) (key value : Text)
      → is_empty_text value ≡ false
      → K.get (K.put s key value) key ≡ some value
  pub get_put_other :
      (s : K.Store) (key key' value : Text)
      → key ≢ key'
      → K.get (K.put s key value) key' ≡ K.get s key'
  pub get_remove : (s : K.Store) (key : Text) → K.get (K.remove s key) key ≡ none
  pub get_remove_other :
      (s : K.Store) (key key' : Text) → key ≢ key' → K.get (K.remove s key) key' ≡ K.get s key'
  pub get_put_batch :
      (s : K.Store) (kvs : List (Text × Text)) (key : Text)
      → K.get (K.put_batch s kvs) key ≡ K.get (puts K s kvs) key
  pub get_remove_batch :
      (s : K.Store) (keys : List Text) (key : Text)
      → K.get (K.remove_batch s keys) key ≡ K.get (removes K s keys) key

-- The key that holds the time to live is longer.
pub key-ne-get_expire_key : (key : Text) → key ≢ get_expire_key key
unfolding get_expire_key
key-ne-get_expire_key key same =
    let longer : length key ≡ length (expire_header ++ (codes "_" ++ key)) = ap length same in
    absurd (
      omega (
        arith,
        longer,
        length-append expire_header (codes "_" ++ key),
        length-append (codes "_") key,
      ))

module _ (K : KeyValue) (now : ℕ) where
  -- A key has a time to live that has not passed.
  abbrev pub Alive : Text → K.Store → Type 0
  Alive key s =
      (time : Text) × (K.get s (get_expire_key key) ≡ some time) × (is_expired now time ≡ ok false)

module _ (K : KeyValue) (laws : IsMap K) (now : ℕ) (key : Text) (s : K.Store)
    (alive : Alive K now key s) where
  pub put-Alive : (value : Text) → Alive K now key (K.put s key value)
  put-Alive value =
      let (time, stored, fresh) = alive in
      (time, laws.get_put_other s key _ value (key-ne-get_expire_key key) ∙ stored, fresh)

  pub remove-Alive : Alive K now key (K.remove s key)
  remove-Alive =
      let (time, stored, fresh) = alive in
      (time, laws.get_remove_other s key _ (key-ne-get_expire_key key) ∙ stored, fresh)

-- The headers differ in their third byte.
abbrev third : Text → ℕ
third (a ∷ b ∷ c ∷ s) = c
third s = 0

-- The keys of elements.
same_prefix : (prefix a b : Text) → prefix ++ a ≡ prefix ++ b → a ≡ b
same_prefix [] a b same = same
same_prefix (c ∷ prefix) a b same = same_prefix prefix a b (cc same)

pub key-ne-get_hash_filed_key : (key field : Text) → key ≢ get_hash_filed_key key field
unfolding get_hash_filed_key
key-ne-get_hash_filed_key key field same =
    let longer : length key ≡ length (hash_header ++ (key ++ (codes "_" ++ field))) =
      ap length same in
    absurd (
      omega (
        arith,
        longer,
        length-append hash_header (key ++ (codes "_" ++ field)),
        length-append key (codes "_" ++ field),
      ))

pub get_hash_filed_key-injective :
    (key field field' : Text)
    → get_hash_filed_key key field ≡ get_hash_filed_key key field'
    → field ≡ field'
unfolding get_hash_filed_key
get_hash_filed_key-injective key field field' same =
    same_prefix (codes "_") _ _ (same_prefix key _ _ (same_prefix hash_header _ _ same))

pub get_expire_key-ne-get_hash_filed_key :
    (key field : Text) → get_expire_key key ≢ get_hash_filed_key key field
unfolding get_expire_key get_hash_filed_key
get_expire_key-ne-get_hash_filed_key key field same =
    let apart : 83 ≡ 68 = ap third same in absurd (omega (arith, apart))

pub key-ne-get_set_elem_key : (key elem : Text) → key ≢ get_set_elem_key key elem
unfolding get_set_elem_key
key-ne-get_set_elem_key key elem same =
    let longer : length key ≡ length (set_prefix ++ (key ++ (codes "_SCORE_" ++ elem))) =
      ap length same in
    absurd (
      omega (
        arith,
        longer,
        length-append set_prefix (key ++ (codes "_SCORE_" ++ elem)),
        length-append key (codes "_SCORE_" ++ elem),
      ))

pub get_expire_key-ne-get_set_elem_key :
    (key elem : Text) → get_expire_key key ≢ get_set_elem_key key elem
unfolding get_expire_key get_set_elem_key
get_expire_key-ne-get_set_elem_key key elem same =
    let apart : 83 ≡ 68 = ap third same in absurd (omega (arith, apart))

pub get_set_elem_key-injective :
    (key elem elem' : Text) → get_set_elem_key key elem ≡ get_set_elem_key key elem' → elem ≡ elem'
unfolding get_set_elem_key
get_set_elem_key-injective key elem elem' same =
    same_prefix (codes "_SCORE_") _ _ (same_prefix key _ _ (same_prefix set_prefix _ _ same))
