-- ===== src/Redis/LogStore.antt =====
-- A store that the commands (src/redis_wrapper/redis_wrapper.cpp) can run on: the list of what was put and removed.
use lsm_tree_engine.Prelude.{
  ◌≡◌, ◌≢◌, refl, ap, ◌∙◌, true, if◌then◌else◌, List, [], ◌∷◌, Option, none, some, Ordering,
  Bool-cases, inl, inr,
}
use lsm_tree_engine.Prelude.Order.{eq_bytes, eq_bytes_iff}
use lsm_tree_engine.Redis.{Text, KeyValue, is_empty_text}
use lsm_tree_engine.Redis.Laws.{IsMap, puts, removes}

-- What was put under a key last; an empty value is a removal.
abbrev find : List (Text × Text) → Text → Option Text
find [] key = none
find ((k, v) ∷ log) key =
    if eq_bytes k key then (if is_empty_text v then none else some v) else find log key

abbrev logged : List (Text × Text) → List (Text × Text) → List (Text × Text)
logged log [] = log
logged log ((key, value) ∷ kvs) = logged ((key, value) ∷ log) kvs

abbrev unlogged : List (Text × Text) → List Text → List (Text × Text)
unlogged log [] = log
unlogged log (key ∷ keys) = unlogged ((key, []) ∷ log) keys

-- The pairs that a predicate takes, the last one first.
abbrev taken : (Text → Ordering) → List (Text × Text) → List (Text × Text)
taken predicate [] = []
taken predicate ((k, v) ∷ log) = elim (predicate k) [
  | Ordering.eq ↦ (k, v) ∷ taken predicate log
  | _ ↦ taken predicate log
]

abbrev found : List (Text × Text) → Option (List (Text × Text))
found [] = none
found (kv ∷ kvs) = some (kv ∷ kvs)

abbrev pub log_store : KeyValue
log_store = record {
  Store = List (Text × Text);
  get = find;
  put = λ log key value. (key, value) ∷ log;
  remove = λ log key. (key, []) ∷ log;
  put_batch = logged;
  remove_batch = unlogged;
  iter = λ log predicate. found (taken predicate log);
  clear = λ log. [];
}

eq_bytes_self : (key : Text) → eq_bytes key key ≡ true
eq_bytes_self key = (eq_bytes_iff key key).1 refl

find_same :
    (log : List (Text × Text)) (key value : Text)
    → find ((key, value) ∷ log) key ≡ (if is_empty_text value then none else some value)
find_same log key value = rw (eq_bytes_self key) refl

find_other :
    (log : List (Text × Text)) (key key' value : Text)
    → key ≢ key'
    → find ((key, value) ∷ log) key' ≡ find log key'
find_other log key key' value other = elim (Bool-cases (eq_bytes key key')) [
  | inl same ↦ absurd (other ((eq_bytes_iff key key').0 same))
  | inr differ ↦ rw differ refl
]

puts-logged : (log kvs : List (Text × Text)) → logged log kvs ≡ puts log_store log kvs
puts-logged log [] = refl
puts-logged log ((key, value) ∷ kvs) = puts-logged ((key, value) ∷ log) kvs

removes-unlogged :
    (log : List (Text × Text)) (keys : List Text) → unlogged log keys ≡ removes log_store log keys
removes-unlogged log [] = refl
removes-unlogged log (key ∷ keys) = removes-unlogged ((key, []) ∷ log) keys

pub log_store-IsMap : IsMap log_store
log_store-IsMap = record {
  get_put =
      λ s key value full. find_same s key value ∙ ap (λ b. if b then none else some value) full;
  get_put_other = λ s key key' value other. find_other s key key' value other;
  get_remove = λ s key. find_same s key [];
  get_remove_other = λ s key key' other. find_other s key key' [] other;
  get_put_batch = λ s kvs key. ap (λ log. find log key) (puts-logged s kvs);
  get_remove_batch = λ s keys key. ap (λ log. find log key) (removes-unlogged s keys);
}
