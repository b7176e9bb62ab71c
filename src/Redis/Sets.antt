-- ===== src/Redis/Sets.antt =====
-- The commands on sets (src/redis_wrapper/redis_wrapper.cpp).
pub mod Laws
pub mod Membership
use lsm_tree_engine.Prelude.{
  ℕ, if◌then◌else◌, Bool, true, false, List, [], ◌∷◌, ◌++◌, length, drop, map, Option, none, some,
  Result, ok, err,
}
use lsm_tree_engine.Prelude.Results.{signed_overflow}
use lsm_tree_engine.Prelude.Int.{ℤ, pos, negate, ◌+ℤ◌, as_int, fits_bits}
use lsm_tree_engine.Redis.{
  Text, KeyValue, Command, codes, return, lift, ◌>>=◌, read_value, write_value, remove_value,
  put_values, remove_values, iter_values, arg,
}
use lsm_tree_engine.Redis.Numbers.{to_string, to_string_ℕ, stoi}
use lsm_tree_engine.Redis.Keys.{
  get_expire_key, get_set_key_preffix, get_set_elem_key, get_set_member_prefix, has_preffix, bulk,
  integer, array_header,
}
use lsm_tree_engine.Redis.Commands.{value_of, has_value, is_expired}

-- A sum of two `int`s.
abbrev pub int_sum : ℤ → ℤ → Result ℤ
int_sum a b = if fits_bits 31 (a +ℤ b) then ok (a +ℤ b) else err signed_overflow

abbrev pub pair_key : Text × Text → Text
pair_key (key, value) = key

-- `*<n>` and each text behind it.
unfoldable pub bulks : List Text → Text
bulks [] = []
bulks (member ∷ members) = bulk member ++ bulks members

module _ (K : KeyValue) (now : ℕ) where
  -- The keys with a prefix are removed.
  unfoldable pub remove_range : Text → Command K.Store (Unit {0})
  remove_range preffix = do
    result_elem ← iter_values K (has_preffix preffix)
    elim result_elem [ none ↦ return tt | some kvs ↦ remove_values K (map pair_key kvs) ]

  unfoldable pub expire_set_clean : Text → Command K.Store Bool
  expire_set_clean key = do
    expire_query ← read_value K (get_expire_key key)
    time ← value_of expire_query
    expired ← lift (is_expired now time)
    if expired
        then (do
          u ← remove_value K key
          v ← remove_value K (get_expire_key key)
          w ← remove_range (get_set_key_preffix key)
          return true)
        else return false

  -- The pairs for the elements that are not in the set.
  unfoldable pub sadd_loop : Text → List Text → Command K.Store (List (Text × Text))
  sadd_loop key [] = return []
  sadd_loop key (elem ∷ elems) = do
    found ← read_value K (get_set_elem_key key elem)
    put_kvs ← sadd_loop key elems
    return (if has_value found then put_kvs else (get_set_elem_key key elem, codes "1") ∷ put_kvs)

  -- The new size of the set, from what is stored under its key.
  abbrev pub size_after : Option Text → ℤ → Result ℤ
  size_after none set_size = ok set_size
  size_after (some value) set_size = elim (stoi value) [
    | err e ↦ err e
    | ok prev_size ↦ int_sum set_size prev_size
  ]

  unfoldable pub sadd : List Text → Command K.Store Text
  sadd args = do
    key ← lift (arg args 1)
    expired ← expire_set_clean key
    put_kvs ← sadd_loop key (drop 2 args)
    key_query ← read_value K key
    set_size ← lift (size_after key_query (as_int (pos (length put_kvs))))
    u ← put_values K (put_kvs ++ ((key, to_string set_size) ∷ []))
    return (integer (to_string_ℕ (length put_kvs)))

  -- The keys of the elements that are not in the set.
  unfoldable pub srem_loop : Text → List Text → Command K.Store (List Text)
  srem_loop key [] = return []
  srem_loop key (elem ∷ elems) = do
    found ← read_value K (get_set_elem_key key elem)
    del_keys ← srem_loop key elems
    return (if has_value found then del_keys else get_set_elem_key key elem ∷ del_keys)

  unfoldable pub srem : List Text → Command K.Store Text
  srem args = do
    key ← lift (arg args 1)
    expired ← expire_set_clean key
    if expired then return (integer (codes "0")) else (do
      del_keys ← srem_loop key (drop 2 args)
      key_query ← read_value K key
      set_size ← lift (size_after key_query (as_int (negate (length del_keys))))
      u ← write_value K key (to_string set_size)
      w ← remove_values K del_keys
      return (integer (to_string_ℕ (length del_keys))))

  unfoldable pub sismember : List Text → Command K.Store Text
  sismember args = do
    key ← lift (arg args 1)
    expired ← expire_set_clean key
    if expired then return (integer (codes "0")) else (do
      elem ← lift (arg args 2)
      found ← read_value K (get_set_elem_key key elem)
      return (integer (if has_value found then codes "1" else codes "0")))

  unfoldable pub scard : List Text → Command K.Store Text
  scard args = do
    key ← lift (arg args 1)
    expired ← expire_set_clean key
    if expired then return (integer (codes "0")) else (do
      key_query ← read_value K key
      elim key_query [ none ↦ return (integer (codes "0")) | some size ↦ return (integer size) ])

  -- What stands behind the prefix of the keys.
  abbrev pub members_of : Text → List (Text × Text) → List Text
  members_of prefix [] = []
  members_of prefix ((key, value) ∷ kvs) = drop (length prefix) key ∷ members_of prefix kvs

  unfoldable pub smembers : List Text → Command K.Store Text
  smembers args = do
    key ← lift (arg args 1)
    expired ← expire_set_clean key
    if expired then return (array_header 0) else (do
      result_elem ← iter_values K (has_preffix (get_set_member_prefix key))
      elim result_elem [
        | none ↦ return (array_header 0)
        | some kvs ↦
            return (array_header (length kvs) ++ bulks (members_of (get_set_member_prefix key) kvs))
      ])
