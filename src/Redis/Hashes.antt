-- ===== src/Redis/Hashes.antt =====
-- The commands on hashes (src/redis_wrapper/redis_wrapper.cpp).
pub mod Laws
use lsm_tree_engine.Prelude.{
  ℕ, if◌then◌else◌, Bool, true, false, List, [], ◌∷◌, ◌++◌, length, none, some,
}
use lsm_tree_engine.Redis.{
  Text, KeyValue, Command, codes, return, lift, ◌>>=◌, read_value, write_value, remove_value, arg,
}
use lsm_tree_engine.Redis.Keys.{
  get_expire_key, get_hash_filed_key, bulk, integer, array_header, ok_reply, null_reply,
}
use lsm_tree_engine.Redis.Texts.{
  get_fileds_from_hash_value, get_hash_value_from_fields, contains, erase,
}
use lsm_tree_engine.Redis.Commands.{value_of, has_value, is_expired}

module _ (K : KeyValue) (now : ℕ) where
  -- `for (const auto &field_key : fields) lsm->remove(field_key, 0);`: the names of the fields, without their prefix.
  unfoldable pub remove_each : List Text → Command K.Store (Unit {0})
  remove_each [] = return tt
  remove_each (field_key ∷ fields) = do u ← remove_value K field_key; remove_each fields

  -- A key without a time to live throws.
  unfoldable pub expire_hash_clean : Text → Command K.Store Bool
  expire_hash_clean key = do
    expire_query ← read_value K (get_expire_key key)
    time ← value_of expire_query
    expired ← lift (is_expired now time)
    if expired
        then (do
          query ← read_value K key
          value ← value_of query
          fields ← lift (get_fileds_from_hash_value value)
          u ← remove_each fields
          v ← remove_value K key
          w ← remove_value K (get_expire_key key)
          return true)
        else return false

  -- The fields that the value under a key lists.
  abbrev pub listed_fields : Text → Command K.Store (List Text)
  listed_fields key = do
    query ← read_value K key
    value ← value_of query
    lift (get_fileds_from_hash_value value)

  unfoldable pub hset : List Text → Command K.Store Text
  hset args = do
    key ← lift (arg args 1)
    expired ← expire_hash_clean key
    field ← lift (arg args 2)
    value ← lift (arg args 3)
    u ← write_value K (get_hash_filed_key key field) value
    field_list ← listed_fields key
    w ←
        if contains field_list field
        then return tt
        else write_value K key (get_hash_value_from_fields (field_list ++ (field ∷ [])))
    return ok_reply

  unfoldable pub hget : List Text → Command K.Store Text
  hget args = do
    key ← lift (arg args 1)
    expired ← expire_hash_clean key
    if expired then return null_reply else (do
      field ← lift (arg args 2)
      value_opt ← read_value K (get_hash_filed_key key field)
      elim value_opt [ none ↦ return null_reply | some value ↦ return (bulk value) ])

  -- The field list after a field has gone.
  abbrev pub store_fields : Text → List Text → Command K.Store (Unit {0})
  store_fields key [] = remove_value K key
  store_fields key (f ∷ fields) = write_value K key (get_hash_value_from_fields (f ∷ fields))

  unfoldable pub hdel : List Text → Command K.Store Text
  hdel args = do
    key ← lift (arg args 1)
    field ← lift (arg args 2)
    expired ← expire_hash_clean key
    if expired then return (integer (codes "0")) else (do
      found ← read_value K (get_hash_filed_key key field)
      u ← if has_value found then remove_value K (get_hash_filed_key key field) else return tt
      filed_list ← listed_fields key
      w ← if contains filed_list field then store_fields key (erase filed_list field) else return tt
      return (integer (if has_value found then codes "1" else codes "0")))

  -- `res_str = …`: each field takes the place of what stood there.
  unfoldable pub last_field : Text → List Text → Text
  last_field res_str [] = res_str
  last_field res_str (field ∷ fields) = last_field (bulk field) fields

  unfoldable pub hkeys : List Text → Command K.Store Text
  hkeys args = do
    key ← lift (arg args 1)
    expired ← expire_hash_clean key
    if expired then return (array_header 0) else (do
      res_vec ← listed_fields key
      return (last_field (array_header (length res_vec)) res_vec))
