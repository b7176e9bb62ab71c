-- ===== src/Redis/Commands.antt =====
-- The commands on strings and on the time to live (src/redis_wrapper/redis_wrapper.cpp).
pub mod Lifetime
pub mod Counters
use lsm_tree_engine.Prelude.{
  ℕ, ◌+◌, if◌then◌else◌, Bool, true, false, List, [], ◌∷◌, Option, none, some, Result, ok, err,
  from_option,
}
use lsm_tree_engine.Prelude.Results.{bad_optional_access}
use lsm_tree_engine.Prelude.Int.{ℤ, pos, ◌+ℤ◌, ◌-ℤ◌, ltb_ℤ, checked}
use lsm_tree_engine.Redis.{
  Text, KeyValue, Command, codes, return, lift, ◌>>=◌, read_value, write_value, remove_value, arg,
}
use lsm_tree_engine.Redis.Numbers.{to_string, to_string_ℕ, stoll}
use lsm_tree_engine.Redis.Keys.{get_expire_key, bulk, integer, ok_reply, null_reply}

-- `value()` of an optional.
abbrev pub value_of : {Store : Type 0} → Option Text → Command Store Text
value_of o = lift (from_option bad_optional_access o)

abbrev pub has_value : Option Text → Bool
has_value none = false
has_value (some v) = true

-- A `long long` of which `result` may leave the range.
abbrev pub bounded : {Store : Type 0} → ℤ → Command Store ℤ
bounded result = lift (checked result)

-- Whether a time that is there has passed.
unfoldable pub is_expired : ℕ → Text → Result Bool
is_expired now expire_str = elim (stoll expire_str) [
  | err e ↦ err e
  | ok time ↦ ok (ltb_ℤ time (pos now))
]

module _ (K : KeyValue) (now : ℕ) where
  unfoldable pub get_expire_time : Text → Command K.Store Text
  get_expire_time second_count = do
    time_add ← lift (stoll second_count)
    expire_time ← bounded (pos now +ℤ time_add)
    return (to_string expire_time)

  -- `if (lsm->get(key, 0).has_value()) lsm->remove(key, 0);`
  abbrev pub remove_if_there : Text → Command K.Store (Unit {0})
  remove_if_there key = do
    v ← read_value K key
    if has_value v then remove_value K key else return tt

  unfoldable pub set : List Text → Command K.Store Text
  set args = do
    key ← lift (arg args 1)
    value ← lift (arg args 2)
    u ← write_value K key value
    w ← remove_if_there (get_expire_key key)
    return ok_reply

  unfoldable pub get : List Text → Command K.Store Text
  get args = do
    key ← lift (arg args 1)
    key_query ← read_value K key
    expire_query ← read_value K (get_expire_key key)
    elim key_query [
      | none ↦ return null_reply
      | some value ↦ elim expire_query [
        | none ↦ return (bulk value)
        | some time ↦ (do
          expired ← lift (is_expired now time)
          if expired
              then (do
                u ← remove_value K key
                w ← remove_value K (get_expire_key key)
                return null_reply)
              else return (bulk value))
      ]
    ]

  unfoldable pub incr : List Text → Command K.Store Text
  incr args = do
    key ← lift (arg args 1)
    original_value ← read_value K key
    elim original_value [
      | none ↦ (do u ← write_value K key (codes "1"); return (codes "1"))
      | some value ↦ (do
        number ← lift (stoll value)
        new_number ← bounded (number +ℤ pos 1)
        u ← write_value K key (to_string new_number)
        return (to_string new_number))
    ]

  -- A missing key is stored as -1, and then the value that was not there is taken.
  unfoldable pub decr : List Text → Command K.Store Text
  decr args = do
    key ← lift (arg args 1)
    original_value ← read_value K key
    u ← if has_value original_value then return tt else write_value K key (codes "-1")
    value ← value_of original_value
    number ← lift (stoll value)
    new_number ← bounded (number -ℤ pos 1)
    w ← write_value K key (to_string new_number)
    return (to_string new_number)

  -- The loop over the keys, with the count so far.
  unfoldable pub del_loop : List Text → ℕ → Command K.Store ℕ
  del_loop [] del_count = return del_count
  del_loop (cur_key ∷ keys) del_count = do
    cur_value ← read_value K cur_key
    u ← if has_value cur_value then remove_value K cur_key else return tt
    w ← remove_if_there (get_expire_key cur_key)
    del_loop keys (if has_value cur_value then del_count + 1 else del_count)

  abbrev pub behind_first : List Text → List Text
  behind_first [] = []
  behind_first (a ∷ args) = args

  unfoldable pub del : List Text → Command K.Store Text
  del args = do del_count ← del_loop (behind_first args) 0; return (integer (to_string_ℕ del_count))

  unfoldable pub expire : List Text → Command K.Store Text
  expire args = do
    key ← lift (arg args 1)
    seconds ← lift (arg args 2)
    expire_time ← get_expire_time seconds
    u ← write_value K (get_expire_key key) expire_time
    return (integer (codes "1"))

  unfoldable pub ttl : List Text → Command K.Store Text
  ttl args = do
    key ← lift (arg args 1)
    key_query ← read_value K key
    expire_query ← read_value K (get_expire_key key)
    elim key_query [
      | none ↦ return (integer (codes "1"))
      | some value ↦ elim expire_query [
        | none ↦ return (integer (codes "-1"))
        | some time ↦ (do
          expired ← lift (is_expired now time)
          if expired then return (integer (codes "-2")) else (do
            end ← lift (stoll time)
            rest ← bounded (end -ℤ pos now)
            return (integer (to_string rest))))
      ]
    ]

  unfoldable pub clear : Command K.Store (Unit {0})
  clear s = (ok tt, K.clear s)
