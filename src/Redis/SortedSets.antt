-- ===== src/Redis/SortedSets.antt =====
-- The commands on sorted sets (src/redis_wrapper/redis_wrapper.cpp). `add_score` is the sum that `zincrby` takes in
-- floating point, of the old score, if there is one, and the increment, as a `uint64_t`.
use lsm_tree_engine.Prelude.{
  ℕ, ◌+◌, ltb, if◌then◌else◌, Bool, true, false, List, [], ◌∷◌, ◌++◌, length, drop, Option, none,
  some, Result, ok, err, out_of_bounds,
}
use lsm_tree_engine.Prelude.Order.{eq_bytes}
use lsm_tree_engine.Prelude.Int.{ℤ, pos, ◌-ℤ◌, ltb_ℤ, as_int, reaches}
use lsm_tree_engine.Redis.{
  Text, KeyValue, Command, codes, return, lift, ◌>>=◌, read_value, write_value, remove_value,
  put_values, remove_values, iter_values, arg,
}
use lsm_tree_engine.Redis.Numbers.{to_string_ℕ, stoi, stoll}
use lsm_tree_engine.Redis.Keys.{
  get_expire_key, get_zset_key_preffix, get_zset_key_score, get_zset_key_elem,
  get_zset_score_preffix, get_zset_score_item, has_preffix, bulk, integer, array_header, null_reply,
}
use lsm_tree_engine.Redis.Commands.{value_of, has_value, is_expired}
use lsm_tree_engine.Redis.Sets.{remove_range}
use lsm_tree_engine.Redis.Lists.{from_end, write_range}

-- What `zadd` gathers: the pairs to put, the keys to remove, and the count.
pub record ZaddPlan : Type 0 where
  pub put_kvs : List (Text × Text)
  pub remove_keys : List Text
  pub added_count : ℕ

module _ (K : KeyValue) (now : ℕ) where
  unfoldable pub expire_zset_clean : Text → Command K.Store Bool
  expire_zset_clean key = do
    expire_query ← read_value K (get_expire_key key)
    time ← value_of expire_query
    expired ← lift (is_expired now time)
    if expired
        then (do
          u ← remove_value K key
          v ← remove_value K (get_expire_key key)
          w ← remove_range K now (get_zset_key_preffix key)
          return true)
        else return false

  -- A member with its score: nothing where the score stays as it is, else the old score's key goes.
  abbrev pub zadd_member : Text → Text → Text → Option Text → ZaddPlan → ZaddPlan
  zadd_member key score elem none plan = record {
    put_kvs =
        plan.put_kvs
        ++ ((get_zset_key_score key score, elem) ∷ (get_zset_key_elem key elem, score) ∷ []);
    remove_keys = plan.remove_keys;
    added_count = plan.added_count + 1;
  }
  zadd_member key score elem (some original_score) plan =
      if eq_bytes original_score score then plan else record {
        put_kvs =
            plan.put_kvs
            ++ ((get_zset_key_score key score, elem) ∷ (get_zset_key_elem key elem, score) ∷ []);
        remove_keys = plan.remove_keys ++ (get_zset_key_score key original_score ∷ []);
        added_count = plan.added_count + 1;
      }

  -- The loop over scores and members; a score without a member is an access outside the vector.
  unfoldable pub zadd_loop : Text → List Text → ZaddPlan → Command K.Store ZaddPlan
  zadd_loop key [] plan = return plan
  zadd_loop key (score ∷ []) plan = lift (err out_of_bounds)
  zadd_loop key (score ∷ elem ∷ args) plan = do
    query_elem ← read_value K (get_zset_key_elem key elem)
    zadd_loop key args (zadd_member key score elem query_elem plan)

  unfoldable pub zadd : List Text → Command K.Store Text
  zadd args = do
    key ← lift (arg args 1)
    expired ← expire_zset_clean key
    big ← read_value K (get_zset_key_preffix key)
    plan ← zadd_loop key (drop 2 args) (record {
      put_kvs = if has_value big then [] else (key, get_zset_key_preffix key) ∷ [];
      remove_keys = [];
      added_count = 0;
    })
    u ← remove_values K plan.remove_keys
    w ← put_values K plan.put_kvs
    return (integer (to_string_ℕ plan.added_count))

  abbrev pub score_items : List (Text × Text) → List Text
  score_items [] = []
  score_items ((key_score, elem) ∷ kvs) = get_zset_score_item key_score ∷ score_items kvs

  -- The reply of `zrange` for the scores that are there.
  abbrev pub zrange_reply : List Text → ℤ → ℤ → Result Text
  zrange_reply scores start end =
      let first = from_end (length scores) start in
      let last' = from_end (length scores) end in
      let last =
        if reaches last' (length scores) then as_int (pos (length scores) -ℤ pos 1) else last' in
      if ltb_ℤ last first then ok (array_header 0) else write_range scores first last

  unfoldable pub zrange : List Text → Command K.Store Text
  zrange args = do
    key ← lift (arg args 1)
    start_text ← lift (arg args 2)
    start ← lift (stoi start_text)
    end_text ← lift (arg args 3)
    end ← lift (stoi end_text)
    expired ← expire_zset_clean key
    if expired then return (array_header 0) else (do
      result ← iter_values K (has_preffix (get_zset_score_preffix key))
      elim result [
        | none ↦ return (array_header 0)
        | some kvs ↦ lift (zrange_reply (score_items kvs) start end)
      ])

  unfoldable pub zrem_loop : Text → List Text → ℕ → Command K.Store ℕ
  zrem_loop key [] removed_count = return removed_count
  zrem_loop key (elem ∷ elems) removed_count = do
    query_elem ← read_value K (get_zset_key_elem key elem)
    u ← elim query_elem [
      | none ↦ return tt
      | some score ↦ (do
        v ← remove_value K (get_zset_key_elem key elem)
        remove_value K (get_zset_key_score key score))
    ]
    zrem_loop key elems (if has_value query_elem then removed_count + 1 else removed_count)

  unfoldable pub zrem : List Text → Command K.Store Text
  zrem args =
      if ltb (length args) 3
      then return (codes "-EER wrong number of arguments for 'zrem' command" ++ (13 ∷ 10 ∷ []))
      else (do
        key ← lift (arg args 1)
        expired ← expire_zset_clean key
        if expired then return (integer (codes "0")) else (do
          removed_count ← zrem_loop key (drop 2 args) 0
          return (integer (to_string_ℕ removed_count))))

  unfoldable pub zscore : List Text → Command K.Store Text
  zscore args = do
    key ← lift (arg args 1)
    elem ← lift (arg args 2)
    expired ← expire_zset_clean key
    if expired then return null_reply else (do
      query_elem ← read_value K (get_zset_key_elem key elem)
      elim query_elem [ none ↦ return null_reply | some score ↦ return (bulk score) ])

  -- The new score, from the old one if there is one; the old score's key goes.
  abbrev pub new_score_of :
      (Option ℤ → Text → Result ℕ) → Text → Text → Option Text → Command K.Store ℕ
  new_score_of add_score key increment none = lift (add_score none increment)
  new_score_of add_score key increment (some original_score) = do
    original ← lift (stoll original_score)
    new_score ← lift (add_score (some original) increment)
    u ← remove_value K (get_zset_key_score key original_score)
    return new_score

  unfoldable pub zincrby : (Option ℤ → Text → Result ℕ) → List Text → Command K.Store Text
  zincrby add_score args = do
    key ← lift (arg args 1)
    increment ← lift (arg args 2)
    elem ← lift (arg args 3)
    expired ← expire_zset_clean key
    query_elem ← read_value K (get_zset_key_elem key elem)
    new_score ← new_score_of add_score key increment query_elem
    u ← write_value K (get_zset_key_elem key elem) (to_string_ℕ new_score)
    w ← write_value K (get_zset_key_score key (to_string_ℕ new_score)) elem
    return (integer (to_string_ℕ new_score))

  unfoldable pub zcard : List Text → Command K.Store Text
  zcard args = do
    key ← lift (arg args 1)
    expired ← expire_zset_clean key
    if expired then return (integer (codes "0")) else (do
      result_elem ← iter_values K (has_preffix (get_zset_score_preffix key))
      elim result_elem [
        | none ↦ return (integer (codes "0"))
        | some kvs ↦ return (integer (to_string_ℕ (length kvs)))
      ])

  -- The loop over the pairs, with the rank so far.
  unfoldable pub rank_loop : Text → ℕ → List (Text × Text) → Text
  rank_loop key_score rank [] = null_reply
  rank_loop key_score rank ((key, value) ∷ kvs) =
      let rest = rank_loop key_score (rank + 1) kvs in
      if eq_bytes key key_score then integer (to_string_ℕ rank) else rest

  unfoldable pub zrank : List Text → Command K.Store Text
  zrank args = do
    key ← lift (arg args 1)
    elem ← lift (arg args 2)
    expired ← expire_zset_clean key
    if expired then return null_reply else (do
      query_elem ← read_value K (get_zset_key_elem key elem)
      elim query_elem [
        | none ↦ return null_reply
        | some score ↦ (do
          result_elem ← iter_values K (has_preffix (get_zset_key_preffix key))
          elim result_elem [
            | none ↦ return null_reply
            | some kvs ↦ return (rank_loop (get_zset_key_score key score) 0 kvs)
          ])
      ])
