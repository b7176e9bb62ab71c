-- ===== src/Redis/Tests.antt =====
-- Concrete runs of the commands (src/redis_wrapper/redis_wrapper.cpp), and the theorems about them at concrete inputs.
use lsm_tree_engine.Prelude.{
  true, take, min, length, ◌++◌, All, Option, some, if◌then◌else◌, err, out_of_bounds, ltb, ◌+◌,
  ◌-◌, arith, ℕ, ◌≡◌, refl, List, [], ◌∷◌, Result, ok,
}
use lsm_tree_engine.Redis.Keys.{
  get_set_elem_key, array_header, bulk, integer, ok_reply, null_reply, get_expire_key,
}
use lsm_tree_engine.Redis.Commands.{has_value, get, expire, ttl, get_expire_time, is_expired}
use lsm_tree_engine.Redis.Sets.{sadd, srem, sismember, scard, bulks}
use lsm_tree_engine.Redis.Sets.Membership.{yes_no, sadd-sismember, srem-sismember}
use lsm_tree_engine.Redis.Lists.{lrange, lpush, rpush, rpop, llen, expire_list_clean}
use lsm_tree_engine.Redis.Lists.Range.{lrange-take}
use lsm_tree_engine.Prelude.Int.{negsuc, ◌+ℤ◌, ◌-ℤ◌, ℤ, pos}
use lsm_tree_engine.Redis.Lists.Refinement.{Represents, run, run_all, apply_all, run_all-apply_all}
use lsm_tree_engine.Redis.Hashes.Laws.{Lists, hset-hget}
use lsm_tree_engine.Redis.Hashes.{hset, hget}
use lsm_tree_engine.Redis.Commands.Lifetime.{expire-get-ttl}
use lsm_tree_engine.Redis.Commands.Counters.{Change, Fits, numbers, change_all, change_all-numbers}
use lsm_tree_engine.Redis.Texts.{
  get_hash_value_from_fields, get_fileds_from_hash_value, join, joined_rest, split, getlines,
}
use lsm_tree_engine.Redis.Faults.{container_commands, container_commands_throw}
use lsm_tree_engine.Redis.Numbers.{
  stoi, to_string, to_string_ℕ, digits, stoll, skip_spaces, scan, unsigned, signed,
}
use lsm_tree_engine.Prelude.Results.{bad_optional_access}
use lsm_tree_engine.Prelude.Order.{eq_bytes, compare_bytes}
use lsm_tree_engine.Redis.LogStore.{log_store-IsMap, log_store}
use lsm_tree_engine.Redis.{Text, codes}
use lsm_tree_engine.Redis.Laws.{Alive}
use lsm_tree_engine.Redis.Lists.Machine.{ListCommand}

abbrev k : Text
k = codes "k"

abbrev a : Text
a = codes "a"

abbrev bc : Text
bc = codes "bc"

-- A store with a value under "k" and a time to live until 90.
abbrev limited : Text → log_store.Store
limited value = (get_expire_key k, codes "90") ∷ (k, value) ∷ []

abbrev no_list : log_store.Store
no_list = (get_expire_key k, codes "90") ∷ []

limited-Alive : (value : Text) → Alive log_store 50 k (limited value)
unfolding get_expire_key is_expired stoll skip_spaces signed unsigned scan compare_bytes
limited-Alive value = (codes "90", refl, refl)

no_list-Alive : Alive log_store 50 k no_list
unfolding get_expire_key is_expired stoll skip_spaces signed unsigned scan compare_bytes
no_list-Alive = (codes "90", refl, refl)

split_run : split (codes "#a##bc#") b'#' ≡ [] ∷ a ∷ [] ∷ bc ∷ []
unfolding split getlines
split_run = refl

stoll_run : stoll (codes " -42x") ≡ ok (negsuc 41)
unfolding stoll skip_spaces signed unsigned scan
stoll_run = refl

abbrev list_commands : List ListCommand
list_commands =
    ListCommand.push_back a
    ∷ ListCommand.push_front bc
    ∷ ListCommand.size
    ∷ ListCommand.pop_last
    ∷ []

abbrev replies : List Text
replies = integer (codes "1") ∷ integer (codes "2") ∷ integer (codes "2") ∷ bulk a ∷ []

run_all_run : (run_all log_store 50 k list_commands no_list).0 ≡ ok replies
unfolding run_all run lpush rpush rpop llen expire_list_clean get_expire_key is_expired stoll
    skip_spaces signed unsigned scan compare_bytes to_string_ℕ digits split getlines join
    joined_rest
run_all_run = refl

no_elements : Represents log_store 50 k [] no_list
unfolding get_expire_key compare_bytes
no_elements = (tt, refl)

run_all-apply_all_example :
    ((run_all log_store 50 k list_commands no_list).0 ≡ ok (apply_all list_commands []).0)
    × Represents log_store 50 k
        (apply_all list_commands []).1
        (run_all log_store 50 k list_commands no_list).1
    × Alive log_store 50 k (run_all log_store 50 k list_commands no_list).1
run_all-apply_all_example =
    run_all-apply_all log_store log_store-IsMap 50 k list_commands [] no_list
      (((refl, tt), refl), (((refl, (refl, tt)), refl), (tt, (tt, tt)))) no_elements no_list-Alive

abbrev no_score : Option ℤ → Text → Result ℕ
no_score score increment = err out_of_bounds

read_0 : stoi (codes "0") ≡ ok (pos 0)
unfolding stoi skip_spaces signed unsigned scan
read_0 = refl

read_1 : stoi (codes "1") ≡ ok (pos 1)
unfolding stoi skip_spaces signed unsigned scan
read_1 = refl

container_commands_throw_example :
    All
      (λ command.
        command (codes "x" ∷ k ∷ codes "0" ∷ codes "1" ∷ []) [] ≡ (err bad_optional_access, []))
      (container_commands log_store 50 no_score)
container_commands_throw_example =
    container_commands_throw log_store 50 no_score [] (codes "x") k (codes "0") (codes "1") []
      (pos 0) (pos 1) read_0 read_1 refl

abbrev with_value : log_store.Store
with_value = (k, bc) ∷ []

abbrev with_limit : log_store.Store
with_limit = (expire log_store 50 (codes "x" ∷ k ∷ to_string_ℕ 40 ∷ []) with_value).1

expire_run : (get log_store 91 (codes "get" ∷ k ∷ []) with_limit).0 ≡ ok null_reply
unfolding get expire get_expire_time get_expire_key is_expired stoll skip_spaces signed unsigned
    scan compare_bytes to_string to_string_ℕ digits ◌+ℤ◌
expire_run = refl

with_value_holds : log_store.get with_value k ≡ some bc
unfolding compare_bytes
with_value_holds = refl

expire-get-ttl_example :
    (get log_store 90 (codes "x" ∷ k ∷ []) with_limit ≡ (
      if ltb (50 + 40) 90
      then (ok null_reply, log_store.remove (log_store.remove with_limit k) (get_expire_key k))
      else (ok (bulk bc), with_limit)))
    × (ttl log_store 90 (codes "x" ∷ k ∷ []) with_limit ≡ (
      ok (integer (if ltb (50 + 40) 90 then codes "-2" else to_string_ℕ (50 + 40 - 90))),
      with_limit,
    ))
expire-get-ttl_example =
    expire-get-ttl log_store log_store-IsMap (codes "x") k 50 40 90 bc with_value with_limit
      (omega arith) with_value_holds refl

counter-Fits : Fits (Change.up ∷ Change.down ∷ Change.down ∷ []) (pos 0)
unfolding ◌+ℤ◌ ◌-ℤ◌
counter-Fits = (refl, (refl, (refl, refl)))

counter_holds : log_store.get ((k, to_string (pos 0)) ∷ []) k ≡ some (to_string (pos 0))
unfolding compare_bytes to_string to_string_ℕ digits
counter_holds = refl

change_all-numbers_example :
    ((change_all log_store 50 k
        (Change.up ∷ Change.down ∷ Change.down ∷ [])
        ((k, to_string (pos 0)) ∷ [])).0
      ≡ ok (numbers (Change.up ∷ Change.down ∷ Change.down ∷ []) (pos 0)).0)
    × (log_store.get
          (change_all log_store 50 k
            (Change.up ∷ Change.down ∷ Change.down ∷ [])
            ((k, to_string (pos 0)) ∷ [])).1
          k
        ≡ some (to_string (numbers (Change.up ∷ Change.down ∷ Change.down ∷ []) (pos 0)).1))
change_all-numbers_example =
    change_all-numbers log_store log_store-IsMap 50 k (Change.up ∷ Change.down ∷ Change.down ∷ [])
      (pos 0) ((k, to_string (pos 0)) ∷ []) counter-Fits counter_holds

abbrev fields_value : Text
fields_value = get_hash_value_from_fields (a ∷ [])

fields_listed : Lists log_store 50 k (a ∷ []) (limited fields_value)
unfolding get_expire_key compare_bytes get_hash_value_from_fields join joined_rest
    get_fileds_from_hash_value split getlines
fields_listed = (fields_value, refl, refl)

abbrev hset_args : List Text
hset_args = codes "x" ∷ k ∷ bc ∷ codes "7" ∷ []

hset-hget_example :
    ((hset log_store 50 hset_args (limited fields_value)).0 ≡ ok ok_reply)
    × ((hget log_store 50
          (codes "x" ∷ k ∷ a ∷ [])
          (hset log_store 50 hset_args (limited fields_value)).1).0
        ≡ (if eq_bytes bc a
            then ok (bulk (codes "7"))
            else (hget log_store 50 (codes "x" ∷ k ∷ a ∷ []) (limited fields_value)).0))
hset-hget_example =
    hset-hget log_store log_store-IsMap 50 k (limited fields_value) _ (codes "x") bc a (codes "7")
      (a ∷ []) refl (limited-Alive fields_value) fields_listed refl

-- A set with one element.
abbrev one_element : log_store.Store
one_element = (get_set_elem_key k a, codes "1") ∷ limited (to_string (pos 1))

one_element-Alive : Alive log_store 50 k one_element
unfolding get_expire_key get_set_elem_key is_expired stoll skip_spaces signed unsigned scan
    compare_bytes
one_element-Alive = (codes "90", refl, refl)

one_element_size : log_store.get one_element k ≡ some (to_string (pos 1))
unfolding get_expire_key get_set_elem_key compare_bytes to_string to_string_ℕ digits
one_element_size = refl

sadd-sismember_example :
    ((sadd log_store 50 (codes "x" ∷ k ∷ bc ∷ []) one_element).0
      ≡ ok (
          integer (
            to_string_ℕ
              (if has_value (log_store.get one_element (get_set_elem_key k bc)) then 0 else 1))))
    × ((sismember log_store 50
          (codes "x" ∷ k ∷ a ∷ [])
          (sadd log_store 50 (codes "x" ∷ k ∷ bc ∷ []) one_element).1).0
        ≡ (if eq_bytes bc a
            then ok (yes_no true)
            else (sismember log_store 50 (codes "x" ∷ k ∷ a ∷ []) one_element).0))
    × ((scard log_store 50
          (codes "x" ∷ k ∷ [])
          (sadd log_store 50 (codes "x" ∷ k ∷ bc ∷ []) one_element).1).0
        ≡ ok (
            integer (
              to_string (
                pos (
                  if has_value (log_store.get one_element (get_set_elem_key k bc))
                  then 1
                  else 1 + 1)))))
sadd-sismember_example =
    sadd-sismember log_store log_store-IsMap 50 (codes "x") k bc one_element _ 1 a (omega arith)
      one_element-Alive one_element_size refl

srem-sismember_example :
    ((srem log_store 50 (codes "x" ∷ k ∷ a ∷ []) one_element).0
      ≡ ok (
          integer (
            to_string_ℕ
              (if has_value (log_store.get one_element (get_set_elem_key k a)) then 0 else 1))))
    × ((sismember log_store 50
          (codes "x" ∷ k ∷ a ∷ [])
          (srem log_store 50 (codes "x" ∷ k ∷ a ∷ []) one_element).1).0
        ≡ (sismember log_store 50 (codes "x" ∷ k ∷ a ∷ []) one_element).0)
    × ((scard log_store 50
          (codes "x" ∷ k ∷ [])
          (srem log_store 50 (codes "x" ∷ k ∷ a ∷ []) one_element).1).0
        ≡ ok (
            integer (
              to_string (
                pos (
                  if has_value (log_store.get one_element (get_set_elem_key k a)) then 1 else 0)))))
srem-sismember_example =
    srem-sismember log_store log_store-IsMap 50 (codes "x") k a one_element _ 1 0 refl (omega arith)
      one_element-Alive one_element_size refl

stored_pair : Represents log_store 50 k (a ∷ bc ∷ []) (limited (join (a ∷ bc ∷ []) b'#'))
unfolding get_expire_key compare_bytes join joined_rest
stored_pair = ((((refl, tt), refl), (((refl, (refl, tt)), refl), tt)), refl)

lrange-take_example :
    lrange log_store 50
      (codes "x" ∷ k ∷ codes "1" ∷ codes "1" ∷ [])
      (limited (join (a ∷ bc ∷ []) b'#'))
    ≡ (
      ok (
          array_header (min (1 + 1) (length (a ∷ bc ∷ [])))
          ++ bulks (take (min (1 + 1) (length (a ∷ bc ∷ []))) (a ∷ bc ∷ []))),
      limited (join (a ∷ bc ∷ []) b'#'),
    )
lrange-take_example =
    lrange-take log_store 50 (codes "x") k (codes "1") (codes "1") a (bc ∷ []) 1 1
      (limited (join (a ∷ bc ∷ []) b'#')) read_1 read_1 (omega arith) stored_pair (limited-Alive _)
