-- ===== src/Redis/Lists.antt =====
-- The commands on lists (src/redis_wrapper/redis_wrapper.cpp): the elements stand in one value, between `#`.
pub mod Machine
pub mod Refinement
pub mod Range
use lsm_tree_engine.Redis.{
  is_empty_text, Text, KeyValue, Command, codes, return, lift, ◌>>=◌, read_value, write_value,
  remove_value, arg,
}
use lsm_tree_engine.Prelude.{
  ℕ, zero, suc, ◌-◌, if◌then◌else◌, Bool, true, false, List, [], ◌∷◌, ◌++◌, length, get_elem?,
  Option, none, some, Result, ok, err, from_option, out_of_bounds,
}
use lsm_tree_engine.Prelude.Int.{ℤ, pos, negsuc, pos_part, ◌+ℤ◌, ◌-ℤ◌, ltb_ℤ, as_int, reaches}
use lsm_tree_engine.Redis.Numbers.{to_string_ℕ, stoi}
use lsm_tree_engine.Redis.Keys.{get_expire_key, bulk, integer, array_header, null_reply}
use lsm_tree_engine.Redis.Texts.{split, join, list_separator}
use lsm_tree_engine.Redis.Commands.{value_of, is_expired}

-- `elements[i]`.
abbrev pub element_at : List Text → ℤ → Result Text
element_at elements (pos i) = from_option out_of_bounds (get_elem? elements i)
element_at elements (negsuc i) = err out_of_bounds

-- The elements from `i` on, `n` of them.
unfoldable pub rows : List Text → ℕ → ℤ → Result Text
rows elements zero i = ok []
rows elements (suc n) i = elim (element_at elements i) [
  | err e ↦ err e
  | ok element ↦ elim (rows elements n (i +ℤ pos 1)) [
    | err e ↦ err e
    | ok rest ↦ ok (bulk element ++ rest)
  ]
]

-- `for (int i = start; i <= stop; i++)` behind the header.
unfoldable pub write_range : List Text → ℤ → ℤ → Result Text
write_range elements start stop =
    let count = pos_part (stop -ℤ start +ℤ pos 1) in
    elim (rows elements count start) [ err e ↦ err e | ok rest ↦ ok (array_header count ++ rest) ]

-- `elements.size() + start` where `start` is negative.
abbrev pub from_end : ℕ → ℤ → ℤ
from_end size (pos i) = pos i
from_end size (negsuc i) = as_int (pos size +ℤ negsuc i)

-- The last element, and the others.
abbrev pub without_last : Text → List Text → List Text × Text
without_last element [] = ([], element)
without_last element (e ∷ elements) =
    let (front, last) = without_last e elements in (element ∷ front, last)

-- `if (start > 0) start = 0`.
abbrev pub start_of : ℤ → ℤ
start_of (pos i) = pos 0
start_of (negsuc i) = negsuc i

abbrev pub stop_of : ℕ → ℤ → ℤ
stop_of size stop = if reaches stop (size - 1) then as_int (pos size -ℤ pos 1) else stop

module _ (K : KeyValue) (now : ℕ) where
  unfoldable pub expire_list_clean : Text → Command K.Store Bool
  expire_list_clean key = do
    expire_query ← read_value K (get_expire_key key)
    time ← value_of expire_query
    expired ← lift (is_expired now time)
    if expired
        then (do u ← remove_value K key; w ← remove_value K (get_expire_key key); return true)
        else return false

  abbrev pub stored_list : Option Text → Text
  stored_list none = []
  stored_list (some value) = value

  abbrev pub count_reply : Text → Text
  count_reply list_value = integer (to_string_ℕ (length (split list_value list_separator)))

  unfoldable pub lpush : List Text → Command K.Store Text
  lpush args = do
    key ← lift (arg args 1)
    value ← lift (arg args 2)
    expired ← expire_list_clean key
    list_opt ← read_value K key
    let list_value = stored_list list_opt
    let new_value =
        if is_empty_text list_value then value else value ++ (list_separator ∷ list_value)
    u ← write_value K key new_value
    return (count_reply new_value)

  unfoldable pub rpush : List Text → Command K.Store Text
  rpush args = do
    key ← lift (arg args 1)
    value ← lift (arg args 2)
    expired ← expire_list_clean key
    list_opt ← read_value K key
    let list_value = stored_list list_opt
    let new_value =
        if is_empty_text list_value then value else list_value ++ (list_separator ∷ value)
    u ← write_value K key new_value
    return (count_reply new_value)

  -- The list after an element has gone.
  abbrev pub store_list : Text → List Text → Command K.Store (Unit {0})
  store_list key [] = remove_value K key
  store_list key (e ∷ elements) = write_value K key (join (e ∷ elements) list_separator)

  abbrev pub pop_front_reply : Text → List Text → Command K.Store Text
  pop_front_reply key [] = return null_reply
  pop_front_reply key (value ∷ elements) = do u ← store_list key elements; return (bulk value)

  abbrev pub pop_last_reply : Text → List Text → Command K.Store Text
  pop_last_reply key [] = return null_reply
  pop_last_reply key (e ∷ elements) = do
    u ← store_list key (without_last e elements).0
    return (bulk (without_last e elements).1)

  -- What both pops have in common.
  abbrev pub pop_with : (Text → List Text → Command K.Store Text) → List Text → Command K.Store Text
  pop_with reply args = do
    key ← lift (arg args 1)
    expired ← expire_list_clean key
    if expired then return null_reply else (do
      list_opt ← read_value K key
      elim list_opt [
        | none ↦ return null_reply
        | some value ↦ reply key (split value list_separator)
      ])

  unfoldable pub lpop : List Text → Command K.Store Text
  lpop = pop_with pop_front_reply

  unfoldable pub rpop : List Text → Command K.Store Text
  rpop = pop_with pop_last_reply

  unfoldable pub llen : List Text → Command K.Store Text
  llen args = do
    key ← lift (arg args 1)
    expired ← expire_list_clean key
    if expired then return (integer (codes "0")) else (do
      list_opt ← read_value K key
      elim list_opt [
        | none ↦ return (integer (codes "0"))
        | some value ↦ return (count_reply value)
      ])

  -- The reply of `lrange` for elements that are there.
  abbrev pub range_reply : List Text → ℤ → ℤ → Result Text
  range_reply [] start stop = ok (array_header 0)
  range_reply (e ∷ elements) start stop =
      let size = length (e ∷ elements) in
      let first = start_of (from_end size start) in
      let last = stop_of size (from_end size stop) in
      if ltb_ℤ last first then ok (array_header 0) else write_range (e ∷ elements) first last

  unfoldable pub lrange : List Text → Command K.Store Text
  lrange args = do
    key ← lift (arg args 1)
    start_text ← lift (arg args 2)
    start ← lift (stoi start_text)
    stop_text ← lift (arg args 3)
    stop ← lift (stoi stop_text)
    expired ← expire_list_clean key
    if expired then return (array_header 0) else (do
      list_opt ← read_value K key
      elim list_opt [
        | none ↦ return (array_header 0)
        | some value ↦ lift (range_reply (split value list_separator) start stop)
      ])
