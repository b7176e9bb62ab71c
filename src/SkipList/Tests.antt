-- ===== src/SkipList/Tests.antt =====
-- Concrete runs of the skip list (src/skiplist/skiplist.cpp), and its theorems at concrete inputs.
use lsm_tree_engine.SkipList.Iterator.{equal, advance}
use lsm_tree_engine.SkipList.Removal.{lower_level, backward_loop, unlink_loop, remove}
use lsm_tree_engine.SkipList.{
  descend, no_nodes, make_node, make_head, random_level_loop, SkipList, Version, put, get, flush,
  get_size, new_list, random_level, walk, forward_at, backward_at, put_value, put_node, link_loop,
  link, set_forward, set_backward, fill_update, node_less, flush_loop,
}
use lsm_tree_engine.SkipList.Versions.{
  version_less, IsSorted, insert_version, find_version, total_size,
}
use lsm_tree_engine.SkipList.Range.{
  seek, seek_level, left_level, go_left, right_level, go_right, iters_monotony_predicate,
}
use lsm_tree_engine.Prelude.{
  if◌then◌else◌, ℕ, ◌≡◌, refl, ltb, Bool, List, [], ◌∷◌, Option, none, some, Result, ok, ◌%◌, ◌^◌,
  arith, inr, Ordering, ◌>>=◌,
}
use lsm_tree_engine.Prelude.Order.{compare_bytes, lt_bytes}
use lsm_tree_engine.SkipList.Invariant.{Holds}
use lsm_tree_engine.SkipList.Putting.{put-Holds, new_list-Holds}
use lsm_tree_engine.SkipList.Get.{version_of, get-find_version}
use lsm_tree_engine.SkipList.Laws.{put-get_hidden}
use lsm_tree_engine.SkipList.Runs.{PutCall, put_all, insert_all, flush-put_all}

-- Two flips of heads, then tails.
abbrev coin : ℕ → Bool
coin i = ltb i 2

abbrev key_a : List ℕ
key_a = b'a' ∷ []

abbrev key_b : List ℕ
key_b = b'b' ∷ []

abbrev call : List ℕ → List ℕ → ℕ → PutCall
call key value tranc_id = record {
  coin = coin;
  bits = 1;
  key = key;
  value = value;
  tranc_id = tranc_id;
}

-- Key "b" by 5, key "a" by 3 and by 7, then "b" by 5 again.
abbrev calls : List PutCall
calls =
    call key_b (1 ∷ []) 5
    ∷ call key_a (2 ∷ []) 3
    ∷ call key_a (3 ∷ []) 7
    ∷ call key_b (4 ∷ 4 ∷ []) 5
    ∷ []

random_level_run : random_level coin 16 ≡ 3
unfolding random_level random_level_loop
random_level_run = refl

flush-put_all_example :
    (s : SkipList) × (put_all (new_list 4) calls ≡ ok s)
    × (flush s ≡ ok (insert_all [] calls))
    × IsSorted (insert_all [] calls)
    × (get_size s ≡ total_size (insert_all [] calls) % 2 ^ 64)
flush-put_all_example = flush-put_all 4 calls (omega arith)

insert_all_run :
    insert_all [] calls ≡ (key_a, 3 ∷ [], 7) ∷ (key_a, 2 ∷ [], 3) ∷ (key_b, 4 ∷ 4 ∷ [], 5) ∷ []
unfolding insert_all insert_version version_less compare_bytes
insert_all_run = refl

-- What the source's own operations do with the same calls.
flush_run :
    (put_all (new_list 4) calls >>= flush)
    ≡ ok ((key_a, 3 ∷ [], 7) ∷ (key_a, 2 ∷ [], 3) ∷ (key_b, 4 ∷ 4 ∷ [], 5) ∷ [])
unfolding put_all put new_list make_head make_node no_nodes descend walk forward_at put_value
    put_node link_loop link set_forward set_backward fill_update random_level random_level_loop
    node_less flush flush_loop compare_bytes
flush_run = refl

-- The list after `put` of key "b" by transaction 5, and that it is well formed.
abbrev first_put :
    (s : SkipList) × (put coin 1 (new_list 4) key_b (1 ∷ []) 5 ≡ ok s)
    × Holds s (insert_version (key_b, 1 ∷ [], 5) [])
first_put = put-Holds coin 1 (new_list 4) [] (new_list-Holds 4 (omega arith)) key_b (1 ∷ []) 5

abbrev one_version : SkipList
one_version = first_put.0

abbrev one_held : List Version
one_held = insert_version (key_b, 1 ∷ [], 5) []

one_version-Holds : Holds one_version one_held
one_version-Holds = first_put.2

put-Holds_example :
    (s : SkipList) × (put coin 0 one_version key_a (2 ∷ []) 3 ≡ ok s)
    × Holds s (insert_version (key_a, 2 ∷ [], 3) one_held)
put-Holds_example = put-Holds coin 0 one_version one_held one_version-Holds key_a (2 ∷ []) 3

get-find_version_example :
    (a : Option ℕ) × (get one_version key_b 9 ≡ ok a)
    × (version_of one_version a ≡ find_version key_b 9 one_held)
get-find_version_example = get-find_version one_version one_held one_version-Holds key_b 9

-- Transaction 5 does not see what 6 puts.
put-get_hidden_example :
    (s : SkipList) × (before : Option ℕ) × (after : Option ℕ) × (put coin 0 one_version key_b
        (2 ∷ [])
        6
      ≡ ok s)
    × (get one_version key_b 5 ≡ ok before)
    × (get s key_b 5 ≡ ok after)
    × (version_of s after ≡ version_of one_version before)
put-get_hidden_example =
    put-get_hidden coin 0 one_version one_held one_version-Holds key_b (2 ∷ []) 6 key_b 5
      (inr (omega arith, omega arith))

-- Of "a", "b", "c" the predicate takes "b" and "c".
abbrev from_b : List ℕ → Ordering
from_b key = if lt_bytes key key_b then Ordering.gt else Ordering.eq

abbrev range_calls : List PutCall
range_calls = call key_a (1 ∷ []) 1 ∷ call (b'c' ∷ []) (3 ∷ []) 3 ∷ call key_b (2 ∷ []) 2 ∷ []

range_run :
    (do s ← put_all (new_list 4) range_calls; iters_monotony_predicate s from_b)
    ≡ ok (some (some 3, none))
unfolding put_all put new_list make_head make_node no_nodes descend walk forward_at put_value
    put_node link_loop link set_forward set_backward fill_update random_level random_level_loop
    node_less compare_bytes iters_monotony_predicate seek seek_level go_left left_level go_right
    right_level backward_at advance
range_run = refl

abbrev after_remove : Result (List Version × ℕ)
after_remove = do
  s ← put_all (new_list 4) range_calls
  s' ← remove s key_a
  versions ← flush s'
  ok (versions, get_size s')

-- `remove` of "a" leaves "b" and "c", and subtracts eight bytes too few.
remove_run : after_remove ≡ ok ((key_b, 2 ∷ [], 2) ∷ (b'c' ∷ [], 3 ∷ [], 3) ∷ [], 28)
unfolding put_all put new_list make_head make_node no_nodes descend walk forward_at put_value
    put_node link_loop link set_forward set_backward fill_update random_level random_level_loop
    node_less compare_bytes remove unlink_loop backward_loop lower_level equal flush flush_loop
    get_size
remove_run = refl
