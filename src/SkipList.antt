-- ===== src/SkipList.antt =====
-- src/skiplist/skiplist.cpp, include/skiplist/skiplist.h: the skip list. Nodes stand in a store at
-- addresses; a pointer that may be null is `Option`. `forward i` and `backward i` hold the pointers of
-- level `i` of all nodes, and an access at or above a node's `height`, the size of its two vectors, is
-- a fault, as is following a null pointer. `fresh` is the address of the next node that is made. Flips
-- of the coin and the random bits are arguments.
pub mod Chains
pub mod Versions
pub mod Invariant
pub mod Search
pub mod Linking
pub mod Insertion
pub mod Distinct
pub mod Making
pub mod Replacing
pub mod Levels
pub mod Placing
pub mod Finding
pub mod Put
pub mod Contents
pub mod Putting
pub mod Keys
pub mod Get
pub mod Laws
pub mod Runs
pub mod Iterator
pub mod Removal
pub mod Range
mod Tests
use lsm_tree_engine.Prelude.{
  ℕ, zero, suc, ◌+◌, ◌-◌, ◌/◌, ◌%◌, ◌^◌, max, ltb, leb, ◌==◌, if◌then◌else◌, Bool, true, false,
  ◌&&◌, ◌||◌, List, [], ◌∷◌, length, Option, none, some, Result, ok, err, ◌>>=◌, from_option, stuck,
  out_of_bounds,
}
use lsm_tree_engine.Prelude.Order.{eq_bytes, lt_bytes}
use lsm_tree_engine.Bytes.{sub_size}

pub record SkipListNode : Type 0 where
  pub key : List ℕ
  pub value : List ℕ
  pub tranc_id : ℕ
  pub height : ℕ

-- `operator<`: among equal keys the greater transaction id comes first.
unfoldable pub node_less : SkipListNode → SkipListNode → Bool
node_less a b = if eq_bytes a.key b.key then ltb b.tranc_id a.tranc_id else lt_bytes a.key b.key

pub record SkipList : Type 0 where
  pub head : ℕ
  pub max_level : ℕ
  pub current_level : ℕ
  pub size_bytes : ℕ
  pub fresh : ℕ
  pub nodes : ℕ → SkipListNode
  pub forward : ℕ → ℕ → Option ℕ
  pub backward : ℕ → ℕ → Option ℕ

-- A function changed at one place.
abbrev pub at_put {ℓ} : {A : Type ℓ} → (ℕ → A) → ℕ → A → ℕ → A
at_put f p v q = if p == q then v else f q

-- A new node at `fresh`, with null pointers.
unfoldable pub make_node : SkipList → List ℕ → List ℕ → ℕ → ℕ → SkipList
make_node s key value level tranc_id = record s {
  fresh = s.fresh + 1;
  nodes =
      at_put s.nodes s.fresh
        (record { key = key; value = value; tranc_id = tranc_id; height = level });
  forward = λ i. at_put (s.forward i) s.fresh none;
  backward = λ i. at_put (s.backward i) s.fresh none;
}

-- The list before its head is made.
unfoldable pub no_nodes : ℕ → SkipList
no_nodes max_level = record {
  head = 0;
  max_level = max_level;
  current_level = 1;
  size_bytes = 0;
  fresh = 0;
  nodes = λ a. record { key = []; value = []; tranc_id = 0; height = 0 };
  forward = λ i a. none;
  backward = λ i a. none;
}

-- `head = std::make_shared<SkipListNode>("", "", max_level, 0)`.
unfoldable pub make_head : SkipList → SkipList
make_head s = record (make_node s [] [] s.max_level 0) { head = s.fresh }

unfoldable pub new_list : ℕ → SkipList
new_list max_level = make_head (no_nodes max_level)

pub clear : SkipList → SkipList
clear s = record (make_head s) { size_bytes = 0 }

-- `while (dis_01(gen) && level < max_level) level++`, with the flips from the `i`-th on and `n` levels left.
pub random_level_loop : (ℕ → Bool) → ℕ → ℕ → ℕ → ℕ
random_level_loop coin zero i level = level
random_level_loop coin (suc n) i level =
    let more = random_level_loop coin n (i + 1) (level + 1) in if coin i then more else level

pub random_level : (ℕ → Bool) → ℕ → ℕ
random_level coin max_level = random_level_loop coin (max_level - 1) 0 1

-- `current->forward[i]` and `current->backward[i]`.
pub forward_at : SkipList → ℕ → ℕ → Result (Option ℕ)
forward_at s i a = if ltb i (s.nodes a).height then ok (s.forward i a) else err out_of_bounds

pub backward_at : SkipList → ℕ → ℕ → Result (Option ℕ)
backward_at s i a = if ltb i (s.nodes a).height then ok (s.backward i a) else err out_of_bounds

pub set_forward : SkipList → ℕ → ℕ → Option ℕ → Result SkipList
set_forward s i a p =
    if ltb i (s.nodes a).height
    then ok (record s { forward = at_put s.forward i (at_put (s.forward i) a p) })
    else err out_of_bounds

pub set_backward : SkipList → ℕ → ℕ → Option ℕ → Result SkipList
set_backward s i a p =
    if ltb i (s.nodes a).height
    then ok (record s { backward = at_put s.backward i (at_put (s.backward i) a p) })
    else err out_of_bounds

-- `while (current->forward[i] && *current->forward[i] < …) current = current->forward[i];`, on fuel.
pub walk : SkipList → (ℕ → Bool) → ℕ → ℕ → ℕ → Result ℕ
walk s less i zero current = err stuck
walk s less i (suc fuel) current = do
  next ← forward_at s i current
  elim next [
    | none ↦ ok current
    | some n ↦ elim (less n) [ true ↦ walk s less i fuel n | false ↦ ok current ]
  ]

-- The levels below `n`, from the highest down: the node at the end, and `update` with the last node met
-- on each. There are no more nodes than addresses given out, so a round for each is enough.
pub descend : SkipList → (ℕ → Bool) → ℕ → ℕ → (ℕ → Option ℕ) → Result (ℕ × (ℕ → Option ℕ))
descend s less zero current update = ok (current, update)
descend s less (suc i) current update = do
  current' ← walk s less i s.fresh current
  descend s less i current' (at_put update i (some current'))

-- `for (int i = current_level; i < new_level; ++i) update[i] = head;`
pub fill_update : SkipList → ℕ → ℕ → (ℕ → Option ℕ) → ℕ → Option ℕ
fill_update s new_level current_level update i =
    if leb current_level i && ltb i new_level then some s.head else update i

-- The new node is linked in at level `i`.
pub link : SkipList → ℕ → ℕ → Option ℕ → Result SkipList
link s i new_node before = do
  u ← from_option out_of_bounds before
  next ← forward_at s i u
  s₁ ← set_forward s i new_node next
  s₂ ← elim next [ none ↦ ok s₁ | some n ↦ set_backward s₁ i n (some new_node) ]
  s₃ ← set_forward s₂ i u (some new_node)
  set_backward s₃ i new_node (some u)

-- `radn_bits & (1 << i)`.
abbrev pub has_bit : ℕ → ℕ → Bool
has_bit bits i = bits / 2 ^ i % 2 == 1

-- The levels from `i` on, `n` of them left.
pub link_loop : Bool → ℕ → ℕ → (ℕ → Option ℕ) → ℕ → ℕ → SkipList → Result SkipList
link_loop grown bits new_node update zero i s = ok s
link_loop grown bits new_node update (suc n) i s =
    let linked = (do
      s' ← link s i new_node (update i)
      link_loop grown bits new_node update n (i + 1) s') in
    if i == 0 || (grown || has_bit bits i) then linked else ok s

abbrev pub is_version : SkipList → List ℕ → ℕ → Option ℕ → Bool
is_version s key tranc_id none = false
is_version s key tranc_id (some a) =
    eq_bytes (s.nodes a).key key && ((s.nodes a).tranc_id == tranc_id)

-- `put` where the version is there: its value is replaced.
pub put_value : SkipList → Option ℕ → List ℕ → ℕ → Result SkipList
put_value s none value tranc_id = err out_of_bounds
put_value s (some a) value tranc_id = ok (record s {
  size_bytes = (s.size_bytes + sub_size (length value) (length (s.nodes a).value)) % 2 ^ 64;
  nodes = at_put s.nodes a (record (s.nodes a) { value = value; tranc_id = tranc_id });
})

-- `put` where it is not: the new node is linked in.
pub put_node : SkipList → ℕ → ℕ → ℕ → (ℕ → Option ℕ) → Result SkipList
put_node s bits new_node new_level update = do
  let size_bytes =
      (s.size_bytes + (length (s.nodes new_node).key + length (s.nodes new_node).value + 8))
      % 2 ^ 64
  s' ←
      link_loop (ltb s.current_level new_level) bits new_node
        (fill_update s new_level s.current_level update) new_level 0
        (record s { size_bytes = size_bytes })
  ok (record s' { current_level = new_level })

pub put : (ℕ → Bool) → ℕ → SkipList → List ℕ → List ℕ → ℕ → Result SkipList
put coin bits s key value tranc_id = do
  let new_level = max (random_level coin s.max_level) s.current_level
  let new_node = s.fresh
  let s₁ = make_node s key value new_level tranc_id
  (before, update) ←
      descend s₁ (λ a. node_less (s₁.nodes a) (s₁.nodes new_node)) s.current_level s.head
        (λ i. none)
  current ← forward_at s₁ 0 before
  if is_version s₁ key tranc_id current
      then put_value s₁ current value tranc_id
      else put_node s₁ bits new_node new_level update

-- The nodes of one key: the first whose transaction is visible, on fuel.
pub get_visible : SkipList → List ℕ → ℕ → ℕ → Option ℕ → Result (Option ℕ)
get_visible s key tranc_id zero current = err stuck
get_visible s key tranc_id (suc fuel) none = ok none
get_visible s key tranc_id (suc fuel) (some a) =
    let next = (do n ← forward_at s 0 a; get_visible s key tranc_id fuel n) in
    if eq_bytes (s.nodes a).key key
    then (if leb (s.nodes a).tranc_id tranc_id then ok (some a) else next)
    else ok none

abbrev pub if_key : SkipList → List ℕ → Option ℕ → Option ℕ
if_key s key none = none
if_key s key (some a) = if eq_bytes (s.nodes a).key key then some a else none

pub get : SkipList → List ℕ → ℕ → Result (Option ℕ)
get s key tranc_id = do
  (before, update) ←
      descend s (λ a. lt_bytes (s.nodes a).key key) (s.nodes s.head).height s.head (λ i. none)
  current ← forward_at s 0 before
  if tranc_id == 0
      then ok (if_key s key current)
      else get_visible s key tranc_id (suc s.fresh) current

-- A key, a value and a transaction id.
abbrev pub Version : Type 0
Version = List ℕ × List ℕ × ℕ

abbrev pub version_at : SkipList → ℕ → Version
version_at s a = ((s.nodes a).key, (s.nodes a).value, (s.nodes a).tranc_id)

-- `while (node)`, on fuel.
pub flush_loop : SkipList → ℕ → Option ℕ → Result (List Version)
flush_loop s zero current = err stuck
flush_loop s (suc fuel) none = ok []
flush_loop s (suc fuel) (some a) = do
  next ← forward_at s 0 a
  rest ← flush_loop s fuel next
  ok (version_at s a ∷ rest)

pub flush : SkipList → Result (List Version)
flush s = do node ← forward_at s 0 s.head; flush_loop s (suc s.fresh) node

unfoldable pub get_size : SkipList → ℕ
get_size s = s.size_bytes
