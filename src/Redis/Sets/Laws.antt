-- ===== src/Redis/Sets/Laws.antt =====
-- `sadd`, `srem`, `sismember` and `scard` with one element (src/redis_wrapper/redis_wrapper.cpp).
use lsm_tree_engine.Prelude.{
  suc, ◌≢◌, Bool, Bool-cases, inl, inr, sym, true, if◌then◌else◌, length, ℕ, ◌+◌, ◌^◌, ◌<◌, ◌≡◌,
  refl, ap, ◌∙◌, lt→ltb, List, [], ◌∷◌, ◌++◌, none, some, ok, arith,
}
use lsm_tree_engine.Prelude.Int.{
  negsuc, add_negsuc, as_int, negate, fits_bits, ◌+ℤ◌, ℤ, pos, add_pos,
}
use lsm_tree_engine.Prelude.Order.{eq_bytes, eq_bytes_iff}
use lsm_tree_engine.Redis.Laws.{
  key-ne-get_expire_key, key-ne-get_set_elem_key, get_set_elem_key-injective,
  get_expire_key-ne-get_set_elem_key, IsMap, Alive,
}
use lsm_tree_engine.Redis.Numbers.RoundTrip.{is_empty_text-to_string, sto-to_string}
use lsm_tree_engine.Redis.{Text, KeyValue, codes}
use lsm_tree_engine.Redis.Numbers.{to_string, to_string_ℕ, stoi}
use lsm_tree_engine.Redis.Keys.{get_expire_key, get_set_elem_key, integer}
use lsm_tree_engine.Redis.Commands.{has_value}
use lsm_tree_engine.Redis.Sets.{
  size_after, srem, srem_loop, sadd, sadd_loop, expire_set_clean, sismember, scard,
}

read_size : (n : ℕ) → n < 2 ^ 31 → stoi (to_string (pos n)) ≡ ok (pos n)
read_size n fits = (sto-to_string (pos n)).1 (lt→ltb n (2 ^ 31) fits)

module _ (K : KeyValue) (now : ℕ) (name key : Text) where
  -- The replies of a key that has a time to live that has not passed.
  pub sismember_lem :
      (s : K.Store) (elem : Text)
      → Alive K now key s
      → sismember K now (name ∷ key ∷ elem ∷ []) s ≡ (
        ok (
            integer
              (if has_value (K.get s (get_set_elem_key key elem)) then codes "1" else codes "0")),
        s,
      )
  unfolding sismember expire_set_clean
  sismember_lem s elem (time, at, fresh) = rw (at, fresh) refl

  scard_lem :
      (s : K.Store) (size : Text)
      → Alive K now key s
      → K.get s key ≡ some size
      → scard K now (name ∷ key ∷ []) s ≡ (ok (integer size), s)
  unfolding scard expire_set_clean
  scard_lem s size (time, at, fresh) holds = rw (at, fresh, holds) refl

module _ (K : KeyValue) (now : ℕ) (name key : Text) (s : K.Store) (alive : Alive K now key s) where
  sadd_lem :
      (elems : List Text) (put_kvs : List (Text × Text)) (size : ℤ)
      → sadd_loop K now key elems s ≡ (ok put_kvs, s)
      → size_after K now (K.get s key) (as_int (pos (length put_kvs))) ≡ ok size
      → sadd K now (name ∷ key ∷ elems) s ≡ (
        ok (integer (to_string_ℕ (length put_kvs))),
        K.put_batch s (put_kvs ++ ((key, to_string size) ∷ [])),
      )
  unfolding sadd expire_set_clean
  sadd_lem elems put_kvs size gathered grown =
      let (time, at, fresh) = alive in rw (at, fresh, gathered, grown) refl

  srem_lem :
      (elems : List Text) (del_keys : List Text) (size : ℤ)
      → srem_loop K now key elems s ≡ (ok del_keys, s)
      → size_after K now (K.get s key) (as_int (negate (length del_keys))) ≡ ok size
      → srem K now (name ∷ key ∷ elems) s ≡ (
        ok (integer (to_string_ℕ (length del_keys))),
        K.remove_batch (K.put s key (to_string size)) del_keys,
      )
  unfolding srem expire_set_clean
  srem_lem elems del_keys size gathered grown =
      let (time, at, fresh) = alive in rw (at, fresh, gathered, grown) refl

  size_lem :
      (n : ℕ) (z r : ℤ)
      → n < 2 ^ 31
      → K.get s key ≡ some (to_string (pos n))
      → z +ℤ pos n ≡ r
      → fits_bits 31 r ≡ true
      → size_after K now (K.get s key) z ≡ ok r
  size_lem n z r small sized sum fits = rw (sized, size_after, read_size n small, sum, fits) refl

module _ (K : KeyValue) (laws : IsMap K) (now : ℕ) (name key elem : Text) (s : K.Store) (n : ℕ)
    (small : n + 1 < 2 ^ 31) (alive : Alive K now key s)
    (sized : K.get s key ≡ some (to_string (pos n))) where
  pub sadd_member :
      (v : Text)
      → K.get s (get_set_elem_key key elem) ≡ some v
      → sadd K now (name ∷ key ∷ elem ∷ []) s
        ≡ (ok (integer (to_string_ℕ 0)), K.put_batch s ((key, to_string (pos n)) ∷ []))
  unfolding sadd_loop
  sadd_member v member = sadd_lem K now name key s alive (elem ∷ []) [] (pos n) (rw member refl) (
      size_lem K now name key s alive n (pos 0) (pos n) (omega arith) sized
        (add_pos 0 n ∙ ap pos (omega arith)) (lt→ltb n (2 ^ 31) (omega arith)))

  pub sadd_new :
      K.get s (get_set_elem_key key elem) ≡ none
      → sadd K now (name ∷ key ∷ elem ∷ []) s ≡ (
        ok (integer (to_string_ℕ 1)),
        K.put_batch s
            ((get_set_elem_key key elem, codes "1") ∷ (key, to_string (pos (1 + n))) ∷ []),
      )
  unfolding sadd_loop
  sadd_new new =
      sadd_lem K now name key s alive (elem ∷ []) ((get_set_elem_key key elem, codes "1") ∷ [])
        (pos (1 + n)) (rw new refl)
        (size_lem K now name key s alive n (pos 1) (pos (1 + n)) (omega arith) sized (add_pos 1 n)
          (lt→ltb (1 + n) (2 ^ 31) (omega arith)))

  pub srem_member :
      (v : Text)
      → K.get s (get_set_elem_key key elem) ≡ some v
      → srem K now (name ∷ key ∷ elem ∷ []) s
        ≡ (ok (integer (to_string_ℕ 0)), K.remove_batch (K.put s key (to_string (pos n))) [])
  unfolding srem_loop
  srem_member v member = srem_lem K now name key s alive (elem ∷ []) [] (pos n) (rw member refl) (
      size_lem K now name key s alive n (pos 0) (pos n) (omega arith) sized
        (add_pos 0 n ∙ ap pos (omega arith)) (lt→ltb n (2 ^ 31) (omega arith)))

  pub srem_new :
      (m : ℕ)
      → n ≡ suc m
      → K.get s (get_set_elem_key key elem) ≡ none
      → srem K now (name ∷ key ∷ elem ∷ []) s ≡ (
        ok (integer (to_string_ℕ 1)),
        K.remove_batch (K.put s key (to_string (pos m))) (get_set_elem_key key elem ∷ []),
      )
  unfolding srem_loop
  srem_new m more new =
      srem_lem K now name key s alive (elem ∷ []) (get_set_elem_key key elem ∷ []) (pos m)
        (rw new refl)
        (size_lem K now name key s alive n (negsuc 0) (pos m) (omega arith) sized
          (ap (λ k. negsuc 0 +ℤ pos k) more ∙ add_negsuc m) (lt→ltb m (2 ^ 31) (omega arith)))

-- A store in which a key has a size and its elements, seen from another one.
module _ (K : KeyValue) (laws : IsMap K) (now : ℕ) (name key : Text) (s s' : K.Store)
    (size : Text) where
  pub observe :
      (elem : Text) (there : Bool)
      → Alive K now key s
      → K.get s' (get_expire_key key) ≡ K.get s (get_expire_key key)
      → K.get s' key ≡ some size
      → has_value (K.get s' (get_set_elem_key key elem)) ≡ there
      → ((sismember K now (name ∷ key ∷ elem ∷ []) s').0
          ≡ ok (integer (if there then codes "1" else codes "0")))
        × ((scard K now (name ∷ key ∷ []) s').0 ≡ ok (integer size))
  observe elem there (time, at, fresh) kept sized member =
      let alive' : Alive K now key s' = (time, kept ∙ at, fresh) in
      (
        rw (sismember_lem K now name key s' elem alive', member) refl,
        rw (scard_lem K now name key s' size alive' sized) refl,
      )

module _ (K : KeyValue) (laws : IsMap K) (key : Text) where
  pub expire-other : (elem : Text) → get_set_elem_key key elem ≢ get_expire_key key
  expire-other elem same = get_expire_key-ne-get_set_elem_key key elem (sym same)

  pub key-other : (elem : Text) → get_set_elem_key key elem ≢ key
  key-other elem same = key-ne-get_set_elem_key key elem (sym same)

  -- The size is stored: the time to live and the elements stay.
  pub put_size :
      (s : K.Store) (size : ℤ) (elem : Text)
      → (K.get (K.put s key (to_string size)) key ≡ some (to_string size))
        × (K.get (K.put s key (to_string size)) (get_expire_key key) ≡ K.get s (get_expire_key key))
        × (K.get (K.put s key (to_string size)) (get_set_elem_key key elem)
            ≡ K.get s (get_set_elem_key key elem))
  put_size s size elem = (
    laws.get_put s key _ (is_empty_text-to_string size),
    laws.get_put_other s key _ _ (key-ne-get_expire_key key),
    laws.get_put_other s key _ _ (key-ne-get_set_elem_key key elem),
  )

  pub put_member :
      (s : K.Store) (elem elem' : Text)
      → has_value
          (K.get (K.put s (get_set_elem_key key elem) (codes "1")) (get_set_elem_key key elem'))
        ≡ (if eq_bytes elem elem' then true else has_value (K.get s (get_set_elem_key key elem')))
  put_member s elem elem' = elim (Bool-cases (eq_bytes elem elem')) [
    | inl same ↦
        rw
          (
            same,
            ← ((eq_bytes_iff elem elem').0 same),
            laws.get_put s (get_set_elem_key key elem) (codes "1") refl,
          )
          refl
    | inr differ ↦
        rw
          (
            differ,
            laws.get_put_other s (get_set_elem_key key elem) (get_set_elem_key key elem')
                (codes "1")
                (λ same. cc (
                  (eq_bytes_iff elem elem').1 (get_set_elem_key-injective key elem elem' same),
                  differ,
                )),
          )
          refl
  ]
