-- ===== src/Redis/Faults.antt =====
-- Where the commands (src/redis_wrapper/redis_wrapper.cpp) throw: the time to live of a key is read with `value()`.
use lsm_tree_engine.Prelude.{
  ltb, length, false, le→ltb, arith, ℕ, ◌≡◌, refl, List, [], ◌∷◌, All, Option, none, Result, ok,
  err,
}
use lsm_tree_engine.Prelude.Results.{bad_optional_access}
use lsm_tree_engine.Prelude.Int.{ℤ}
use lsm_tree_engine.Redis.{Text, KeyValue, Command}
use lsm_tree_engine.Redis.Numbers.{stoi}
use lsm_tree_engine.Redis.Keys.{get_expire_key}
use lsm_tree_engine.Redis.Hashes.{expire_hash_clean, hset, hget, hdel, hkeys}
use lsm_tree_engine.Redis.SortedSets.{
  expire_zset_clean, zadd, zrem, zrange, zscore, zincrby, zcard, zrank,
}
use lsm_tree_engine.Redis.Sets.{expire_set_clean, sadd, srem, sismember, scard, smembers}
use lsm_tree_engine.Redis.Lists.{expire_list_clean, lpush, rpush, lpop, rpop, llen, lrange}

module _ (K : KeyValue) (now : ℕ) where
  -- The commands on hashes, sorted sets, sets and lists.
  abbrev pub container_commands :
      (Option ℤ → Text → Result ℕ) → List (List Text → Command K.Store Text)
  container_commands add_score =
      hset K now
      ∷ hget K now
      ∷ hdel K now
      ∷ hkeys K now
      ∷ zadd K now
      ∷ zrem K now
      ∷ zrange K now
      ∷ zscore K now
      ∷ zincrby K now add_score
      ∷ zcard K now
      ∷ zrank K now
      ∷ sadd K now
      ∷ srem K now
      ∷ sismember K now
      ∷ scard K now
      ∷ smembers K now
      ∷ lpush K now
      ∷ rpush K now
      ∷ lpop K now
      ∷ rpop K now
      ∷ llen K now
      ∷ lrange K now
      ∷ []

  -- The first step of each of them.
  clean_throws :
      (s : K.Store) (key : Text)
      → K.get s (get_expire_key key) ≡ none
      → (expire_hash_clean K now key s ≡ (err bad_optional_access, s))
        × (expire_zset_clean K now key s ≡ (err bad_optional_access, s))
        × (expire_set_clean K now key s ≡ (err bad_optional_access, s))
        × (expire_list_clean K now key s ≡ (err bad_optional_access, s))
  unfolding expire_hash_clean expire_zset_clean expire_set_clean expire_list_clean
  clean_throws s key missing = (rw missing refl, rw missing refl, rw missing refl, rw missing refl)

  -- On a key with no time to live, each command on a hash, a sorted set, a set or a list throws and changes nothing,
  -- those that add elements too: when it has at least three arguments behind its name, the second and the third of
  -- which are numbers.
  pub container_commands_throw :
      (add_score : Option ℤ → Text → Result ℕ) (s : K.Store) (name key a b : Text)
      (rest : List Text) (i j : ℤ)
      → stoi a ≡ ok i
      → stoi b ≡ ok j
      → K.get s (get_expire_key key) ≡ none
      → All
          (λ command. command (name ∷ key ∷ a ∷ b ∷ rest) s ≡ (err bad_optional_access, s))
          (container_commands add_score)
  unfolding hset hget hdel hkeys zadd zrem zrange zscore zincrby zcard zrank sadd srem sismember
      scard smembers lpush rpush lpop rpop llen lrange
  container_commands_throw add_score s name key a b rest i j first second missing =
      let (hash, zset, set, list) = clean_throws s key missing in
      let long : ltb (length (name ∷ key ∷ a ∷ b ∷ rest)) 3 ≡ false = le→ltb _ _ (omega arith) in
      (
        rw hash refl,
        (
          rw hash refl,
          (
            rw hash refl,
            (
              rw hash refl,
              (
                rw zset refl,
                (
                  rw (long, zset) refl,
                  (
                    rw (first, second, zset) refl,
                    (
                      rw zset refl,
                      (
                        rw zset refl,
                        (
                          rw zset refl,
                          (
                            rw zset refl,
                            (
                              rw set refl,
                              (
                                rw set refl,
                                (
                                  rw set refl,
                                  (
                                    rw set refl,
                                    (
                                      rw set refl,
                                      (
                                        rw list refl,
                                        (
                                          rw list refl,
                                          (
                                            rw list refl,
                                            (
                                              rw list refl,
                                              (rw list refl, (rw (first, second, list) refl, tt)),
                                            ),
                                          ),
                                        ),
                                      ),
                                    ),
                                  ),
                                ),
                              ),
                            ),
                          ),
                        ),
                      ),
                    ),
                  ),
                ),
              ),
            ),
          ),
        ),
      )
