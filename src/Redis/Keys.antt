-- ===== src/Redis/Keys.antt =====
-- The keys under which the commands (src/redis_wrapper/redis_wrapper.cpp) store their data, and the replies.
use lsm_tree_engine.Prelude.{
  ℕ, ◌-◌, if◌then◌else◌, [], ◌∷◌, ◌++◌, length, take, drop, replicate, Option, none, some, Ordering,
}
use lsm_tree_engine.Prelude.Order.{compare_bytes, eq_bytes}
use lsm_tree_engine.Redis.{Text, codes}
use lsm_tree_engine.Redis.Numbers.{to_string_ℕ}

-- include/const.h.
abbrev pub expire_header : Text
expire_header = codes "RESDIS_EXPIRE_HEADER_"

abbrev pub hash_header : Text
hash_header = codes "REDIS_HASH_HEADER_"

abbrev pub hash_value_prefix : Text
hash_value_prefix = codes "REDIS_HEAD_VALUE_PREFIX_"

abbrev pub sorted_set_prefix : Text
sorted_set_prefix = codes "REDIS_SORTED_SET_PREFIX_"

abbrev pub set_prefix : Text
set_prefix = codes "REDIS_SET_PREFIX_"

unfoldable pub get_expire_key : Text → Text
get_expire_key key = expire_header ++ (codes "_" ++ key)

unfoldable pub get_hash_filed_key : Text → Text → Text
get_hash_filed_key key filed = hash_header ++ (key ++ (codes "_" ++ filed))

unfoldable pub get_zset_key_preffix : Text → Text
get_zset_key_preffix key = sorted_set_prefix ++ (key ++ codes "_")

unfoldable pub get_set_key_preffix : Text → Text
get_set_key_preffix key = set_prefix ++ (key ++ codes "_")

unfoldable pub get_set_elem_key : Text → Text → Text
get_set_elem_key key elem = set_prefix ++ (key ++ (codes "_SCORE_" ++ elem))

unfoldable pub get_set_member_prefix : Text → Text
get_set_member_prefix key = set_prefix ++ (key ++ codes "_")

unfoldable pub get_zset_score_preffix : Text → Text
get_zset_score_preffix key = sorted_set_prefix ++ (key ++ codes "_SCORE_")

-- `std::setw(REDIS_SORTED_SET_SCORE_LEN) << std::setfill('0')`.
abbrev pub padded : Text → Text
padded score = replicate (32 - length score) b'0' ++ score

unfoldable pub get_zset_key_score : Text → Text → Text
get_zset_key_score key score = get_zset_score_preffix key ++ padded score

unfoldable pub get_zset_key_elem : Text → Text → Text
get_zset_key_elem key elem = get_zset_key_preffix key ++ elem

-- What stands behind the first occurrence of `pattern`.
unfoldable pub behind : Text → Text → Option Text
behind pattern [] = if eq_bytes pattern [] then some [] else none
behind pattern (c ∷ s) =
    let rest = behind pattern s in
    if eq_bytes (take (length pattern) (c ∷ s)) pattern
    then some (drop (length pattern) (c ∷ s))
    else rest

unfoldable pub get_zset_score_item : Text → Text
get_zset_score_item key = elim (behind (codes "_SCORE_") key) [ none ↦ [] | some item ↦ item ]

-- `-elem.compare(0, preffix.size(), preffix)`.
unfoldable pub has_preffix : Text → Text → Ordering
has_preffix preffix elem = compare_bytes preffix (take (length preffix) elem)

abbrev pub crlf : Text
crlf = 13 ∷ 10 ∷ []

-- The replies of the protocol.
unfoldable pub bulk : Text → Text
bulk value = codes "$" ++ (to_string_ℕ (length value) ++ (crlf ++ (value ++ crlf)))

unfoldable pub integer : Text → Text
integer number = codes ":" ++ (number ++ crlf)

unfoldable pub array_header : ℕ → Text
array_header n = codes "*" ++ (to_string_ℕ n ++ crlf)

abbrev pub ok_reply : Text
ok_reply = codes "+OK" ++ crlf

abbrev pub null_reply : Text
null_reply = codes "$-1" ++ crlf
