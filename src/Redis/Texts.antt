-- ===== src/Redis/Texts.antt =====
-- `split` and `join`, and the list of fields of a hash (src/redis_wrapper/redis_wrapper.cpp).
pub mod RoundTrip
use lsm_tree_engine.Redis.{is_empty_text, Text}
use lsm_tree_engine.Prelude.{
  index_out_of_range, ℕ, ◌==◌, if◌then◌else◌, Bool, true, false, List, [], ◌∷◌, ◌++◌, length, drop,
  ◌||◌, Result, ok, err, ltb,
}
use lsm_tree_engine.Prelude.Order.{eq_bytes}
use lsm_tree_engine.Redis.Keys.{hash_value_prefix}

-- `while (std::getline(iss, token, delimiter)) tokens.push_back(token)`, with the token read so far: no token is read
-- where nothing is left behind a delimiter.
unfoldable pub getlines : ℕ → Text → Text → List Text
getlines delimiter [] [] = []
getlines delimiter [] (t ∷ token) = (t ∷ token) ∷ []
getlines delimiter (c ∷ s) token = elim (c == delimiter) [
  | true ↦ token ∷ getlines delimiter s []
  | false ↦ getlines delimiter s (token ++ (c ∷ []))
]

unfoldable pub split : Text → ℕ → List Text
split str delimiter = getlines delimiter str []

-- The elements from the second one on, each behind a delimiter.
unfoldable pub joined_rest : List Text → ℕ → Text
joined_rest [] delimiter = []
joined_rest (e ∷ elements) delimiter = delimiter ∷ (e ++ joined_rest elements delimiter)

unfoldable pub join : List Text → ℕ → Text
join [] delimiter = []
join (e ∷ elements) delimiter = e ++ joined_rest elements delimiter

abbrev pub filed_separator : ℕ
filed_separator = b'$'

abbrev pub list_separator : ℕ
list_separator = b'#'

-- `substr` throws where the value is shorter than the prefix.
unfoldable pub get_fileds_from_hash_value : Text → Result (List Text)
get_fileds_from_hash_value field_list =
    if is_empty_text field_list
    then ok []
    else if ltb (length field_list) (length hash_value_prefix)
    then err index_out_of_range
    else ok (split (drop (length hash_value_prefix) field_list) filed_separator)

unfoldable pub get_hash_value_from_fields : List Text → Text
get_hash_value_from_fields fields = hash_value_prefix ++ join fields filed_separator

-- `std::find(…) != end()`.
unfoldable pub contains : List Text → Text → Bool
contains [] field = false
contains (f ∷ fields) field = eq_bytes f field || contains fields field

-- The list without the first element equal to `field`.
unfoldable pub erase : List Text → Text → List Text
erase [] field = []
erase (f ∷ fields) field =
    let rest = erase fields field in if eq_bytes f field then fields else f ∷ rest
