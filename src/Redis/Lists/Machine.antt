-- ===== src/Redis/Lists/Machine.antt =====
-- The lists of texts that the commands on lists (src/redis_wrapper/redis_wrapper.cpp) stand for, and how they are
-- stored.
use lsm_tree_engine.Redis.{is_empty_text, Text}
use lsm_tree_engine.Prelude.{
  ◌≡◌, refl, ap, ◌∙◌, false, List, [], ◌∷◌, ◌++◌, length, append-nil, append_assoc, All, Option,
  none, some,
}
use lsm_tree_engine.Redis.Lists.{without_last}
use mathlib.Core.List.{reverse, reverse-append, reverse-reverse}
use lsm_tree_engine.Redis.Numbers.{to_string_ℕ}
use lsm_tree_engine.Redis.Keys.{bulk, integer, null_reply}
use lsm_tree_engine.Redis.Texts.{split, join, joined_rest, list_separator}
use lsm_tree_engine.Redis.Texts.RoundTrip.{Lacks, EndsWell, split-join}

-- A text that can stand in a list.
abbrev pub Element : Text → Type 0
Element e = Lacks list_separator e × (is_empty_text e ≡ false)

-- What is stored for a list.
abbrev pub stored : List Text → Option Text
stored [] = none
stored (e ∷ elements) = some (join (e ∷ elements) list_separator)

pub data ListCommand : Type 0 where
  push_front push_back : Text → ListCommand
  pop_first pop_last size : ListCommand

abbrev pub IsElement : ListCommand → Type 0
IsElement (ListCommand.push_front v) = Element v
IsElement (ListCommand.push_back v) = Element v
IsElement c = Unit {0}

abbrev pub count : List Text → Text
count elements = integer (to_string_ℕ (length elements))

abbrev pub first_reply : List Text → Text × List Text
first_reply [] = (null_reply, [])
first_reply (e ∷ elements) = (bulk e, elements)

abbrev pub last_reply : List Text → Text × List Text
last_reply [] = (null_reply, [])
last_reply (e ∷ elements) = (bulk e, reverse elements)

-- What a command replies on a list, and the list that it leaves.
unfoldable pub apply : ListCommand → List Text → Text × List Text
apply (ListCommand.push_front v) xs = (count (v ∷ xs), v ∷ xs)
apply (ListCommand.push_back v) xs = (count (xs ++ (v ∷ [])), xs ++ (v ∷ []))
apply ListCommand.pop_first xs = first_reply xs
apply ListCommand.pop_last xs = last_reply (reverse xs)
apply ListCommand.size xs = (count xs, xs)

pub ends : (e : Text) (elements : List Text) → All Element (e ∷ elements) → EndsWell e elements
ends e [] ((_, full), _) = full
ends e (e' ∷ elements) (_, rest) = ends e' elements rest

pub lack : (elements : List Text) → All Element elements → All (Lacks list_separator) elements
lack [] _ = tt
lack (e ∷ elements) ((lacks, _), rest) = (lacks, lack elements rest)

pub split-stored :
    (e : Text) (elements : List Text)
    → All Element (e ∷ elements)
    → split (join (e ∷ elements) list_separator) list_separator ≡ e ∷ elements
split-stored e elements all =
    split-join list_separator e elements (lack (e ∷ elements) all) (ends e elements all)

pub full-append : (e rest : Text) → is_empty_text e ≡ false → is_empty_text (e ++ rest) ≡ false
full-append [] rest full = cc
full-append (c ∷ e) rest full = refl

joined_rest-append :
    (elements : List Text) (v : Text)
    → joined_rest elements list_separator ++ (list_separator ∷ v)
      ≡ joined_rest (elements ++ (v ∷ [])) list_separator
unfolding joined_rest
joined_rest-append [] v = rw append-nil
joined_rest-append (e ∷ elements) v = ap (◌∷◌ list_separator) (
    append_assoc e (joined_rest elements list_separator) (list_separator ∷ v)
    ∙ ap (◌++◌ e) (joined_rest-append elements v))

without_last-snoc :
    (e : Text) (elements : List Text)
    → e ∷ elements ≡ (without_last e elements).0 ++ ((without_last e elements).1 ∷ [])
without_last-snoc e [] = refl
without_last-snoc e (e' ∷ elements) = ap (◌∷◌ e) (without_last-snoc e' elements)

pub full-join :
    (e : Text) (elements : List Text)
    → is_empty_text e ≡ false
    → is_empty_text (join (e ∷ elements) list_separator) ≡ false
unfolding join
full-join e elements = full-append e (joined_rest elements list_separator)

pub join-append :
    (e : Text) (elements : List Text) (v : Text)
    → join (e ∷ elements) list_separator ++ (list_separator ∷ v)
      ≡ join (e ∷ elements ++ (v ∷ [])) list_separator
unfolding join
join-append e elements v =
    append_assoc e (joined_rest elements list_separator) (list_separator ∷ v)
    ∙ ap (◌++◌ e) (joined_rest-append elements v)

reverse-without_last :
    (e : Text) (elements : List Text)
    → reverse (e ∷ elements) ≡ (without_last e elements).1 ∷ reverse (without_last e elements).0
reverse-without_last e elements =
    ap reverse (without_last-snoc e elements)
    ∙ reverse-append (without_last e elements).0 ((without_last e elements).1 ∷ [])

-- Taking the last element off a reversed list.
pub reverse-rest :
    (e : Text) (elements : List Text)
    → last_reply (reverse (e ∷ elements))
      ≡ (bulk (without_last e elements).1, (without_last e elements).0)
reverse-rest e elements =
    ap last_reply (reverse-without_last e elements)
    ∙ ap (λ (xs : List Text). (bulk (without_last e elements).1, xs))
        (reverse-reverse (without_last e elements).0)

pub without_last-Element :
    (e : Text) (elements : List Text)
    → All Element (e ∷ elements)
    → All Element (without_last e elements).0
without_last-Element e [] all = tt
without_last-Element e (e' ∷ elements) (first, rest) =
    (first, without_last-Element e' elements rest)
