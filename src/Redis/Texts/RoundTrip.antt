-- ===== src/Redis/Texts/RoundTrip.antt =====
-- `split` behind `join` (src/redis_wrapper/redis_wrapper.cpp).
use lsm_tree_engine.Redis.{is_empty_text, Text}
use lsm_tree_engine.Prelude.{
  ℕ, ◌≡◌, refl, ap, ◌∙◌, true, false, List, [], ◌∷◌, ◌++◌, All, append-nil, append_assoc, ◌==◌,
  arith,
}
use lsm_tree_engine.Redis.Texts.{getlines, split, joined_rest, join}

-- A text in which a byte does not occur.
abbrev pub Lacks : ℕ → Text → Type 0
Lacks delimiter s = All (λ c. (c == delimiter) ≡ false) s

-- The last element is not empty.
abbrev pub EndsWell : Text → List Text → Type 0
EndsWell e [] = is_empty_text e ≡ false
EndsWell e (e' ∷ elements) = EndsWell e' elements

getlines-append :
    (delimiter : ℕ) (e rest token : Text)
    → Lacks delimiter e
    → getlines delimiter (e ++ rest) token ≡ getlines delimiter rest (token ++ e)
unfolding getlines
getlines-append delimiter [] rest token lacks = rw append-nil
getlines-append delimiter (c ∷ e) rest token (differs, lacks) =
    rw (differs, getlines)
      (getlines-append delimiter e rest (token ++ (c ∷ [])) lacks
        ∙ ap (getlines delimiter rest) (append_assoc token (c ∷ []) e))

same : (delimiter : ℕ) → (delimiter == delimiter) ≡ true
same delimiter = ground arith

getlines-joined_rest :
    (delimiter : ℕ) (token : Text) (elements : List Text)
    → All (Lacks delimiter) elements
    → EndsWell token elements
    → getlines delimiter (joined_rest elements delimiter) token ≡ token ∷ elements
unfolding getlines joined_rest
getlines-joined_rest delimiter [] [] lacks ends = cc
getlines-joined_rest delimiter (t ∷ token) [] lacks ends = refl
getlines-joined_rest delimiter token (e ∷ elements) (lacks, all_lack) ends =
    rw (same delimiter, getlines)
      (ap (◌∷◌ token) (
        getlines-append delimiter e (joined_rest elements delimiter) [] lacks
        ∙ getlines-joined_rest delimiter e elements all_lack ends))

-- Splitting gives back the elements that were joined: when none of them has the delimiter in it and the last one is
-- not empty.
pub split-join :
    (delimiter : ℕ) (e : Text) (elements : List Text)
    → All (Lacks delimiter) (e ∷ elements)
    → EndsWell e elements
    → split (join (e ∷ elements) delimiter) delimiter ≡ e ∷ elements
unfolding split join
split-join delimiter e elements (lacks, all_lack) ends =
    getlines-append delimiter e (joined_rest elements delimiter) [] lacks
    ∙ getlines-joined_rest delimiter e elements all_lack ends
