-- ===== src/Auth/RandomString.antt =====
-- random-string/src/lib.rs. The generator of random numbers is a parameter: `sample i` is the number
-- that it draws for the character at `i`. A panic is an error.
use astroplant_api.Prelude.{
  ℕ, zero, suc, ◌+◌, Text, codes, List, [], ◌∷◌, ◌++◌, Option, none, some, get_elem?, Result, ok,
  err, ok_or, ◌>>=◌,
}
pub mod Drawn
mod Examples

pub data Panic : Type 0 where
  index_out_of_bounds empty_range : Panic

-- RANDOM_CHARACTERS
abbrev pub random_characters : List ℕ
random_characters = codes "0123456789abcdefghijklmnopqrstuvwxyzABCDEFGHIJKLMNOPQRSTUVWXYZ"

-- RANDOM_UNAMBIGUOUS_CHARACTERS
abbrev pub random_unambiguous_characters : List ℕ
random_unambiguous_characters = codes "346789bcdfghjkmnpqrtvwxyBCDFGHJKMNPQRTVWXY!@#$%&"

-- RANDOM_UNAMBIGUOUS_LOWERCASE_CHARACTERS
abbrev pub random_unambiguous_lowercase_characters : List ℕ
random_unambiguous_lowercase_characters = codes "346789bcdfghjkmnpqrtvwxy"

module _ (sample : ℕ → ℕ) where
  -- The rounds that are left of the loop, from the one at `i`.
  unfoldable pub draw : (rounds i : ℕ) → List ℕ → Result Panic Text
  draw zero i characters = ok []
  draw (suc n) i characters = do
    c ← ok_or (get_elem? characters (sample i)) index_out_of_bounds
    rest ← draw n (i + 1) characters
    ok (c ∷ rest)

  -- random_string_with_characters: the range of the distribution must not be empty.
  unfoldable pub random_string_with_characters : (length : ℕ) → List ℕ → Result Panic Text
  unfolding draw
  random_string_with_characters length [] = err empty_range
  random_string_with_characters length (c ∷ cs) = draw length 0 (c ∷ cs)

  abbrev pub string : ℕ → Result Panic Text
  string length = random_string_with_characters length random_characters

  abbrev pub unambiguous_string : ℕ → Result Panic Text
  unambiguous_string length = random_string_with_characters length random_unambiguous_characters

  abbrev pub unambiguous_lowercase_string : ℕ → Result Panic Text
  unambiguous_lowercase_string length =
      random_string_with_characters length random_unambiguous_lowercase_characters

  abbrev pub password : Result Panic Text
  password = unambiguous_string 24
