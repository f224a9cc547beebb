-- ===== src/Auth/RandomString/Examples.antt =====
-- A generator that counts.
use astroplant_api.Prelude.{ℕ, ◌%◌, ◌≤◌, Text, codes, ◌≡◌, refl, length, All, ok, arith}
use astroplant_api.Auth.RandomString.{
  random_string_with_characters, draw, random_unambiguous_lowercase_characters,
}
use astroplant_api.Auth.RandomString.Drawn.{
  random_string_with_characters-All, random_string_with_characters-inj, alphabets-distinct,
}

abbrev counting : ℕ → ℕ
counting i = i % 24

drawn :
    random_string_with_characters counting 4 random_unambiguous_lowercase_characters
    ≡ ok (codes "3467")
unfolding random_string_with_characters draw
drawn = refl

-- No character of the lower case alphabet is beyond `y`.
random_string_with_characters-All_example :
    (s : Text) × (random_string_with_characters counting 4 random_unambiguous_lowercase_characters
      ≡ ok s)
    × (length s ≡ 4)
    × All (λ c. c ≤ 121) s
random_string_with_characters-All_example =
    random_string_with_characters-All counting (λ c. c ≤ 121) 4
      random_unambiguous_lowercase_characters (λ j. omega arith) (omega arith)

random_string_with_characters-inj_example : ◌≡◌ {A = ℕ} 3 3
random_string_with_characters-inj_example =
    random_string_with_characters-inj counting counting 4 random_unambiguous_lowercase_characters
      (codes "3467") alphabets-distinct.2 drawn drawn 3 (omega arith)
