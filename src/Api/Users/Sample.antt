-- ===== src/Api/Users/Sample.antt =====
-- Texts of which only ASCII letters have a case, and patterns without characters of a meaning.
use astroplant_api.Prelude.{ℕ, ◌≡◌, refl, codes, [], ok, Bool, true, ◌&&◌, ◌||◌, leb, map, arith}
use astroplant_api.Prelude.Equality.{◌≟◌, nat_eq, list_eq}
use astroplant_api.Api.Users.{Texts, IsTexts, IsLiteral, ascii_lower, UserBody, create_user}
use astroplant_api.Api.Problem.{is_empty}
use astroplant_api.Api.Database.{Db, after}
use astroplant_api.Api.Sample.{small}
use astroplant_api.Auth.Hash.Sample.{crypto, salt}

abbrev is_alphanumeric : ℕ → Bool
is_alphanumeric c = (leb 48 c && leb c 57) || (leb 65 c && leb c 90) || (leb 97 c && leb c 122)

is_alphanumeric-IsLiteral : (c : ℕ) → is_alphanumeric c ≡ true → IsLiteral c
is_alphanumeric-IsLiteral c h = ground (arith, h)

abbrev pub ascii : Texts
ascii = record {
  to_lowercase = map ascii_lower;
  is_alphanumeric = is_alphanumeric;
  ilike = λ value pattern. map ascii_lower value ≟ map ascii_lower pattern;
  is_email_address = λ address. true;
}

pub ascii-IsTexts : IsTexts ascii
ascii-IsTexts = record {
  literal = is_alphanumeric-IsLiteral;
  lower = λ text h. refl;
  matches = λ value pattern h k l. refl;
}

abbrev pub gardener : UserBody
gardener = record {
  username = codes "Ada-1";
  password = codes "secret";
  email_address = codes "ada@example.org";
}

abbrev pub joined : Db
joined = after small (create_user ascii crypto small 10 salt [] gardener)

pub joined_lem : create_user ascii crypto small 10 salt [] gardener ≡ ok (tt, joined)
unfolding create_user is_empty
joined_lem = refl
