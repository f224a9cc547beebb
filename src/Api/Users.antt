-- ===== src/Api/Users.antt =====
-- astroplant-api/src/models/user.rs and controllers/user/mod.rs: users, and the route that creates
-- them; Patching has the one that patches them. Unicode, the matching of `ILIKE` and the test of email addresses are parameters,
-- and so are the key derivation, the salt of a hash and the random text of a gravatar.
use astroplant_api.Prelude.{
  is_none, value_or, ltb, ℕ, ◌+◌, ◌≡◌, ◌≢◌, Text, codes, Bool, true, false, not, ◌&&◌, ◌||◌, Option,
  none, some, List, [], ◌∷◌, ◌++◌, map, ◌==◌, leb, length, all, All, ◌<◌, first, count,
  if◌then◌else◌, Result, ok, err, ◌>>=◌, ◌>>◌, ok_or, guard,
}
use astroplant_api.Prelude.Equality.{◌≟◌, nat_eq, list_eq}
use astroplant_api.Prelude.Keyed.{update_at}
use astroplant_api.Auth.Hash.{Crypto, hash_user_password}
use astroplant_api.Api.Problem.{
  AppResult, generic, not_found, forbidden, internal_server_error, InvalidParameters,
  InvalidParameterReason, must_be_email_address, must_have_length_between, already_exists, other,
  invalid_parameters, add, is_empty, singleton,
}
use astroplant_api.Api.Models.{User}
use astroplant_api.Api.Database.{Db, Tx}
use astroplant_api.Api.Authorization.{UserAction, edit_user_details, user_permitted}
use astroplant_api.Api.Helpers.{actor, permission_or_forbidden}
pub mod Patching
pub mod Accounts
pub mod Created
pub mod Sample
mod Examples

pub record Texts : Type 0 where
  pub to_lowercase : Text → Text
  pub is_alphanumeric : ℕ → Bool
  pub ilike : (value pattern : Text) → Bool
  pub is_email_address : Text → Bool

abbrev pub hyphen : ℕ
hyphen = 45

-- The characters that `ILIKE` gives a meaning: '%', '_' and '\'.
abbrev pub IsLiteral : ℕ → Type 0
IsLiteral c = (c ≢ 37) × (c ≢ 95) × (c ≢ 92)

abbrev pub IsAscii : Text → Type 0
IsAscii = All (λ c. c < 128)

abbrev pub ascii_lower : ℕ → ℕ
ascii_lower c = if leb 65 c && leb c 90 then c + 32 else c

-- Texts of ASCII characters: their capitals are made lower case, and a pattern without characters of a
-- meaning matches what is equal to it without regard to case. Characters of a meaning are not letters
-- or digits.
pub record IsTexts (t : Texts) : Type 0 where
  pub literal : (c : ℕ) → t.is_alphanumeric c ≡ true → IsLiteral c
  pub lower : (text : Text) → IsAscii text → t.to_lowercase text ≡ map ascii_lower text
  pub matches :
      (value pattern : Text)
      → IsAscii value
      → IsAscii pattern
      → All IsLiteral pattern
      → t.ilike value pattern ≡ (map ascii_lower value ≟ map ascii_lower pattern)

pub record NewUser : Type 0 where
  pub username : Text
  pub display_name : Text
  pub password_hash : Text
  pub email_address : Text
  pub use_email_address_for_gravatar : Bool
  pub gravatar_alternative : Text

pub record UpdateUser : Type 0 where
  pub id : ℕ
  pub display_name : Option Text
  pub email_address : Option Text
  pub password_hash : Option Text
  pub use_email_address_for_gravatar : Option Bool

pub record UserPatch : Type 0 where
  pub display_name : Option Text
  pub email_address : Option Text
  pub use_email_address_for_gravatar : Option Bool

-- The body of the route that creates a user, and what is random about it.
pub record UserBody : Type 0 where
  pub username : Text
  pub password : Text
  pub email_address : Text

abbrev pub starts_with : ℕ → Text → Bool
starts_with c [] = false
starts_with c (d ∷ s) = d == c

abbrev pub ends_with : ℕ → Text → Bool
ends_with c [] = false
ends_with c (d ∷ []) = d == c
ends_with c (d ∷ e ∷ s) = ends_with c (e ∷ s)

-- An attribute of a field: what it adds if its test fails.
abbrev pub reject_unless :
    Bool → Text → InvalidParameterReason → InvalidParameters → InvalidParameters
reject_unless test field reason ps = if test then ps else (field, reason) ∷ ps

-- The parameters of a new user that another user has.
unfoldable pub taken_parameters :
    (user_by_username user_by_email_address : Option User) → InvalidParameters
taken_parameters user_by_username user_by_email_address =
    reject_unless (is_none user_by_username) (codes "username") already_exists
      (reject_unless (is_none user_by_email_address) (codes "emailAddress") already_exists [])

abbrev pub answer_created : Option User × Db → Tx (Unit {0})
answer_created (none, db) = err (generic internal_server_error)
answer_created (some user, db) = ok (tt, db)

module _ (t : Texts) where
  -- User::by_username
  abbrev pub by_username : Db → Text → Option User
  by_username db username = first (λ u. t.ilike u.username username) db.users

  -- User::by_email_address
  abbrev pub by_email_address : Db → Text → Option User
  by_email_address db email_address = first (λ u. t.ilike u.email_address email_address) db.users

  -- NewUser::new
  abbrev pub new_user : (gravatar username password_hash email_address : Text) → NewUser
  new_user gravatar username password_hash email_address = record {
    username = t.to_lowercase username;
    display_name = username;
    password_hash = password_hash;
    email_address = t.to_lowercase email_address;
    use_email_address_for_gravatar = true;
    gravatar_alternative = gravatar;
  }

  abbrev pub validate_username : Text → Bool
  validate_username username = not (
      not (all (λ c. t.is_alphanumeric c || c == hyphen) username)
      || starts_with hyphen username
      || ends_with hyphen username)

  -- The derived `Validate` of `NewUser`, field after field
  unfoldable pub validate : NewUser → InvalidParameters
  validate user =
      reject_unless (leb 1 (length user.username)) (codes "username")
        (must_have_length_between (some 1) none)
        (reject_unless (validate_username user.username) (codes "username") other (
          reject_unless (leb 1 (length user.username) && leb (length user.username) 40)
            (codes "username") (must_have_length_between (some 1) (some 40))
            (reject_unless (leb 1 (length user.display_name) && leb (length user.display_name) 40)
              (codes "displayName") (must_have_length_between (some 1) (some 40))
              (reject_unless (leb (length user.email_address) 255) (codes "emailAddress")
                (must_have_length_between none (some 255))
                (reject_unless (t.is_email_address user.email_address) (codes "emailAddress")
                  must_be_email_address [])))))

  -- The row of a new user
  abbrev pub inserted : Db → (now : ℕ) → NewUser → User
  inserted db now user = record {
    id = db.next_user_id;
    username = user.username;
    display_name = user.display_name;
    password_hash = user.password_hash;
    email_address = user.email_address;
    use_email_address_for_gravatar = user.use_email_address_for_gravatar;
    gravatar_alternative = user.gravatar_alternative;
    created_at = now;
    updated_at = now;
  }

  -- NewUser::create: the unique indexes are on the username and on the email address. The sequence of
  -- the ids advances in any case.
  unfoldable pub create : Db → (now : ℕ) → NewUser → Option User × Db
  create db now user =
      let drawn = record db { next_user_id = db.next_user_id + 1 } in
      if count (λ u. u.username ≟ user.username || u.email_address ≟ user.email_address) db.users
        == 0
      then (
        some (inserted db now user),
        record drawn { users = db.users ++ inserted db now user ∷ [] },
      )
      else (none, drawn)

  -- create_user
  unfoldable pub create_user :
      Crypto → Db → (now : ℕ) → (salt : List ℕ) → (gravatar : Text) → UserBody → Tx (Unit {0})
  unfolding create validate taken_parameters
  create_user k db now salt gravatar user = do
    let user_by_username = by_username db user.username
    let user_by_email_address = by_email_address db user.email_address
    let hash = hash_user_password k salt user.password
    let new = new_user gravatar user.username hash user.email_address
    guard (is_empty (validate new)) (invalid_parameters (validate new))
    let taken = taken_parameters user_by_username user_by_email_address
    guard (is_empty taken) (invalid_parameters taken)
    answer_created (create db now new)
