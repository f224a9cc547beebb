-- ===== src/Api/Session.antt =====
-- astroplant-api/src/controllers/me/auth.rs and the extractor `UserId` of extract.rs: logging in,
-- refreshing a session, and the user that a request is from. The key derivation, the salt of the hash
-- that is computed for nobody, and the signing of tokens are parameters.
use astroplant_api.Prelude.{
  ℕ, ◌≡◌, Text, codes, Bool, true, false, Option, none, some, List, [], ◌==◌, first, if◌then◌else◌,
  Result, ok, err, map_err, ◌>>=◌, ok_or,
}
use astroplant_api.Prelude.Equality.{◌≟◌, nat_eq, list_eq}
use astroplant_api.Auth.Hash.{Crypto, check_user_password}
use astroplant_api.Auth.Token.{
  Error, expired, other, AuthenticationState, Jwt, create_refresh_token,
  access_token_from_refresh_token, decode_access_token,
}
use astroplant_api.Api.Problem.{
  AppResult, Problem, AccessTokenProblemCategory, missing, malformed, authorization_header,
  InvalidParameterReason, invalid_token, invalid_parameters, add, singleton,
}
use astroplant_api.Api.Models.{User}
use astroplant_api.Api.Database.{Db}
use astroplant_api.Api.Users.{Texts, by_username}
pub mod Login
mod Examples

pub record AuthenticationDetails : Type 0 where
  pub username : Text
  pub password : Text

pub record AuthenticationTokens (Token : Type 0) : Type 0 where
  pub refresh_token : Token
  pub access_token : Token

-- What the header of a request carries.
pub data Authorization (Token : Type 0) : Type 0 where
  no_header not_bearer : Authorization Token
  bearer : Token → Authorization Token

-- The panic of `unwrap`, or the answer.
pub data Panic : Type 0 where
  unwrap_of_error : Error → Panic

abbrev pub category : Error → AccessTokenProblemCategory
category expired = AccessTokenProblemCategory.expired
category other = malformed

-- The answer to a wrong name or password
abbrev pub invalid_credentials : Problem
invalid_credentials = invalid_parameters (
    add (add [] (codes "username") InvalidParameterReason.other) (codes "password")
      InvalidParameterReason.other)

module _ {Token Data : Type 0} (jwt : Jwt Token Data) where
  -- The extractor of `UserId`
  unfoldable pub from_request :
      (now : ℕ) → Authorization Token → Result AccessTokenProblemCategory ℕ
  from_request now no_header = err missing
  from_request now not_bearer = err malformed
  from_request now (bearer access_token) = do
    authentication_state ← map_err category (decode_access_token jwt now access_token)
    ok authentication_state.user_id

  -- access_token_from_refresh_token
  unfoldable pub refresh_session : (now : ℕ) → (refresh_token : Token) → AppResult Token
  refresh_session now refresh_token =
      map_err (λ e. singleton (invalid_token (category e)) (codes "refreshToken"))
        (access_token_from_refresh_token jwt now refresh_token)

  module _ (k : Crypto) (t : Texts) where
    abbrev pub tokens_of : (now : ℕ) → User → Result Panic (AuthenticationTokens Token)
    tokens_of now user = do
      let refresh_token = create_refresh_token jwt now (record { user_id = user.id })
      access_token ← map_err unwrap_of_error (access_token_from_refresh_token jwt now refresh_token)
      ok (record { refresh_token = refresh_token; access_token = access_token })

    -- The answer to the user that was found. Without one a hash is computed for nobody.
    unfoldable pub credentials_answer :
        (now : ℕ)
        → (password : Text) → Option User
        → Result Panic (AppResult (AuthenticationTokens Token))
    credentials_answer now password none = ok (err invalid_credentials)
    credentials_answer now password (some user) =
        let tokens = tokens_of now user in
        if check_user_password k password user.password_hash
        then (do issued ← tokens; ok (ok issued))
        else ok (err invalid_credentials)

    -- authenticate_by_credentials
    unfoldable pub authenticate_by_credentials :
        Db
        → (now : ℕ) → AuthenticationDetails
        → Result Panic (AppResult (AuthenticationTokens Token))
    unfolding credentials_answer
    authenticate_by_credentials db now details =
        credentials_answer now details.password (by_username t db details.username)
