-- ===== src/Api/Session/Login.antt =====
-- From the creation of a user, over a login, to the user of a request.
use astroplant_api.Prelude.{
  ℕ, ◌+◌, ◌≡◌, refl, ◌∙◌, ap, Text, false, List, length, if◌then◌else◌, ltb, ok, err, Bool-cases,
  inl, inr, arith,
}
use astroplant_api.Prelude.Equality.{◌≟◌, nat_eq, list_eq}
use astroplant_api.Auth.Hash.{Crypto, IsCrypto, iterations, hash_user_password}
use astroplant_api.Auth.Hash.Checks.{check_user_password-hash_user_password}
use astroplant_api.Auth.Token.{
  refresh, access, Jwt, IsJwt, create_token, create_refresh_token, access_token_from_refresh_token,
  decode_access_token,
}
use astroplant_api.Auth.Token.Kinds.{decode_token-create_token}
use astroplant_api.Api.Problem.{AccessTokenProblemCategory}
use astroplant_api.Api.Models.{User}
use astroplant_api.Api.Database.{Db}
use astroplant_api.Api.Users.{Texts, IsTexts, IsAscii, UserBody, new_user, inserted, create_user}
use astroplant_api.Api.Users.Created.{by_username-create_user}
use astroplant_api.Api.Session.{
  AuthenticationTokens, bearer, invalid_credentials, from_request, tokens_of, credentials_answer,
  authenticate_by_credentials,
}

early : (n : ℕ) → ltb (n + 31536000 + 60) n ≡ false
early n = ground arith

module _ {Token Data : Type 0} (jwt : Jwt Token Data) (jwt_law : IsJwt jwt) where
  -- The tokens that a login issues.
  issued_tokens : (now : ℕ) → User → AuthenticationTokens Token
  issued_tokens now user = record {
    refresh_token = create_refresh_token jwt now (record { user_id = user.id });
    access_token = create_token jwt now 900 access (record { user_id = user.id });
  }

  -- A refresh token that was just issued is not expired, so the login does not panic.
  tokens_of-eq-ok :
      (k : Crypto) (t : Texts) (now : ℕ) (user : User)
      → tokens_of jwt k t now user ≡ ok (issued_tokens now user)
  unfolding issued_tokens create_refresh_token access_token_from_refresh_token
  tokens_of-eq-ok k t now user =
      rw
        (decode_token-create_token jwt jwt_law now now 31536000 refresh
          (record { user_id = user.id }))
        (rw (early now) refl)

  -- The access token of a login names the user in every request of the next quarter of an hour, with
  -- a minute for clocks that differ, and is expired in later requests.
  from_request-issued_tokens :
      (now later : ℕ) (user : User)
      → from_request jwt later (bearer (issued_tokens now user).access_token) ≡ (
          if ltb (now + 900 + 60) later then err AccessTokenProblemCategory.expired else ok user.id)
  unfolding issued_tokens from_request decode_access_token
  from_request-issued_tokens now later user =
      rw (decode_token-create_token jwt jwt_law later now 900 access (record { user_id = user.id }))
        (elim (Bool-cases (ltb (now + 900 + 60) later)) [
          | inl late ↦ rw late refl
          | inr in_time ↦ rw in_time refl
        ])

  module _ (k : Crypto) (k_law : IsCrypto k) (t : Texts) (t_law : IsTexts t) where
    -- After a user was created, a login with the name that was asked for issues tokens exactly if
    -- the given password has the derived key of the one of the creation, so with that password
    -- itself. The access token then names the created user in every request of the next quarter of
    -- an hour, with a minute for clocks that differ, and is expired afterwards. Otherwise the
    -- answer says that name and password are invalid. The name is one of ASCII characters, the salt
    -- has 16 bytes, and the libraries for texts, key derivation and tokens do what their
    -- documentation says.
    pub authenticate_by_credentials-create_user :
        (db : Db) (created_at : ℕ) (salt : List ℕ) (gravatar : Text) (user : UserBody)
        (u : Unit {0}) (db' : Db)
        → create_user t k db created_at salt gravatar user ≡ ok (u, db')
        → IsAscii user.username
        → length salt ≡ 16
        → (now later : ℕ) (password : Text)
        → (tokens : AuthenticationTokens Token) × (authenticate_by_credentials jwt k t db' now
              (record { username = user.username; password = password })
            ≡ (if k.pbkdf2 password salt iterations ≟ k.pbkdf2 user.password salt iterations
                then ok (ok tokens)
                else ok (err invalid_credentials)))
          × (from_request jwt later (bearer tokens.access_token) ≡ (
              if ltb (now + 900 + 60) later
              then err AccessTokenProblemCategory.expired
              else ok db.next_user_id))
    unfolding authenticate_by_credentials credentials_answer
    authenticate_by_credentials-create_user db created_at salt gravatar user u db' h ascii long now
          later password =
        let stored = hash_user_password k salt user.password in
        let row =
          inserted t db created_at (new_user t gravatar user.username stored user.email_address) in
        let found =
          by_username-create_user t t_law k db created_at salt gravatar user u db' h ascii in
        let checks =
          check_user_password-hash_user_password k k_law salt user.password password long in
        (
          issued_tokens now row,
          ap (credentials_answer jwt k t now password) found
              ∙ rw checks (rw (tokens_of-eq-ok k t now row) refl),
          from_request-issued_tokens now later row,
        )
