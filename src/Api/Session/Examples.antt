-- ===== src/Api/Session/Examples.antt =====
-- The user of the sample logs in with a wrong password.
use astroplant_api.Prelude.{ℕ, ◌+◌, ◌≡◌, ok, err, [], codes, arith, ltb, if◌then◌else◌}
use astroplant_api.Prelude.Equality.{◌≟◌, nat_eq, list_eq}
use astroplant_api.Auth.Hash.Sample.{crypto, crypto-IsCrypto, salt, replicate, length-replicate}
use astroplant_api.Auth.Token.{Payload}
use astroplant_api.Auth.Token.Sample.{plain, plain-IsJwt}
use astroplant_api.Api.Problem.{AccessTokenProblemCategory}
use astroplant_api.Api.Sample.{small}
use astroplant_api.Api.Users.Sample.{ascii, ascii-IsTexts, gardener, joined, joined_lem}
use astroplant_api.Api.Session.{
  AuthenticationTokens, bearer, invalid_credentials, from_request, authenticate_by_credentials,
}
use astroplant_api.Api.Session.Login.{authenticate_by_credentials-create_user}

authenticate_by_credentials-create_user_example :
    (tokens : AuthenticationTokens (Payload ℕ)) × (authenticate_by_credentials
        (plain ℕ)
        crypto
        ascii
        joined
        20
        (record { username = codes "Ada-1"; password = codes "guess" })
      ≡ (if replicate 32 103 ≟ replicate 32 115
          then ok (ok tokens)
          else ok (err invalid_credentials)))
    × (from_request (plain ℕ) 30 (bearer tokens.access_token)
        ≡ (if ltb (20 + 900 + 60) 30 then err AccessTokenProblemCategory.expired else ok 4))
authenticate_by_credentials-create_user_example =
    authenticate_by_credentials-create_user (plain ℕ) (plain-IsJwt ℕ) crypto crypto-IsCrypto ascii
      ascii-IsTexts small 10 salt [] gardener tt joined joined_lem (omega arith)
      (length-replicate 16 7) 20 30 (codes "guess")
