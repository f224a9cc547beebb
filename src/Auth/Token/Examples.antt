-- ===== src/Auth/Token/Examples.antt =====
-- Tokens of user 7 and of a download that the number 5 names.
use astroplant_api.Prelude.{ℕ, ◌+◌, ◌≤◌, ◌≡◌, ◌↔◌, false, ◌&&◌, ok, err, is_ok, ◌>>=◌}
use astroplant_api.Auth.Token.{
  access, expired, AuthenticationState, Payload, of_session, create_refresh_token,
  access_token_from_refresh_token, decode_access_token, decode_arbitrary_token,
}
use astroplant_api.Auth.Token.Sample.{plain, plain-IsJwt}
use astroplant_api.Auth.Token.Kinds.{
  decode_access_token-access_token_from_refresh_token, decode_access_token_iff, kinds-distinct,
}

abbrev seven : AuthenticationState
seven = record { user_id = 7 }

-- A session that is refreshed after ten seconds, and a token that is used after it expired.
decode_access_token-access_token_from_refresh_token_example :
    (access_token_from_refresh_token (plain ℕ) 1010 (create_refresh_token (plain ℕ) 1000 seven)
      >>= decode_access_token (plain ℕ) 1971)
    ≡ err expired
decode_access_token-access_token_from_refresh_token_example =
    decode_access_token-access_token_from_refresh_token (plain ℕ) (plain-IsJwt ℕ) 1000 1010 1971
      seven

decode_access_token_iff_example :
    (decode_access_token
        (plain ℕ)
        50
        (of_session (record { exp = 900; token_type = access; state = seven }))
      ≡ ok seven)
    ↔ ((exp : ℕ) × (◌≡◌ {A = Payload ℕ}
          (of_session (record { exp = 900; token_type = access; state = seven }))
          (of_session (record { exp = exp; token_type = access; state = seven })))
        × (50 ≤ exp + 60))
decode_access_token_iff_example =
    decode_access_token_iff (plain ℕ) (plain-IsJwt ℕ) 50
      (of_session (record { exp = 900; token_type = access; state = seven })) seven

kinds-distinct_example :
    ((is_ok (decode_access_token (plain ℕ) 1 (create_refresh_token (plain ℕ) 1000 seven))
        && is_ok (
            access_token_from_refresh_token
              (plain ℕ)
              2
              (create_refresh_token (plain ℕ) 1000 seven)))
      ≡ false)
    × ((is_ok (decode_access_token (plain ℕ) 1 (create_refresh_token (plain ℕ) 1000 seven))
          && is_ok (decode_arbitrary_token (plain ℕ) 2 (create_refresh_token (plain ℕ) 1000 seven)))
        ≡ false)
    × ((is_ok (
            access_token_from_refresh_token (plain ℕ) 1 (create_refresh_token (plain ℕ) 1000 seven))
          && is_ok (decode_arbitrary_token (plain ℕ) 2 (create_refresh_token (plain ℕ) 1000 seven)))
        ≡ false)
kinds-distinct_example =
    kinds-distinct (plain ℕ) (plain-IsJwt ℕ) 1 2 (create_refresh_token (plain ℕ) 1000 seven)
