-- ===== src/Auth/Token.antt =====
-- astroplant-auth/src/token.rs: the signed tokens of sessions and downloads. The JWT library is a
-- parameter with the texts of its tokens: it signs a payload, and it reads a token back at the time
-- of a clock. What serde writes of a payload is kept as the payload, with the fields that a reader
-- asks for. Times are seconds since 1970, far below the last date of the calendar library.
use astroplant_api.Prelude.{
  ℕ, ◌+◌, ◌*◌, ◌≡◌, Bool, true, false, Option, none, some, if◌then◌else◌, ltb, Result, ok, err,
  map_err, ◌>>=◌, ◌>>◌, guard,
}
pub mod Kinds
pub mod Sample
mod Examples

pub data TokenType : Type 0 where
  refresh access : TokenType

pub data Error : Type 0 where
  expired other : Error

pub record AuthenticationState : Type 0 where
  pub user_id : ℕ

pub record Claims : Type 0 where
  pub exp : ℕ
  pub token_type : TokenType
  pub state : AuthenticationState

pub record ArbitraryTokenClaims (Data : Type 0) : Type 0 where
  pub exp : ℕ
  pub contents : Data

-- What is signed, and the reading of it as each of the two types. They have no field in common but
-- the time at which the token expires.
pub data Payload (Data : Type 0) : Type 0 where
  of_session : Claims → Payload Data
  of_data : ArbitraryTokenClaims Data → Payload Data

module _ {Data : Type 0} where
  abbrev pub expiry : Payload Data → ℕ
  expiry (of_session c) = c.exp
  expiry (of_data a) = a.exp

  abbrev pub as_claims : Payload Data → Option Claims
  as_claims (of_session c) = some c
  as_claims (of_data a) = none

  abbrev pub as_arbitrary : Payload Data → Option (ArbitraryTokenClaims Data)
  as_arbitrary (of_session c) = none
  as_arbitrary (of_data a) = some a

pub data ErrorKind : Type 0 where
  expired_signature other_kind : ErrorKind

pub record Jwt (Token Data : Type 0) : Type 1 where
  pub encode : Payload Data → Token
  pub decode : {T : Type 0} → (Payload Data → Option T) → (now : ℕ) → Token → Result ErrorKind T

-- `Validation::default` allows for clocks that differ by a minute. A token that is decoded was
-- signed with the key, and one that is not of the wanted type is an error.
pub record IsJwt {Token Data : Type 0} (jwt : Jwt Token Data) : Type 1 where
  pub decodes :
      {T : Type 0} (read : Payload Data → Option T) (now : ℕ) (p : Payload Data) (t : T)
      → read p ≡ some t
      → jwt.decode read now (jwt.encode p)
        ≡ (if ltb (expiry p + 60) now then err expired_signature else ok t)
  pub refuses :
      {T : Type 0} (read : Payload Data → Option T) (now : ℕ) (p : Payload Data)
      → read p ≡ none
      → (e : ErrorKind) × (jwt.decode read now (jwt.encode p) ≡ err e)
  pub signed :
      {T : Type 0} (read : Payload Data → Option T) (now : ℕ) (token : Token) (t : T)
      → jwt.decode read now token ≡ ok t
      → (p : Payload Data) × (token ≡ jwt.encode p)

abbrev pub error_of : ErrorKind → Error
error_of expired_signature = expired
error_of other_kind = other

abbrev pub is_refresh : TokenType → Bool
is_refresh refresh = true
is_refresh access = false

abbrev pub is_access : TokenType → Bool
is_access refresh = false
is_access access = true

module _ {Token Data : Type 0} (jwt : Jwt Token Data) where
  abbrev pub create_token : (now validity_time : ℕ) → TokenType → AuthenticationState → Token
  create_token now validity_time token_type state =
      jwt.encode
        (of_session (record { exp = now + validity_time; token_type = token_type; state = state }))

  abbrev pub decode_token : (now : ℕ) → Token → Result Error Claims
  decode_token now token = map_err error_of (jwt.decode as_claims now token)

  -- TokenSigner::create_refresh_token: 365 days
  unfoldable pub create_refresh_token : (now : ℕ) → AuthenticationState → Token
  create_refresh_token now state = create_token now (365 * 86400) refresh state

  -- TokenSigner::access_token_from_refresh_token: 15 minutes
  unfoldable pub access_token_from_refresh_token : (now : ℕ) → Token → Result Error Token
  access_token_from_refresh_token now token = do
    claims ← decode_token now token
    guard (is_refresh claims.token_type) other
    ok (create_token now (15 * 60) access claims.state)

  -- TokenSigner::decode_access_token
  unfoldable pub decode_access_token : (now : ℕ) → Token → Result Error AuthenticationState
  decode_access_token now token = do
    claims ← decode_token now token
    guard (is_access claims.token_type) other
    ok claims.state

  -- TokenSigner::create_arbitrary_token
  unfoldable pub create_arbitrary_token : (now : ℕ) → Data → (validity_time : ℕ) → Token
  create_arbitrary_token now contents validity_time =
      jwt.encode (of_data (record { exp = now + validity_time; contents = contents }))

  -- TokenSigner::decode_arbitrary_token
  unfoldable pub decode_arbitrary_token : (now : ℕ) → Token → Result Error Data
  decode_arbitrary_token now token = do
    wrapped_token ← map_err error_of (jwt.decode as_arbitrary now token)
    ok wrapped_token.contents
