-- ===== src/Auth/Token/Sample.antt =====
-- A library whose tokens are the payloads themselves.
use astroplant_api.Prelude.{
  ℕ, ◌+◌, refl, ap, Option, none, some, if◌then◌else◌, ltb, Result, ok, err,
}
use astroplant_api.Auth.Token.{
  Payload, expiry, ErrorKind, expired_signature, other_kind, Jwt, IsJwt,
}

abbrev validated : {T : Type 0} → Option T → (expiry now : ℕ) → Result ErrorKind T
validated none exp now = err other_kind
validated (some t) exp now = if ltb (exp + 60) now then err expired_signature else ok t

module _ (Data : Type 0) where
  abbrev pub plain : Jwt (Payload Data) Data
  plain = record { encode = λ p. p; decode = λ read now p. validated (read p) (expiry p) now }

  pub plain-IsJwt : IsJwt plain
  plain-IsJwt = record {
    decodes = λ read now p t h. ap (λ o. validated o (expiry p) now) h;
    refuses = λ read now p h. (other_kind, ap (λ o. validated o (expiry p) now) h);
    signed = λ read now p t h. (p, refl);
  }
