-- ===== src/Api/NewKits.antt =====
-- astroplant-api/src/models/kit.rs: the serial and the password of a new kit. The random generator gives
-- each of the five texts a sequence of numbers.
use astroplant_api.Prelude.{ℕ, Text, codes, Option, Bool, ◌++◌, Result, ok, ◌>>=◌}
use astroplant_api.Auth.RandomString.{Panic, unambiguous_lowercase_string, password}
use astroplant_api.Auth.Hash.{Crypto, hash_kit_password}
use astroplant_api.Api.Models.{NewKit, Decimal}
pub mod Serial
mod Examples

-- The numbers for the password, for the salt of its hash, and for the three groups of the serial.
pub record Samples : Type 0 where
  pub of_password : ℕ → ℕ
  pub of_salt : ℕ → ℕ
  pub of_first : ℕ → ℕ
  pub of_second : ℕ → ℕ
  pub of_third : ℕ → ℕ

-- The format of a serial: `k-`, and three groups with hyphens between them.
abbrev pub serial_format : Text → Text → Text → Text
serial_format a b c = codes "k-" ++ (a ++ (codes "-" ++ (b ++ (codes "-" ++ c))))

unfoldable pub new_serial : Samples → Result Panic Text
new_serial s = do
  a ← unambiguous_lowercase_string s.of_first 4
  b ← unambiguous_lowercase_string s.of_second 4
  c ← unambiguous_lowercase_string s.of_third 4
  ok (serial_format a b c)

-- NewKit::new_with_generated_password, with the printing of a number as a parameter
unfoldable pub new_with_generated_password :
    Crypto
    → (print : ℕ → Text) → Samples
    → (name description : Option Text) → (latitude longitude : Option Decimal)
    → (privacy_public_dashboard privacy_show_on_map : Bool) → Result Panic (NewKit × Text)
unfolding new_serial
new_with_generated_password k print s name description latitude longitude public_dashboard
      show_on_map =
    do
      generated ← password s.of_password
      password_hash ← hash_kit_password k print s.of_salt generated
      serial ← new_serial s
      ok (
        record {
          serial = serial;
          password_hash = password_hash;
          name = name;
          description = description;
          latitude = latitude;
          longitude = longitude;
          privacy_public_dashboard = public_dashboard;
          privacy_show_on_map = show_on_map;
        },
        generated,
      )
