-- ===== src/Api/NewKits/Serial.antt =====
-- A generated serial is one that fits in a topic.
use astroplant_api.Prelude.{
  ℕ, ◌<◌, ◌≡◌, ◌≢◌, refl, Text, codes, Option, Bool, ◌++◌, length, All-append, length-append, ok,
  arith,
}
use astroplant_api.Auth.RandomString.{
  random_characters, random_unambiguous_characters, random_unambiguous_lowercase_characters,
  unambiguous_lowercase_string,
}
use astroplant_api.Auth.RandomString.Drawn.{random_string_with_characters-All}
use astroplant_api.Auth.Hash.{Crypto, iterations, hash_kit_password, kit_hash_format}
use astroplant_api.Api.Models.{NewKit, Decimal}
use astroplant_api.Mqtt.Topic.{TopicKind, HasNoSlash, try_from}
use astroplant_api.Mqtt.Topic.RoundTrip.{format, try_from_iff}
use astroplant_api.Api.NewKits.{Samples, serial_format, new_serial, new_with_generated_password}

-- The samples are below the numbers of characters.
pub record InRange (s : Samples) : Type 0 where
  pub for_password : (j : ℕ) → s.of_password j < length random_unambiguous_characters
  pub for_salt : (j : ℕ) → s.of_salt j < length random_characters
  pub first_group : (j : ℕ) → s.of_first j < length random_unambiguous_lowercase_characters
  pub second_group : (j : ℕ) → s.of_second j < length random_unambiguous_lowercase_characters
  pub third_group : (j : ℕ) → s.of_third j < length random_unambiguous_lowercase_characters

group :
    (sample : ℕ → ℕ)
    → ((j : ℕ) → sample j < length random_unambiguous_lowercase_characters)
    → (g : Text) × (unambiguous_lowercase_string sample 4 ≡ ok g) × (length g ≡ 4) × HasNoSlash g
group sample h =
    random_string_with_characters-All sample (λ c. c ≢ 47) 4 random_unambiguous_lowercase_characters
      h (omega arith)

length_lem :
    (a b c : Text) → length a ≡ 4 → length b ≡ 4 → length c ≡ 4 → length (serial_format a b c) ≡ 16
length_lem a b c h k l = omega (
  arith,
  h,
  k,
  l,
  length-append a (codes "-" ++ (b ++ (codes "-" ++ c))),
  length-append b (codes "-" ++ c),
)

new_serial-fits :
    (s : Samples)
    → InRange s
    → (serial : Text) × (new_serial s ≡ ok serial) × (length serial ≡ 16) × HasNoSlash serial
unfolding new_serial
new_serial-fits s h =
    let (a, drawn_a, long_a, fits_a) = group s.of_first h.first_group in
    let (b, drawn_b, long_b, fits_b) = group s.of_second h.second_group in
    let (c, drawn_c, long_c, fits_c) = group s.of_third h.third_group in
    (
      serial_format a b c,
      rw (drawn_a, drawn_b, drawn_c) refl,
      length_lem a b c long_a long_b long_c,
      (
        omega arith,
        (
          omega arith,
          All-append (λ x. x ≢ 47) a _ fits_a
              (omega arith, All-append (λ x. x ≢ 47) b _ fits_b (omega arith, fits_c)),
        ),
      ),
    )

-- For every random generator whose samples are below the numbers of characters, a new kit is generated. Its
-- password has 24 characters and its serial has sixteen, and in a topic of any kind that is made from the
-- serial the server finds it again.
pub try_from-new_with_generated_password :
    (k : Crypto) (print : ℕ → Text) (s : Samples) (name description : Option Text)
    (latitude longitude : Option Decimal) (public_dashboard show_on_map : Bool)
    → InRange s
    → (kit : NewKit) × (generated : Text) × (new_with_generated_password k print s name description
          latitude longitude public_dashboard show_on_map
        ≡ ok (kit, generated))
      × (length generated ≡ 24)
      × (length kit.serial ≡ 16)
      × ((kind : TopicKind)
          → try_from (format (record { kit_serial = kit.serial; kind = kind }))
            ≡ ok (record { kit_serial = kit.serial; kind = kind }))
unfolding new_with_generated_password hash_kit_password
try_from-new_with_generated_password k print s name description latitude longitude public_dashboard
      show_on_map h =
    let (generated, drawn, long, _) =
      random_string_with_characters-All s.of_password (λ c. Unit {0}) 24
        random_unambiguous_characters h.for_password (omega arith) in
    let (salt, salted, _, _) =
      random_string_with_characters-All s.of_salt (λ c. Unit {0}) 20 random_characters h.for_salt
        (omega arith) in
    let (serial, given, serial_long, fits) = new_serial-fits s h in
    (
      record {
        serial = serial;
        password_hash =
            kit_hash_format k print iterations salt (k.pbkdf2 generated salt iterations);
        name = name;
        description = description;
        latitude = latitude;
        longitude = longitude;
        privacy_public_dashboard = public_dashboard;
        privacy_show_on_map = show_on_map;
      },
      generated,
      rw (drawn, salted, given) refl,
      long,
      serial_long,
      λ kind. (try_from_iff _ (record { kit_serial = serial; kind = kind })).1 (refl, fits),
    )
