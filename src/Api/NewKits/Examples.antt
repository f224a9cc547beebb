-- ===== src/Api/NewKits/Examples.antt =====
-- A generator that always draws the same number.
use astroplant_api.Prelude.{◌≡◌, Text, codes, none, false, ok, length, arith}
use astroplant_api.Auth.Hash.Sample.{crypto}
use astroplant_api.Api.Models.{NewKit}
use astroplant_api.Mqtt.Topic.{TopicKind, try_from}
use astroplant_api.Mqtt.Topic.RoundTrip.{format}
use astroplant_api.Api.NewKits.{Samples, new_with_generated_password}
use astroplant_api.Api.NewKits.Serial.{InRange, try_from-new_with_generated_password}

abbrev constant : Samples
constant = record {
  of_password = λ j. 1;
  of_salt = λ j. 2;
  of_first = λ j. 3;
  of_second = λ j. 4;
  of_third = λ j. 5;
}

constant-InRange : InRange constant
constant-InRange = record {
  for_password = λ j. omega arith;
  for_salt = λ j. omega arith;
  first_group = λ j. omega arith;
  second_group = λ j. omega arith;
  third_group = λ j. omega arith;
}

try_from-new_with_generated_password_example :
    (kit : NewKit) × (generated : Text) × (new_with_generated_password crypto
        (λ n. codes "15000")
        constant
        none
        none
        none
        none
        false
        false
      ≡ ok (kit, generated))
    × (length generated ≡ 24)
    × (length kit.serial ≡ 16)
    × ((kind : TopicKind)
        → try_from (format (record { kit_serial = kit.serial; kind = kind }))
          ≡ ok (record { kit_serial = kit.serial; kind = kind }))
try_from-new_with_generated_password_example =
    try_from-new_with_generated_password crypto (λ n. codes "15000") constant none none none none
      false false constant-InRange
