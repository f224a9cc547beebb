-- ===== src/Mqtt/Timestamp/Examples.antt =====
-- A calendar that knows the first 8 * 10^12 seconds.
use astroplant_api.Prelude.{
  ℕ, ◌+◌, ◌*◌, ◌<◌, ◌≡◌, refl, Option, none, some, ltb, if◌then◌else◌, arith,
}
use astroplant_api.Prelude.Machine.{i64_limit}
use astroplant_api.Mqtt.Timestamp.{
  panicked, or_panic, timestamp_to_datetime, timestamp_to_datetime_exact,
}

abbrev calendar : ℕ → ℕ → Option (ℕ × ℕ)
calendar seconds nanoseconds =
    if ltb seconds 8000000000000 then some (seconds, nanoseconds) else none

panics : timestamp_to_datetime calendar 18446744073709551615 ≡ panicked
unfolding timestamp_to_datetime
panics = refl

timestamp_to_datetime_exact_example :
    (seconds nanoseconds : ℕ) × (timestamp_to_datetime calendar 1700000000123
      ≡ or_panic (calendar seconds nanoseconds))
    × (1000000000 * seconds + nanoseconds ≡ 1000000 * 1700000000123)
    × (seconds < i64_limit)
    × (nanoseconds < 1000000000)
timestamp_to_datetime_exact_example =
    timestamp_to_datetime_exact calendar 1700000000123 (omega arith)
