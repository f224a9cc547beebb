-- ===== src/Mqtt/Timestamp.antt =====
-- astroplant-mqtt/src/lib.rs: `timestamp_to_datetime`. A time stamp is a `u64` of milliseconds.
-- `from_timestamp seconds nanoseconds` of the calendar library is none where it panics.
use astroplant_api.Prelude.{
  ℕ, ◌+◌, ◌*◌, ◌/◌, ◌%◌, ◌<◌, ◌≤◌, ◌≡◌, ◌≢◌, refl, Bool, true, false, Option, none, some, ltb,
  if◌then◌else◌, arith,
}
use astroplant_api.Prelude.Machine.{u64_mod, i64_limit}
mod Examples

-- What a call comes to.
pub data Outcome {ℓ} (A : Type ℓ) : Type ℓ where
  returned : A → Outcome A
  panicked : Outcome A

-- `i64::try_from` of a number that is not negative
abbrev pub i64_try_from : ℕ → Option ℕ
i64_try_from n = if ltb n i64_limit then some n else none

abbrev pub or_panic {ℓ} : {A : Type ℓ} → Option A → Outcome (Option A)
or_panic none = panicked
or_panic (some a) = returned (some a)

module _ {ℓ} {A : Type ℓ} (from_timestamp : ℕ → ℕ → Option A) where
  unfoldable pub timestamp_to_datetime : ℕ → Outcome (Option A)
  timestamp_to_datetime timestamp = elim (i64_try_from (timestamp / 1000)) [
    | none ↦ returned none
    | some seconds ↦ or_panic (from_timestamp seconds (1000000 * (timestamp % 1000)))
  ]

  -- A time stamp never overflows: for every `u64`, the calendar library is asked for the seconds
  -- and the nanoseconds that make up exactly the time stamp, the seconds within an `i64` and the
  -- nanoseconds below one second. If the library refuses them, the call panics, and it returns no
  -- `None`.
  pub timestamp_to_datetime_exact :
      (timestamp : ℕ)
      → timestamp < u64_mod
      → (seconds nanoseconds : ℕ) × (timestamp_to_datetime timestamp
          ≡ or_panic (from_timestamp seconds nanoseconds))
        × (1000000000 * seconds + nanoseconds ≡ 1000000 * timestamp)
        × (seconds < i64_limit)
        × (nanoseconds < 1000000000)
  unfolding timestamp_to_datetime
  timestamp_to_datetime_exact timestamp h =
      let fits : timestamp / 1000 < i64_limit = omega (arith, h) in
      (
        timestamp / 1000,
        1000000 * (timestamp % 1000),
        ground (arith, fits),
        omega arith,
        fits,
        omega arith,
      )
