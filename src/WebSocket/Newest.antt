-- ===== src/WebSocket/Newest.antt =====
-- The nested maps of the cache hold the newest measurement of each kit, peripheral and quantity type.
use astroplant_api.Prelude.{
  ℕ, ◌-◌, ◌≡◌, refl, sym, ◌∙◌, ap, Text, Bool-cases, inl, inr, Option, none, some, List, [], ◌∷◌,
  ltb, if◌then◌else◌, arith,
}
use astroplant_api.Prelude.Equality.{◌≟◌, ≟_iff, nat_eq, list_eq, pair_eq}
use astroplant_api.Prelude.Map.{
  len, get, insert, retain, keep_if, and_then, get-empty, get-insert, get-retain, get-retain_mut,
  get-len_zero,
}
use astroplant_api.Mqtt.Publications.{RawMeasurement}
use astroplant_api.WebSocket.{
  ForKit, RawMeasurementCache, CacheEvent, publishes, cleans, or_default, key_of,
  publish_raw_measurement, is_recent, clean_for_kit, clean, cache_step, cache_run, in_kit,
  cached_value,
}

module _ {Date : Type 0} where
  -- One cell, which knows nothing of the others: a measurement of its kit and key is kept in place of the
  -- older one, and what is too old when the cache is cleaned is forgotten.
  abbrev pub newest_step :
      Text
      → ℕ × ℕ
      → Option (ℕ × RawMeasurement Date)
      → CacheEvent Date
      → Option (ℕ × RawMeasurement Date)
  newest_step serial key old (publishes now m) =
      if m.kit_serial ≟ serial then (if key_of m ≟ key then some (now, m) else old) else old
  newest_step serial key old (cleans now) = keep_if (λ entry. ltb (now - entry.0) 1800) old

  unfoldable pub newest :
      Text
      → ℕ × ℕ
      → Option (ℕ × RawMeasurement Date)
      → List (CacheEvent Date)
      → Option (ℕ × RawMeasurement Date)
  newest serial key old [] = old
  newest serial key old (e ∷ es) = newest serial key (newest_step serial key old e) es

  in_kit-or_default :
      (key : ℕ × ℕ) (o : Option (ForKit Date)) → get (or_default o) key ≡ in_kit key o
  in_kit-or_default key none = get-empty key
  in_kit-or_default key (some for_kit) = refl

  in_kit-clean :
      (now : ℕ) (key : ℕ × ℕ) (o : Option (ForKit Date))
      → in_kit key (and_then (clean_for_kit now) o) ≡ keep_if (is_recent now) (in_kit key o)
  unfolding clean_for_kit
  in_kit-clean now key none = refl
  in_kit-clean now key (some for_kit) =
      let kept = retain (λ k. is_recent now) for_kit in
      let inside = get-retain (λ k. is_recent now) for_kit key in
      elim (Bool-cases (ltb 0 (len kept))) [
        | inl some_left ↦ rw some_left inside
        | inr none_left ↦
            rw none_left (sym (get-len_zero kept key (ground (arith, none_left))) ∙ inside)
      ]

  cached_value-step :
      (cache : RawMeasurementCache Date) (serial : Text) (key : ℕ × ℕ) (e : CacheEvent Date)
      → cached_value (cache_step cache e) serial key
        ≡ newest_step serial key (cached_value cache serial key) e
  unfolding cached_value cache_step publish_raw_measurement clean
  cached_value-step cache serial key (publishes now m) =
      let for_kit = or_default (get cache m.kit_serial) in
      rw (get-insert cache m.kit_serial serial (insert for_kit (key_of m) (now, m)))
        (elim (Bool-cases (m.kit_serial ≟ serial)) [
          | inr other ↦ rw other refl
          | inl same ↦
              rw (same, get-insert for_kit (key_of m) key (now, m))
                (ap (λ old. if key_of m ≟ key then some (now, m) else old)
                  (in_kit-or_default key (get cache m.kit_serial)
                    ∙ ap (λ s. in_kit key (get cache s)) ((≟_iff m.kit_serial serial).0 same)))
        ])
  cached_value-step cache serial key (cleans now) =
      rw (get-retain_mut (λ s. clean_for_kit now) cache serial)
        (in_kit-clean now key (get cache serial))

  -- Whatever is published and cleaned, a new subscriber of a kit is sent, of each peripheral and quantity
  -- type, exactly what a cell of its own would hold: the measurement that was published last, unless it was
  -- older than half an hour when the cache was cleaned.
  pub cached_value-cache_run :
      (cache : RawMeasurementCache Date) (serial : Text) (key : ℕ × ℕ) (es : List (CacheEvent Date))
      → cached_value (cache_run cache es) serial key
        ≡ newest serial key (cached_value cache serial key) es
  unfolding cache_run newest
  cached_value-cache_run cache serial key [] = refl
  cached_value-cache_run cache serial key (e ∷ es) =
      cached_value-cache_run (cache_step cache e) serial key es
      ∙ ap (λ old. newest serial key old es) (cached_value-step cache serial key e)
