-- ===== src/WebSocket/Examples.antt =====
-- A measurement is published twice and the cache is cleaned once, and one subscription is served.
use astroplant_api.Prelude.{ℕ, ◌≡◌, refl, Text, codes, Bool, true, some, none, List, [], ◌∷◌}
use astroplant_api.Prelude.Equality.{nat_eq, list_eq}
use astroplant_api.Prelude.Map.{empty, get, get-empty, get-insert, get-remove}
use astroplant_api.Mqtt.Publications.{RawMeasurement}
use astroplant_api.WebSocket.{
  publishes, cleans, cache_run, cached_value, CacheEvent, RawMeasurementCache, Action, subscribes,
  proceeds, closes, no_listeners, receiving, panicked, Registry, registry_run, registry_step,
  task_step, sub, is_sent,
}
use astroplant_api.WebSocket.Newest.{newest, cached_value-cache_run}
use astroplant_api.WebSocket.Subscribers.{is_sent-registry_run}

abbrev measured : ℕ → RawMeasurement ℕ
measured value = record {
  id = [];
  kit_serial = codes "k-1";
  datetime = 0;
  peripheral = 3;
  quantity_type = 8;
  value = value;
}

abbrev history : List (CacheEvent ℕ)
history = publishes 10 (measured 1) ∷ publishes 100 (measured 2) ∷ cleans 1850 ∷ []

newest_lem : newest (codes "k-1") (3, 8) none history ≡ some (100, measured 2)
unfolding newest
newest_lem = refl

abbrev nothing_cached : RawMeasurementCache ℕ
nothing_cached = empty

cached_value-cache_run_example :
    cached_value (cache_run nothing_cached history) (codes "k-1") (3, 8)
    ≡ newest (codes "k-1") (3, 8) (cached_value nothing_cached (codes "k-1") (3, 8)) history
cached_value-cache_run_example = cached_value-cache_run nothing_cached (codes "k-1") (3, 8) history

abbrev allowed : ℕ → Text → Bool
allowed id serial = true

abbrev no_receivers : Registry → ℕ → ℕ
no_receivers r channel = 0

abbrev served : List Action
served = subscribes 1 (codes "k-1") ∷ proceeds 1 ∷ proceeds 1 ∷ []

served_lem : is_sent (registry_run allowed no_receivers no_listeners served) (measured 1) 1 ≡ true
unfolding is_sent registry_run registry_step task_step sub
served_lem = simp (get-empty, get-insert)

is_sent-registry_run_example :
    (channel : ℕ) × (get (registry_run allowed no_receivers no_listeners served).tasks 1
      ≡ some (receiving (codes "k-1") channel))
    × (allowed 1 (codes "k-1") ≡ true)
is_sent-registry_run_example =
    is_sent-registry_run allowed no_receivers served (measured 1) 1 served_lem

-- Two tasks register for one kit at the same time, and each creates a sender. The second one leaves first and
-- takes away the only sender that is left, so the first one panics when it leaves.
abbrev race : List Action
race =
    subscribes 1 (codes "k-1")
    ∷ subscribes 2 (codes "k-1")
    ∷ proceeds 1
    ∷ proceeds 2
    ∷ proceeds 1
    ∷ proceeds 2
    ∷ closes 2
    ∷ proceeds 2
    ∷ proceeds 2
    ∷ closes 1
    ∷ proceeds 1
    ∷ []

race_lem :
    get (registry_run allowed no_receivers no_listeners race).tasks 1
    ≡ some (panicked (codes "k-1"))
unfolding registry_run registry_step task_step sub
race_lem = simp (get-empty, get-insert, get-remove)
