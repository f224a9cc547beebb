-- ===== src/WebSocket.antt =====
-- astroplant-websocket/src/lib.rs: the cache of the newest raw measurements, from which a new subscriber is
-- served, and the registry of the subscribers of each kit. An `Instant` is a number of seconds. The
-- tasks of the subscriptions interleave at every lock of the registry. The WebSocket and JSON-RPC libraries
-- are not modelled: a subscription has a number, and `auth_check` is a parameter.
use astroplant_api.Prelude.{
  ℕ, ◌+◌, ◌*◌, ◌-◌, Text, Bool, true, false, Option, none, some, List, [], ◌∷◌, ◌==◌, ltb,
  if◌then◌else◌,
}
use astroplant_api.Prelude.Equality.{◌≟◌, nat_eq, list_eq, pair_eq}
use astroplant_api.Prelude.Map.{
  Map, empty, len, get, insert, remove, retain, retain_mut, keep_if, and_then,
}
use astroplant_api.Mqtt.Publications.{RawMeasurement}
pub mod Newest
pub mod Subscribers
mod Examples

-- RETENTION_PERIOD
abbrev pub retention_period : ℕ
retention_period = 30 * 60

module _ (Date : Type 0) where
  abbrev pub ForKit : Type 0
  ForKit = Map (ℕ × ℕ) (ℕ × RawMeasurement Date)

  abbrev pub RawMeasurementCache : Type 0
  RawMeasurementCache = Map Text ForKit

  -- What happens to the cache: a measurement is published, or the task that cleans it wakes up.
  pub data CacheEvent : Type 0 where
    publishes : (now : ℕ) → RawMeasurement Date → CacheEvent
    cleans : (now : ℕ) → CacheEvent

module _ {Date : Type 0} where
  abbrev pub or_default : Option (ForKit Date) → ForKit Date
  or_default none = empty
  or_default (some for_kit) = for_kit

  abbrev pub key_of : RawMeasurement Date → ℕ × ℕ
  key_of m = (m.peripheral, m.quantity_type)

  -- Publisher::publish_raw_measurement, on the cache
  unfoldable pub publish_raw_measurement :
      RawMeasurementCache Date → (now : ℕ) → RawMeasurement Date → RawMeasurementCache Date
  publish_raw_measurement cache now m =
      insert cache m.kit_serial (insert (or_default (get cache m.kit_serial)) (key_of m) (now, m))

  abbrev pub is_recent : (now : ℕ) → ℕ × RawMeasurement Date → Bool
  is_recent now (added, m) = ltb (now - added) retention_period

  -- What is kept of the measurements of a kit, if anything is.
  unfoldable pub clean_for_kit : (now : ℕ) → ForKit Date → Option (ForKit Date)
  clean_for_kit now for_kit =
      let kept = retain (λ key value. is_recent now value) for_kit in
      if ltb 0 (len kept) then some kept else none

  -- keep_raw_measurement_cache_clean, one round
  unfoldable pub clean : RawMeasurementCache Date → (now : ℕ) → RawMeasurementCache Date
  unfolding clean_for_kit
  clean cache now = retain_mut (λ serial for_kit. clean_for_kit now for_kit) cache

  unfoldable pub cache_step : RawMeasurementCache Date → CacheEvent Date → RawMeasurementCache Date
  unfolding publish_raw_measurement clean
  cache_step cache (publishes now m) = publish_raw_measurement cache now m
  cache_step cache (cleans now) = clean cache now

  unfoldable pub cache_run :
      RawMeasurementCache Date → List (CacheEvent Date) → RawMeasurementCache Date
  unfolding cache_step
  cache_run cache [] = cache
  cache_run cache (e ∷ es) = cache_run (cache_step cache e) es

  -- What a new subscriber of a kit is sent of a peripheral and a quantity type.
  abbrev pub in_kit : ℕ × ℕ → Option (ForKit Date) → Option (ℕ × RawMeasurement Date)
  in_kit key none = none
  in_kit key (some for_kit) = get for_kit key

  unfoldable pub cached_value :
      RawMeasurementCache Date → (kit_serial : Text) → ℕ × ℕ → Option (ℕ × RawMeasurement Date)
  cached_value cache serial key = in_kit key (get cache serial)

-- Where the task of a subscription stands: accepted, without a sender under the read lock, receiving from
-- a channel, after its receiver was dropped, after it was the last, and at its end.
pub data Phase : Type 0 where
  accepted no_sender dropped was_last finished panicked : Text → Phase
  receiving : Text → (channel : ℕ) → Phase

-- The senders by the serial of the kit, and the tasks by the number of the subscription. A channel is known
-- by the number of its creation.
pub record Registry : Type 0 where
  pub listeners : Map Text ℕ
  pub next_channel : ℕ
  pub tasks : Map ℕ Phase

pub data Action : Type 0 where
  subscribes : (id : ℕ) → (kit_serial : Text) → Action
  proceeds closes : (id : ℕ) → Action

abbrev pub no_listeners : Registry
no_listeners = record { listeners = empty; next_channel = 0; tasks = empty }

abbrev pub moved : Registry → (id : ℕ) → Phase → Registry
moved r id phase = record r { tasks = insert r.tasks id phase }

-- Under the read lock: the sender of the kit is subscribed to.
abbrev pub looked_up : Text → Option ℕ → Phase
looked_up serial none = no_sender serial
looked_up serial (some channel) = receiving serial channel

-- `expect("invariant")`, and the number of receivers of the sender that is found
abbrev pub counted : (receiver_count : ℕ → ℕ) → Text → Option ℕ → Phase
counted receiver_count serial none = panicked serial
counted receiver_count serial (some channel) =
    if receiver_count channel == 0 then was_last serial else finished serial

module _ (auth_check : (id : ℕ) → (kit_serial : Text) → Bool)
    (receiver_count : Registry → ℕ → ℕ) where
  -- The task of a subscription, up to its next lock. The measurements that are cached are sent to
  -- it when it is accepted, before it enters the registry: they are those of cached_value, and that they
  -- are sent is no step here.
  unfoldable pub task_step : Registry → (id : ℕ) → Option Phase → Registry
  task_step r id none = r
  task_step r id (some (accepted serial)) = moved r id (looked_up serial (get r.listeners serial))
  task_step r id (some (no_sender serial)) =
      moved
        (record r {
          listeners = insert r.listeners serial r.next_channel;
          next_channel = r.next_channel + 1;
        })
        id (receiving serial r.next_channel)
  task_step r id (some (receiving serial channel)) = r
  task_step r id (some (dropped serial)) =
      moved r id (counted (receiver_count r) serial (get r.listeners serial))
  task_step r id (some (was_last serial)) =
      moved (record r { listeners = remove r.listeners serial }) id (finished serial)
  task_step r id (some (finished serial)) = r
  task_step r id (some (panicked serial)) = r

  abbrev pub close_step : Registry → (id : ℕ) → Option Phase → Registry
  close_step r id (some (receiving serial channel)) = moved r id (dropped serial)
  close_step r id _ = r

  -- RpcServerImpl::sub, of an id that is new
  unfoldable pub sub : Registry → (id : ℕ) → (kit_serial : Text) → Option Phase → Registry
  sub r id kit_serial (some phase) = r
  sub r id kit_serial none =
      if auth_check id kit_serial then moved r id (accepted kit_serial) else r

  unfoldable pub registry_step : Registry → Action → Registry
  unfolding task_step sub
  registry_step r (subscribes id kit_serial) = sub r id kit_serial (get r.tasks id)
  registry_step r (proceeds id) = task_step r id (get r.tasks id)
  registry_step r (closes id) = close_step r id (get r.tasks id)

  unfoldable pub registry_run : Registry → List Action → Registry
  unfolding registry_step
  registry_run r [] = r
  registry_run r (a ∷ actions) = registry_run (registry_step r a) actions

-- Whether a task receives from a sender.
abbrev pub receives_from : Option ℕ → Option Phase → Bool
receives_from (some sender) (some (receiving serial channel)) = channel == sender
receives_from _ _ = false

-- Publisher::publish_raw_measurement, on the listeners: whether a measurement is sent to a subscription
unfoldable pub is_sent : {Date : Type 0} → Registry → RawMeasurement Date → (id : ℕ) → Bool
is_sent r m id = receives_from (get r.listeners m.kit_serial) (get r.tasks id)
