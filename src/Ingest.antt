-- ===== src/Ingest.antt =====
-- astroplant-mqtt-ingest/src/database.rs and main.rs: storing the measurements that kits publish. The
-- tables that the API changes are those of Api.Database. The constraints of the two tables of
-- measurements are written out; a query that fails for another reason is not modelled, and the tasks run one
-- after the other.
use astroplant_api.Prelude.{
  ℕ, ◌≡◌, ◌≤◌, ◌<◌, Text, Bool, true, false, not, ◌&&◌, ◌||◌, Option, none, some, List, [], ◌∷◌,
  ◌++◌, ◌==◌, first, keep, is_none, if◌then◌else◌, Result, ok, err,
}
use astroplant_api.Prelude.Equality.{◌≟◌, nat_eq, list_eq}
use astroplant_api.Prelude.Map.{Map, empty, get, insert}
use astroplant_api.Api.Models.{Uuid, Kit, Peripheral, KitConfiguration}
use astroplant_api.Api.Database.{Db}
use astroplant_api.Api.Helpers.{kit_by_id}
use astroplant_api.Api.Configurations.Table.{peripheral_by_id}
use astroplant_api.Mqtt.Publications.{
  RawMeasurement, KitAggregate, Message, of_raw, of_aggregate, of_media,
}
pub mod Cache
pub mod Attribution
mod Examples

pub record KitAndConfigId : Type 0 where
  pub kit_serial : Text
  pub kit_id : ℕ
  pub config_id : ℕ

pub record KitIdAndConfigId : Type 0 where
  pub kit_id : ℕ
  pub config_id : ℕ

-- A row of one of the two tables, with what is measured.
pub record Row (V : Type 0) : Type 0 where
  pub id : Uuid
  pub peripheral_id : ℕ
  pub kit_id : ℕ
  pub kit_configuration_id : ℕ
  pub quantity_type_id : ℕ
  pub measured : V

-- The values and times of the two kinds of measurements.
abbrev pub RawValue : Type 0 → Type 0
RawValue Date = ℕ × Date

abbrev pub AggregateValue : Type 0 → Type 0
AggregateValue Date = Date × Date × Map Text ℕ

pub record Store (Date : Type 0) : Type 0 where
  pub tables : Db
  pub quantity_types : List ℕ
  pub raw_measurements : List (Row (RawValue Date))
  pub aggregate_measurements : List (Row (AggregateValue Date))
  pub kit_last_seen : Map ℕ ℕ
  pub config_cache : Map ℕ KitAndConfigId

pub data QueryError : Type 0 where
  constraint_violated : QueryError

abbrev pub joined_with : Peripheral → Option Kit → Option KitAndConfigId
joined_with p none = none
joined_with p (some kit) =
    some (record { kit_serial = kit.serial; kit_id = kit.id; config_id = p.kit_configuration_id })

abbrev pub joined_kit : Db → Option Peripheral → Option KitAndConfigId
joined_kit db none = none
joined_kit db (some p) = joined_with p (kit_by_id db p.kit_id)

-- GET_CONFIG_AND_KIT: the peripheral, joined with its kit
unfoldable pub get_config_and_kit : Db → (peripheral_id : ℕ) → Option KitAndConfigId
get_config_and_kit db peripheral_id = joined_kit db (peripheral_by_id db peripheral_id)

-- The entry of the cache, if the kit is that of the message.
abbrev pub if_of_kit : (kit_serial : Text) → Option KitAndConfigId → Option KitIdAndConfigId
if_of_kit serial none = none
if_of_kit serial (some e) =
    if e.kit_serial ≟ serial
    then some (record { kit_id = e.kit_id; config_id = e.config_id })
    else none

abbrev pub cached :
    Map ℕ KitAndConfigId → (peripheral_id : ℕ) → Option KitAndConfigId → Map ℕ KitAndConfigId
cached cache peripheral_id none = cache
cached cache peripheral_id (some e) = insert cache peripheral_id e

-- The cache after the query of config_and_kit, which is only made if the peripheral is not in it.
unfoldable pub filled : Db → Map ℕ KitAndConfigId → (peripheral_id : ℕ) → Map ℕ KitAndConfigId
unfolding get_config_and_kit
filled db cache peripheral_id =
    if is_none (get cache peripheral_id)
    then cached cache peripheral_id (get_config_and_kit db peripheral_id)
    else cache

module _ {Date : Type 0} where
  -- config_and_kit
  unfoldable pub config_and_kit :
      Store Date → (peripheral_id : ℕ) → (kit_serial : Text) → Option KitIdAndConfigId × Store Date
  unfolding filled
  config_and_kit s peripheral_id kit_serial =
      let cache = filled s.tables s.config_cache peripheral_id in
      (if_of_kit kit_serial (get cache peripheral_id), record s { config_cache = cache })

  -- The keys of a row: its own is new, and the others are of rows that are there.
  abbrev pub is_accepted : {V : Type 0} → Store Date → List (Row V) → Row V → Bool
  is_accepted s rows row =
      is_none (first (λ r. r.id ≟ row.id) rows)
      && not (is_none (peripheral_by_id s.tables row.peripheral_id))
      && not (is_none (kit_by_id s.tables row.kit_id))
      && not (is_none (first (λ c. c.id == row.kit_configuration_id) s.tables.kit_configurations))
      && not (is_none (first (λ q. q == row.quantity_type_id) s.quantity_types))

  abbrev pub raw_row : RawMeasurement Date → KitIdAndConfigId → Row (RawValue Date)
  raw_row raw config = record {
    id = raw.id;
    peripheral_id = raw.peripheral;
    kit_id = config.kit_id;
    kit_configuration_id = config.config_id;
    quantity_type_id = raw.quantity_type;
    measured = (raw.value, raw.datetime);
  }

  abbrev pub aggregate_row : KitAggregate Date → KitIdAndConfigId → Row (AggregateValue Date)
  aggregate_row raw config = record {
    id = raw.id;
    peripheral_id = raw.peripheral;
    kit_id = config.kit_id;
    kit_configuration_id = config.config_id;
    quantity_type_id = raw.quantity_type;
    measured = (raw.datetime_start, raw.datetime_end, raw.values);
  }

  abbrev pub store_raw :
      Store Date
      → (now : ℕ) → RawMeasurement Date
      → Option KitIdAndConfigId
      → Result QueryError (Unit {0}) × Store Date
  store_raw s now raw none = (ok tt, s)
  store_raw s now raw (some config) =
      let row = raw_row raw config in
      if is_accepted s s.raw_measurements row
      then (
        ok tt,
        record s {
          raw_measurements = s.raw_measurements ++ row ∷ [];
          kit_last_seen = insert s.kit_last_seen config.kit_id now;
        },
      )
      else (err constraint_violated, s)

  abbrev pub store_aggregate :
      Store Date
      → (now : ℕ) → KitAggregate Date
      → Option KitIdAndConfigId
      → Result QueryError (Unit {0}) × Store Date
  store_aggregate s now raw none = (ok tt, s)
  store_aggregate s now raw (some config) =
      let row = aggregate_row raw config in
      if is_accepted s s.aggregate_measurements row
      then (
        ok tt,
        record s {
          aggregate_measurements = s.aggregate_measurements ++ row ∷ [];
          kit_last_seen = insert s.kit_last_seen config.kit_id now;
        },
      )
      else (err constraint_violated, s)

  -- Db::insert_raw
  unfoldable pub insert_raw :
      Store Date → (now : ℕ) → RawMeasurement Date → Result QueryError (Unit {0}) × Store Date
  unfolding config_and_kit
  insert_raw s now raw =
      let (config, s') = config_and_kit s raw.peripheral raw.kit_serial in
      store_raw s' now raw config

  -- Db::insert_aggregate
  unfoldable pub insert_aggregate :
      Store Date → (now : ℕ) → KitAggregate Date → Result QueryError (Unit {0}) × Store Date
  unfolding config_and_kit
  insert_aggregate s now raw =
      let (config, s') = config_and_kit s raw.peripheral raw.kit_serial in
      store_aggregate s' now raw config

  -- ingest: the tables after a message. An error is logged, and media are left to the API.
  unfoldable pub ingest : Store Date → (now : ℕ) → Message Date → Store Date
  unfolding insert_raw insert_aggregate
  ingest s now (of_raw raw) = (insert_raw s now raw).1
  ingest s now (of_aggregate raw) = (insert_aggregate s now raw).1
  ingest s now (of_media media) = s

-- The ids of peripherals, and those of their kits, were drawn from their sequences.
pub record HasKeys (db : Db) : Type 0 where
  pub peripheral_key :
      (id : ℕ) (p : Peripheral) → peripheral_by_id db id ≡ some p → id < db.next_peripheral_id
  pub kit_key :
      (id : ℕ) (p : Peripheral) → peripheral_by_id db id ≡ some p → p.kit_id < db.next_kit_id

-- What the API does to the tables: a peripheral with an id that was given away before was there before,
-- with the same kit and configuration, and so was a kit, with the same serial.
pub record Evolves (db db' : Db) : Type 0 where
  pub keys : HasKeys db'
  pub next : db.next_peripheral_id ≤ db'.next_peripheral_id
  pub next_kit : db.next_kit_id ≤ db'.next_kit_id
  pub peripherals :
      (id : ℕ) (p : Peripheral)
      → id < db.next_peripheral_id
      → peripheral_by_id db' id ≡ some p
      → (q : Peripheral) × (peripheral_by_id db id ≡ some q)
        × (q.kit_id ≡ p.kit_id)
        × (q.kit_configuration_id ≡ p.kit_configuration_id)
  pub kits :
      (id : ℕ) (k : Kit)
      → id < db.next_kit_id
      → kit_by_id db' id ≡ some k
      → (l : Kit) × (kit_by_id db id ≡ some l) × (l.serial ≡ k.serial)

-- The server, step by step: a message is ingested, or the API changes the tables, and the rows of
-- peripherals that are deleted are deleted.
pub data Step {Date : Type 0} : Store Date → Store Date → Type 0 where
  ingests : (s : Store Date) (now : ℕ) (m : Message Date) → Step s (ingest s now m)
  evolves :
      (s : Store Date) (db : Db)
      → Evolves s.tables db
      → Step s (record s {
        tables = db;
        raw_measurements =
            keep (λ r. not (is_none (peripheral_by_id db r.peripheral_id))) s.raw_measurements;
        aggregate_measurements =
            keep
              (λ r. not (is_none (peripheral_by_id db r.peripheral_id)))
              s.aggregate_measurements;
      })

pub data Steps {Date : Type 0} : Store Date → Store Date → Type 0 where
  done : (s : Store Date) → Steps s s
  after_step : (s t u : Store Date) → Step s t → Steps t u → Steps s u
