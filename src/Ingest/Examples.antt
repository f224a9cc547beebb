-- ===== src/Ingest/Examples.antt =====
-- A peripheral of the sample's kit measures something.
use astroplant_api.Prelude.{
  ℕ, subst, ◌∙◌, ◌≡◌, refl, ap, sym, some, none, [], ◌∷◌, codes, true, false, Bool-cases, inl, inr,
  ==_iff, ◌==◌, arith,
}
use astroplant_api.Prelude.Equality.{nat_eq, list_eq}
use astroplant_api.Prelude.Map.{Map, empty, get, insert, get-empty, get-insert}
use astroplant_api.Api.Models.{KitConfiguration, Peripheral}
use astroplant_api.Api.Database.{Db}
use astroplant_api.Api.Sample.{small, garden}
use astroplant_api.Api.Configurations.Table.{peripheral_by_id}
use astroplant_api.Mqtt.Publications.{RawMeasurement, of_raw}
use astroplant_api.Ingest.{
  KitAndConfigId, Store, if_of_kit, store_raw, HasKeys, Evolves, Steps, evolves, raw_row,
  get_config_and_kit, filled, config_and_kit, insert_raw, ingest, ingests, done, after_step,
}
use astroplant_api.Ingest.Cache.{IsSound, IsStart}
use astroplant_api.Ingest.Attribution.{Steps-IsSound, insert_raw_lem}

abbrev soil : Peripheral
soil = record {
  id = 3;
  kit_id = 0;
  kit_configuration_id = 4;
  peripheral_definition_id = 0;
  name = [];
  configuration = [];
}

abbrev plan : KitConfiguration
plan = record {
  id = 4;
  kit_id = 0;
  description = none;
  controller_symbol_location = [];
  controller_symbol = [];
  control_rules = [];
  active = true;
  first_activated_at = some 1;
  never_used = false;
  created_at = 0;
  updated_at = 0;
}

abbrev measuring : Db
measuring = record small {
  kit_configurations = plan ∷ [];
  peripherals = soil ∷ [];
  next_configuration_id = 5;
  next_peripheral_id = 4;
}

abbrev start : Store ℕ
start = record {
  tables = measuring;
  quantity_types = 8 ∷ [];
  raw_measurements = [];
  aggregate_measurements = [];
  kit_last_seen = empty;
  config_cache = empty;
}

only_soil :
    (id : ℕ) (p : Peripheral) → peripheral_by_id measuring id ≡ some p → (id ≡ 3) × (p.kit_id ≡ 0)
only_soil id p h = elim (Bool-cases (3 == id)) [
  | inl here ↦
      let same : soil ≡ p = cc (rw here at h) in
      (sym ((==_iff 3 id).0 here), ap (λ q. q.kit_id) (sym same))
  | inr other ↦ absurd (cc (rw other at h))
]

measuring-HasKeys : HasKeys measuring
measuring-HasKeys = record {
  peripheral_key = λ id p h. let (here, kit) = only_soil id p h in omega (arith, here);
  kit_key = λ id p h. let (here, kit) = only_soil id p h in omega (arith, kit);
}

start-IsStart : IsStart start
start-IsStart = record { keys = measuring-HasKeys; nothing = refl; raw = tt; aggregates = tt }

abbrev wet : RawMeasurement ℕ
wet = record {
  id = codes "a";
  kit_serial = garden.serial;
  datetime = 9;
  peripheral = 3;
  quantity_type = 8;
  value = 70;
}

-- The same peripheral measures again, when the cache remembers it.
abbrev wetter : RawMeasurement ℕ
wetter = record wet { id = codes "b"; datetime = 11; value = 75 }

abbrev of_garden : KitAndConfigId
of_garden = record { kit_serial = garden.serial; kit_id = 0; config_id = 4 }

abbrev remembering : Store ℕ
remembering = record start {
  raw_measurements = raw_row wet (record { kit_id = 0; config_id = 4 }) ∷ [];
  kit_last_seen = insert empty 0 10;
  config_cache = insert empty 3 of_garden;
}

-- The cache after a lookup, if it knew the peripheral and if it did not.
filled_known :
    (db : Db) (cache : Map ℕ KitAndConfigId) (id : ℕ) (e : KitAndConfigId)
    → get cache id ≡ some e
    → filled db cache id ≡ cache
unfolding filled
filled_known db cache id e known = rw known refl

filled_new :
    (db : Db) (cache : Map ℕ KitAndConfigId) (id : ℕ) (e : KitAndConfigId)
    → get cache id ≡ none
    → get_config_and_kit db id ≡ some e
    → filled db cache id ≡ insert cache id e
unfolding filled
filled_new db cache id e unknown found = rw (unknown, found) refl

-- An ingested message, when it is known what the lookup does to the cache and finds.
ingested :
    (s u : Store ℕ) (now : ℕ) (raw : RawMeasurement ℕ) (cache : Map ℕ KitAndConfigId)
    (e : KitAndConfigId)
    → filled s.tables s.config_cache raw.peripheral ≡ cache
    → get cache raw.peripheral ≡ some e
    → Steps
        (store_raw
          (record s { config_cache = cache })
          now
          raw
          (if_of_kit raw.kit_serial (some e))).1
        u
    → Steps s u
unfolding ingest insert_raw config_and_kit
ingested s u now raw cache e is_filled found rest =
    after_step s (ingest s now (of_raw raw)) u (ingests s now (of_raw raw)) (
      subst (λ t. Steps t u)
        (sym (
          ap
            (λ c.
              (store_raw (record s { config_cache = c }) now raw
                (if_of_kit raw.kit_serial (get c raw.peripheral))).1)
            is_filled
          ∙ ap
              (λ o.
                (store_raw (record s { config_cache = cache }) now raw
                  (if_of_kit raw.kit_serial o)).1)
              found))
        rest)

first_message : (u : Store ℕ) → Steps remembering u → Steps start u
unfolding get_config_and_kit
first_message u rest =
    ingested start u 10 wet (insert empty 3 of_garden) of_garden
      (filled_new measuring empty 3 of_garden (get-empty 3) refl) (get-insert empty 3 3 of_garden)
      rest

-- The row is stored after the first.
insert_raw_lem_example : (insert_raw remembering 12 wetter).1.raw_measurements ≡ (
    raw_row wet (record { kit_id = 0; config_id = 4 })
    ∷ raw_row wetter (record { kit_id = 0; config_id = 4 })
    ∷ [])
insert_raw_lem_example =
    insert_raw_lem 12 wetter soil garden start-IsStart
      (first_message remembering (done remembering)) refl refl

-- The API deletes the peripheral, and adds another.
abbrev light : Peripheral
light = record soil { id = 4 }

abbrev replaced : Db
replaced = record measuring { peripherals = light ∷ []; next_peripheral_id = 5 }

only_light :
    (id : ℕ) (p : Peripheral) → peripheral_by_id replaced id ≡ some p → (id ≡ 4) × (p.kit_id ≡ 0)
only_light id p h = elim (Bool-cases (4 == id)) [
  | inl here ↦
      let same : light ≡ p = cc (rw here at h) in
      (sym ((==_iff 4 id).0 here), ap (λ q. q.kit_id) (sym same))
  | inr other ↦ absurd (cc (rw other at h))
]

replaced-Evolves : Evolves measuring replaced
replaced-Evolves = record {
  keys = record {
    peripheral_key = λ id p h. let (here, kit) = only_light id p h in omega (arith, here);
    kit_key = λ id p h. let (here, kit) = only_light id p h in omega (arith, kit);
  };
  next = omega arith;
  next_kit = omega arith;
  peripherals =
      λ id p old h. let (here, kit) = only_light id p h in absurd (omega (arith, here, old));
  kits = λ id k old h. (k, h, refl);
}

abbrev after_api : Store ℕ
after_api = record remembering { tables = replaced; raw_measurements = [] }

abbrev bright : RawMeasurement ℕ
bright = record wetter { peripheral = 4 }

-- A message of the first peripheral comes late: the cache remembers that, and the database refuses the row.
late_message : (u : Store ℕ) → Steps after_api u → Steps after_api u
late_message u rest =
    ingested after_api u 13 wetter (insert empty 3 of_garden) of_garden
      (filled_known replaced (insert empty 3 of_garden) 3 of_garden
        (get-insert empty 3 3 of_garden))
      (get-insert empty 3 3 of_garden) rest

abbrev at_the_end : Store ℕ
at_the_end = record after_api {
  raw_measurements = raw_row bright (record { kit_id = 0; config_id = 4 }) ∷ [];
  kit_last_seen = insert (insert empty 0 10) 0 14;
  config_cache = insert (insert empty 3 of_garden) 4 of_garden;
}

last_message : Steps after_api at_the_end
unfolding get_config_and_kit
last_message =
    let cache = insert empty 3 of_garden in
    ingested after_api at_the_end 14 bright (insert cache 4 of_garden) of_garden
      (filled_new replaced cache 4 of_garden (get-insert empty 3 4 of_garden ∙ get-empty 4) refl)
      (get-insert cache 4 4 of_garden) (done at_the_end)

to_the_end : Steps start at_the_end
to_the_end = first_message at_the_end (
    after_step remembering after_api at_the_end (evolves remembering replaced replaced-Evolves)
      (late_message at_the_end last_message))

Steps-IsSound_example : IsSound at_the_end
Steps-IsSound_example = Steps-IsSound to_the_end start-IsStart
