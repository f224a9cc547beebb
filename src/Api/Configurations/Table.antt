-- ===== src/Api/Configurations/Table.antt =====
-- The tables `kit_configurations` and `peripherals`: astroplant-api/src/models/kit_configuration.rs
-- and peripheral.rs, with the triggers, the generated column and the constraints of migrations/.
use astroplant_api.Prelude.{
  is_none, value_or, ℕ, ◌+◌, Text, Bool, true, false, ◌&&◌, Option, none, some, List, [], ◌∷◌, ◌++◌,
  map, ◌==◌, leb, if◌then◌else◌, first, keep, count, ok, err, codes,
}
use astroplant_api.Prelude.Equality.{nat_eq, list_eq}
use astroplant_api.Api.Problem.{generic, not_found, internal_server_error}
use astroplant_api.Api.Models.{Json, KitConfiguration, Peripheral}
use astroplant_api.Api.Database.{Db, Tx}

-- KitConfiguration::by_id
abbrev pub configuration_by_id : Db → ℕ → Option KitConfiguration
configuration_by_id db id = first (λ c. c.id == id) db.kit_configurations

-- KitConfiguration::active_configuration_of_kit_id
abbrev pub active_configuration_of_kit_id : Db → ℕ → Option KitConfiguration
active_configuration_of_kit_id db kit_id =
    first (λ c. c.kit_id == kit_id && c.active) db.kit_configurations

-- The triggers of an UPDATE, and the column that is generated from the result: a row that becomes
-- active keeps the time of its first activation.
unfoldable pub on_update : ℕ → KitConfiguration → KitConfiguration
on_update now c =
    let first_activated_at =
      if c.active && is_none c.first_activated_at then some now else c.first_activated_at in
    record c {
      first_activated_at = first_activated_at;
      never_used = is_none first_activated_at;
      updated_at = now;
    }

-- KitConfiguration::deactivate_all_of_kit_id
unfoldable pub deactivate_all_of_kit_id : Db → (now kit_id : ℕ) → Db
unfolding on_update
deactivate_all_of_kit_id db now kit_id = record db {
  kit_configurations =
      map (λ c. if c.kit_id == kit_id then on_update now (record c { active = false }) else c)
        db.kit_configurations;
}

-- `None` leaves a column as it is.
pub record UpdateKitConfiguration : Type 0 where
  pub id : ℕ
  pub description : Option (Option Text)
  pub controller_symbol_location : Option Text
  pub controller_symbol : Option Text
  pub control_rules : Option Json
  pub active : Option Bool

abbrev pub is_noop : UpdateKitConfiguration → Bool
is_noop patch =
    is_none patch.description
    && is_none patch.controller_symbol_location
    && is_none patch.controller_symbol
    && is_none patch.control_rules
    && is_none patch.active

unfoldable pub changed : UpdateKitConfiguration → KitConfiguration → KitConfiguration
changed patch c = record c {
  description = value_or patch.description c.description;
  controller_symbol_location =
      value_or patch.controller_symbol_location c.controller_symbol_location;
  controller_symbol = value_or patch.controller_symbol c.controller_symbol;
  control_rules = value_or patch.control_rules c.control_rules;
  active = value_or patch.active c.active;
}

abbrev pub is_active_of : ℕ → KitConfiguration → Bool
is_active_of kit_id c = c.kit_id == kit_id && c.active

unfoldable pub updated :
    (now : ℕ) → UpdateKitConfiguration → List KitConfiguration → List KitConfiguration
unfolding on_update changed
updated now patch = map (λ c. if c.id == patch.id then on_update now (changed patch c) else c)

-- UpdateKitConfiguration::update: a statement with no change is refused, and so is a second active
-- configuration of a kit (ix_kit_configurations_active_kit_id).
unfoldable pub update_configuration : Db → (now : ℕ) → UpdateKitConfiguration → Tx KitConfiguration
unfolding updated
update_configuration db now patch =
    let rows = updated now patch db.kit_configurations in
    if is_noop patch
    then err (generic internal_server_error)
    else elim (first (λ c. c.id == patch.id) rows) [
      | none ↦ err (generic not_found)
      | some c ↦
          if leb 2 (count (is_active_of c.kit_id) rows)
          then err (generic internal_server_error)
          else ok (c, record db { kit_configurations = rows })
    ]

pub record NewKitConfiguration : Type 0 where
  pub kit_id : ℕ
  pub description : Option Text
  pub controller_symbol_location : Text
  pub controller_symbol : Text
  pub control_rules : Json

-- NewKitConfiguration::new
abbrev pub new_configuration : ℕ → Option Text → NewKitConfiguration
new_configuration kit_id description = record {
  kit_id = kit_id;
  description = description;
  controller_symbol_location = codes "astroplant_kit.controller";
  controller_symbol = codes "AstroplantControllerV1";
  control_rules = codes "{}";
}

-- NewKitConfiguration::create: the columns that are not given take their defaults.
unfoldable pub created : Db → (now : ℕ) → NewKitConfiguration → KitConfiguration
created db now new = record {
  id = db.next_configuration_id;
  kit_id = new.kit_id;
  description = new.description;
  controller_symbol_location = new.controller_symbol_location;
  controller_symbol = new.controller_symbol;
  control_rules = new.control_rules;
  active = false;
  first_activated_at = none;
  never_used = true;
  created_at = now;
  updated_at = now;
}

unfoldable pub insert_configuration : Db → KitConfiguration → Db
insert_configuration db c = record db {
  kit_configurations = db.kit_configurations ++ c ∷ [];
  next_configuration_id = db.next_configuration_id + 1;
}

-- Peripheral::by_id
abbrev pub peripheral_by_id : Db → ℕ → Option Peripheral
peripheral_by_id db id = first (λ p. p.id == id) db.peripherals

-- Peripheral::peripherals_of_kit_configuration_id
abbrev pub peripherals_of : ℕ → List Peripheral → List Peripheral
peripherals_of configuration_id = keep (λ p. p.kit_configuration_id == configuration_id)

-- The rows of Peripheral::clone_all_to_new_configuration, with the ids that the sequence gives. The
-- query that selects them has no order. The order of the table stands for it: another order would deal
-- out the same ids to the copies differently.
unfoldable pub clones : (next kit_id configuration_id : ℕ) → List Peripheral → List Peripheral
clones next kit_id configuration_id [] = []
clones next kit_id configuration_id (p ∷ ps) =
    record p { id = next; kit_id = kit_id; kit_configuration_id = configuration_id }
    ∷ clones (next + 1) kit_id configuration_id ps

unfoldable pub clone_all_to_new_configuration : Db → (from to_kit to_configuration : ℕ) → Db
unfolding clones
clone_all_to_new_configuration db from to_kit to_configuration =
    let sources = peripherals_of from db.peripherals in
    record db {
      peripherals = db.peripherals ++ clones db.next_peripheral_id to_kit to_configuration sources;
      next_peripheral_id = db.next_peripheral_id + count (λ _. true) sources;
    }
