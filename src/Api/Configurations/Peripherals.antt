-- ===== src/Api/Configurations/Peripherals.antt =====
-- astroplant-api/src/controllers/kit_configuration/peripheral.rs: the peripherals of a
-- configuration. A JSON schema is compiled and run by a library; `valid schema document` is none
-- if the schema does not compile, and otherwise whether the document is strictly valid.
use astroplant_api.Prelude.{
  value_or, is_none, ℕ, ◌+◌, Text, Bool, not, ◌&&◌, Option, none, some, [], ◌∷◌, ◌++◌, map, ◌==◌,
  leb, if◌then◌else◌, first, keep, all, length, ok, err, ok_or, ◌>>=◌, ◌>>◌, codes, guard,
}
use astroplant_api.Prelude.Equality.{nat_eq, list_eq}
use astroplant_api.Api.Problem.{
  AppResult, generic, not_found, internal_server_error, singleton, must_have_length_between,
  parameter_not_found, other,
}
use astroplant_api.Api.Models.{Json, Kit, KitConfiguration, Peripheral, PeripheralDefinition}
use astroplant_api.Api.Database.{Db, Tx}
use astroplant_api.Api.Authorization.{edit_configuration}
use astroplant_api.Api.Helpers.{kit_by_id}
use astroplant_api.Api.Configurations.Table.{configuration_by_id, peripheral_by_id}
use astroplant_api.Api.Configurations.Handlers.{
  get_models_from_kit_configuration_id, authorize, already_used,
}

-- get_models_from_peripheral_id
unfoldable pub get_models_from_peripheral_id :
    Db → ℕ → AppResult (Kit × KitConfiguration × Peripheral)
get_models_from_peripheral_id db id = do
  peripheral ← ok_or (peripheral_by_id db id) (generic not_found)
  kit ← ok_or (kit_by_id db peripheral.kit_id) (generic internal_server_error)
  configuration ←
      ok_or (configuration_by_id db peripheral.kit_configuration_id) (generic internal_server_error)
  ok (kit, configuration, peripheral)

-- `#[validate(length(min = 1, max = 40))]` on a name.
abbrev pub valid_name : Text → Bool
valid_name name = leb 1 (length name) && leb (length name) 40

abbrev pub check_name : Text → AppResult (Unit {0})
check_name name =
    guard (valid_name name) (singleton (must_have_length_between (some 1) (some 40)) (codes "name"))

abbrev pub check_new_name : Option Text → AppResult (Unit {0})
check_new_name none = ok tt
check_new_name (some name) = check_name name

-- PeripheralDefinition::by_id
abbrev pub definition_by_id : Db → ℕ → Option PeripheralDefinition
definition_by_id db id = first (λ d. d.id == id) db.peripheral_definitions

pub record NewPeripheral : Type 0 where
  pub peripheral_definition_id : ℕ
  pub name : Text
  pub configuration : Json

-- NewPeripheral::create
unfoldable pub insert_peripheral : Db → Kit → KitConfiguration → NewPeripheral → Peripheral × Db
insert_peripheral db kit configuration new =
    let p : Peripheral = record {
      id = db.next_peripheral_id;
      kit_id = kit.id;
      kit_configuration_id = configuration.id;
      peripheral_definition_id = new.peripheral_definition_id;
      name = new.name;
      configuration = new.configuration;
    } in
    (
      p,
      record db {
        peripherals = db.peripherals ++ p ∷ [];
        next_peripheral_id = db.next_peripheral_id + 1;
      },
    )

pub record PeripheralPatch : Type 0 where
  pub name : Option Text
  pub configuration : Option Json

unfoldable pub changed_peripheral : PeripheralPatch → Peripheral → Peripheral
changed_peripheral patch p = record p {
  name = value_or patch.name p.name;
  configuration = value_or patch.configuration p.configuration;
}

-- UpdatePeripheral::update: a statement with no change is refused.
unfoldable pub update_peripheral : Db → Peripheral → PeripheralPatch → Tx Peripheral
unfolding changed_peripheral
update_peripheral db p patch =
    if is_none patch.name && is_none patch.configuration
    then err (generic internal_server_error)
    else ok (
      changed_peripheral patch p,
      record db {
        peripherals =
            map (λ q. if q.id == p.id then changed_peripheral patch q else q) db.peripherals;
      },
    )

-- Peripheral::delete: media that hang on the peripheral keep it (media_peripheral_id_fkey).
unfoldable pub remove_peripheral : Db → ℕ → Tx (Unit {0})
remove_peripheral db id =
    if all (λ m. not (m.peripheral_id == id)) db.media
    then ok (tt, record db { peripherals = keep (λ p. not (p.id == id)) db.peripherals })
    else err (generic internal_server_error)

module _ (valid : Json → Json → Option Bool) where
  -- check_configuration
  unfoldable pub check_configuration : Json → PeripheralDefinition → AppResult (Unit {0})
  check_configuration configuration definition =
      elim (valid definition.configuration_schema configuration) [
        | none ↦ err (generic internal_server_error)
        | some strictly ↦ guard strictly (singleton other (codes "configuration"))
      ]

  pub check_patch : Option Json → PeripheralDefinition → AppResult (Unit {0})
  unfolding check_configuration
  check_patch none definition = ok tt
  check_patch (some configuration) definition = check_configuration configuration definition

  -- add_peripheral_to_configuration
  unfoldable pub add_peripheral_to_configuration :
      Db → (user_id : Option ℕ) → (configuration_id : ℕ) → NewPeripheral → Tx Peripheral
  add_peripheral_to_configuration db user_id configuration_id new = do
    found ← get_models_from_kit_configuration_id db configuration_id
    let (kit, configuration) = found
    authorize db user_id kit edit_configuration
    guard configuration.never_used already_used
    check_name new.name
    definition ←
        ok_or (definition_by_id db new.peripheral_definition_id)
          (singleton parameter_not_found (codes "peripheralDefinitionId"))
    check_configuration new.configuration definition
    ok (insert_peripheral db kit configuration new)

  -- patch_peripheral
  unfoldable pub patch_peripheral :
      Db → (user_id : Option ℕ) → (peripheral_id : ℕ) → PeripheralPatch → Tx Peripheral
  unfolding check_patch
  patch_peripheral db user_id peripheral_id patch = do
    found ← get_models_from_peripheral_id db peripheral_id
    let (kit, configuration, peripheral) = found
    authorize db user_id kit edit_configuration
    guard configuration.never_used already_used
    check_new_name patch.name
    definition ←
        ok_or (definition_by_id db peripheral.peripheral_definition_id)
          (generic internal_server_error)
    check_patch patch.configuration definition
    update_peripheral db peripheral patch

-- delete_peripheral
unfoldable pub delete_peripheral : Db → (user_id : Option ℕ) → (peripheral_id : ℕ) → Tx (Unit {0})
delete_peripheral db user_id peripheral_id = do
  found ← get_models_from_peripheral_id db peripheral_id
  let (kit, configuration, peripheral) = found
  authorize db user_id kit edit_configuration
  guard configuration.never_used already_used
  remove_peripheral db peripheral.id
