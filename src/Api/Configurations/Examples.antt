-- ===== src/Api/Configurations/Examples.antt =====
-- Requests on the configurations of a small database.
use astroplant_api.Prelude.{
  ℕ, ◌≡◌, refl, Bool, Text, true, false, Option, none, some, List, [], ◌∷◌, ◌++◌, ok, arith, codes,
  count,
}
use astroplant_api.Prelude.Equality.{nat_eq, list_eq}
use astroplant_api.Api.Models.{Json, KitConfiguration, Peripheral}
use astroplant_api.Api.Database.{Db}
use astroplant_api.Api.Authorization.{kit_permitted}
use astroplant_api.Api.Helpers.{kit_permission_or_forbidden, fut_kit_permission_or_forbidden}
use astroplant_api.Api.Sample.{person, garden, owner, small}
use astroplant_api.Api.Configurations.Table.{
  configuration_by_id, is_active_of, on_update, changed, updated, deactivate_all_of_kit_id,
  update_configuration, created, insert_configuration, clones, clone_all_to_new_configuration,
}
use astroplant_api.Api.Configurations.Handlers.{
  KitConfigurationPatch, get_models_from_kit_configuration_id, authorize, deactivated,
  patch_configuration, copy_of, copy_configuration, clone_configuration,
}
use astroplant_api.Api.Configurations.Cloned.{IsCopy, clone-IsCopy}
use astroplant_api.Api.Configurations.Active.{IsValid}
use astroplant_api.Api.Configurations.Activation.{patch-activates, patch-succeeds}
use astroplant_api.Api.Configurations.Frozen.{FrozenOrGone}
use astroplant_api.Api.Configurations.Sound.{IsSound}
use astroplant_api.Api.Configurations.Requests.{Request, creates, patches, deletes_peripheral, run}
use astroplant_api.Api.Configurations.Steps.{run-IsSound}
use astroplant_api.Api.Configurations.Used.{run-Frozen}

abbrev configuration : (id : ℕ) → Bool → Option ℕ → Bool → KitConfiguration
configuration id active first_activated_at never_used = record {
  id = id;
  kit_id = 0;
  description = none;
  controller_symbol_location = codes "astroplant_kit.controller";
  controller_symbol = codes "AstroplantControllerV1";
  control_rules = codes "{}";
  active = active;
  first_activated_at = first_activated_at;
  never_used = never_used;
  created_at = 0;
  updated_at = 0;
}

abbrev thermometer : Peripheral
thermometer = record {
  id = 0;
  kit_id = 0;
  kit_configuration_id = 0;
  peripheral_definition_id = 0;
  name = codes "thermometer";
  configuration = codes "{}";
}

-- A kit with a configuration in use, and one that was never used.
abbrev pub farm : Db
farm = record small {
  kit_configurations = configuration 0 true (some 1) false ∷ configuration 1 false none true ∷ [];
  peripherals = thermometer ∷ [];
  peripheral_definitions = record { id = 0; configuration_schema = codes "{}" } ∷ [];
  next_configuration_id = 2;
  next_peripheral_id = 1;
}

farm-IsValid : IsValid farm
farm-IsValid = record {
  unique = omega arith;
  fresh = omega arith;
  one_active = λ k. ground arith;
  consistent = (ground arith, (ground arith, tt));
}

farm-IsSound : IsSound farm
farm-IsSound = record { valid = farm-IsValid; unique = omega arith; fresh = omega arith }

abbrev activation : KitConfigurationPatch
activation = record {
  description = none;
  controller_symbol_location = none;
  controller_symbol = none;
  control_rules = none;
  active = some true;
}

abbrev new_rules : KitConfigurationPatch
new_rules = record activation { control_rules = some (codes "[]"); active = none }

abbrev activated : KitConfiguration
activated = record (configuration 1 true (some 7) false) { updated_at = 7 }

abbrev after_activation : Db
after_activation = record farm {
  kit_configurations =
      record (configuration 0 false (some 1) false) { updated_at = 7 } ∷ activated ∷ [];
}

activates : patch_configuration farm 7 (some 1) 1 activation ≡ ok (activated, after_activation)
unfolding patch_configuration get_models_from_kit_configuration_id authorize deactivated
    deactivate_all_of_kit_id update_configuration updated on_update changed
    fut_kit_permission_or_forbidden kit_permission_or_forbidden kit_permitted
activates = refl

patch-activates_example :
    (configuration_by_id after_activation 1 ≡ some activated)
    × (true ≡ true)
    × (false ≡ false)
    × (count (is_active_of 0) after_activation.kit_configurations ≡ 1)
patch-activates_example =
    patch-activates farm 7 (some 1) 1 activation activated after_activation farm-IsValid refl
      activates

patch-succeeds_example :
    (c' : KitConfiguration) × (db' : Db) × (patch_configuration farm 7 (some 1) 1 new_rules
      ≡ ok (c', db'))
unfolding get_models_from_kit_configuration_id authorize fut_kit_permission_or_forbidden
    kit_permission_or_forbidden kit_permitted
patch-succeeds_example =
    patch-succeeds farm 7 (some 1) 1 new_rules garden (configuration 1 false none true)
      (some (person 1), some owner) farm-IsValid refl refl refl refl

-- Changes of the used configuration, which are refused, and one that switches it off.
abbrev attempts : List (ℕ × Request)
attempts =
    (5, patches (some 1) 0 new_rules)
    ∷ (6, patches (some 1) 1 activation)
    ∷ (7, deletes_peripheral (some 1) 0)
    ∷ (8, creates (some 2) (codes "k-garden") none (some 0))
    ∷ []

abbrev print_id : ℕ → Text
print_id id = id ∷ []

abbrev always : Json → Json → Option Bool
always _ _ = some true

run-IsSound_example : IsSound (run print_id always farm attempts)
run-IsSound_example = run-IsSound print_id always farm attempts farm-IsSound

run-Frozen_example :
    FrozenOrGone 0
      (configuration 0 true (some 1) false)
      (thermometer ∷ [])
      (run print_id always farm attempts)
run-Frozen_example =
    run-Frozen print_id always 0 (configuration 0 true (some 1) false) farm attempts farm-IsSound
      refl refl

-- A copy of the used configuration, made by a member of the kit.
abbrev new_copy : KitConfiguration
new_copy = record (configuration 2 false none true) {
  description = some (codes "Copy of #" ++ 0 ∷ []);
  created_at = 8;
  updated_at = 8;
}

abbrev after_clone : Db
after_clone = record farm {
  kit_configurations = farm.kit_configurations ++ new_copy ∷ [];
  peripherals = thermometer ∷ record thermometer { id = 1; kit_configuration_id = 2 } ∷ [];
  next_configuration_id = 3;
  next_peripheral_id = 2;
}

clone_runs : clone_configuration print_id farm 8 (some 1) garden 0 ≡ ok (new_copy, after_clone)
unfolding clone_configuration copy_configuration copy_of created insert_configuration
    clone_all_to_new_configuration clones get_models_from_kit_configuration_id
clone_runs = refl

clone-IsCopy_example :
    (source : KitConfiguration) × (configuration_by_id farm 0 ≡ some source)
    × IsCopy farm garden source new_copy after_clone
clone-IsCopy_example =
    clone-IsCopy print_id farm 8 (some 1) garden 0 new_copy after_clone (omega arith, tt) clone_runs
