-- ===== src/Api/Configurations/Handlers.antt =====
-- astroplant-api/src/controllers/kit_configuration/kit_configuration.rs and mod.rs: the routes that
-- create, clone and change a configuration.
use astroplant_api.Prelude.{
  is_none, ℕ, Text, Bool, not, ◌&&◌, ◌||◌, Option, none, some, [], ◌++◌, ◌==◌, bool_eq,
  if◌then◌else◌, ok, err, ok_or, ◌>>=◌, ◌>>◌, codes,
}
use astroplant_api.Api.Problem.{
  Problem, AppResult, generic, not_found, internal_server_error, bad_request, already_activated,
  singleton,
}
use astroplant_api.Api.Models.{User, Json, Kit, KitMembership, KitConfiguration}
use astroplant_api.Api.Database.{Db, Tx}
use astroplant_api.Api.Authorization.{KitAction, view, edit_configuration}
use astroplant_api.Api.Helpers.{kit_by_id, fut_kit_permission_or_forbidden}
use astroplant_api.Api.Configurations.Table.{
  configuration_by_id, deactivate_all_of_kit_id, UpdateKitConfiguration, update_configuration,
  NewKitConfiguration, new_configuration, created, insert_configuration,
  clone_all_to_new_configuration,
}

-- get_models_from_kit_configuration_id
unfoldable pub get_models_from_kit_configuration_id : Db → ℕ → AppResult (Kit × KitConfiguration)
get_models_from_kit_configuration_id db id = do
  configuration ← ok_or (configuration_by_id db id) (generic not_found)
  kit ← ok_or (kit_by_id db configuration.kit_id) (generic internal_server_error)
  ok (kit, configuration)

-- authorize
unfoldable pub authorize :
    Db → Option ℕ → Kit → KitAction → AppResult (Option User × Option KitMembership)
authorize db user_id kit action = do
  granted ← fut_kit_permission_or_forbidden db user_id kit.serial action
  ok (granted.0, granted.1)

-- create_new_configuration
unfoldable pub create_new_configuration : Db → (now : ℕ) → Kit → Option Text → Tx KitConfiguration
unfolding created insert_configuration
create_new_configuration db now kit description =
    let c = created db now (new_configuration kit.id description) in
    ok (c, insert_configuration db c)

module _ (print_id : ℕ → Text) where
  -- The description of a copy.
  unfoldable pub copy_of : KitConfiguration → Text
  copy_of c =
      codes "Copy of #"
      ++ (print_id c.id ++ elim c.description [ none ↦ [] | some d ↦ codes " - " ++ d ])

  -- The copy of a configuration, with its peripherals.
  unfoldable pub copy_configuration : Db → (now : ℕ) → Kit → KitConfiguration → Tx KitConfiguration
  unfolding copy_of created insert_configuration
  copy_configuration db now kit source =
      let new : NewKitConfiguration = record {
        kit_id = kit.id;
        description = some (copy_of source);
        controller_symbol_location = source.controller_symbol_location;
        controller_symbol = source.controller_symbol;
        control_rules = source.control_rules;
      } in
      let c = created db now new in
      ok (c, clone_all_to_new_configuration (insert_configuration db c) source.id kit.id c.id)

  -- clone_configuration
  unfoldable pub clone_configuration :
      Db → (now : ℕ) → (user_id : Option ℕ) → Kit → (id : ℕ) → Tx KitConfiguration
  clone_configuration db now user_id kit id = do
    from ← get_models_from_kit_configuration_id db id
    let (from_kit, source) = from
    (if kit.id == from_kit.id then ok (none, none) else authorize db user_id from_kit view)
    copy_configuration db now kit source

  -- Exactly one of the two must be given.
  unfoldable pub new_or_clone :
      Db
      → (now : ℕ) → (user_id : Option ℕ) → Kit
      → Option (Option Text)
      → Option ℕ
      → Tx KitConfiguration
  new_or_clone db now user_id kit none none = err (generic bad_request)
  new_or_clone db now user_id kit (some _) (some _) = err (generic bad_request)
  new_or_clone db now user_id kit (some description) none =
      create_new_configuration db now kit description
  new_or_clone db now user_id kit none (some source) = clone_configuration db now user_id kit source

  -- create_configuration: a description in the body, or the id of a source in the query.
  unfoldable pub create_configuration :
      Db
      → (now : ℕ) → (user_id : Option ℕ) → (kit_serial : Text)
      → (configuration : Option (Option Text)) → (query : Option ℕ) → Tx KitConfiguration
  unfolding new_or_clone
  create_configuration db now user_id kit_serial configuration query = do
    granted ← fut_kit_permission_or_forbidden db user_id kit_serial edit_configuration
    new_or_clone db now user_id granted.2 configuration query

pub record KitConfigurationPatch : Type 0 where
  pub description : Option (Option Text)
  pub controller_symbol_location : Option Text
  pub controller_symbol : Option Text
  pub control_rules : Option Json
  pub active : Option Bool

-- Whether a patch changes the rules or what supervises them.
abbrev pub changes_rules : KitConfigurationPatch → Bool
changes_rules patch =
    not (is_none patch.controller_symbol_location)
    || not (is_none patch.controller_symbol)
    || not (is_none patch.control_rules)

-- The state in which the update runs: setting a configuration active, or the active one inactive,
-- deactivates all of the kit's.
unfoldable pub deactivated : Db → (now : ℕ) → Kit → KitConfiguration → Option Bool → Db
deactivated db now kit configuration none = db
deactivated db now kit configuration (some active) =
    if bool_eq active configuration.active then db else deactivate_all_of_kit_id db now kit.id

-- The problem of an operation on a configuration that was used.
abbrev pub already_used : Problem
already_used = singleton already_activated (codes "configurationId")

abbrev pub update_of : KitConfiguration → KitConfigurationPatch → UpdateKitConfiguration
update_of c patch = record {
  id = c.id;
  description = patch.description;
  controller_symbol_location = patch.controller_symbol_location;
  controller_symbol = patch.controller_symbol;
  control_rules = patch.control_rules;
  active = patch.active;
}

-- patch_configuration
unfoldable pub patch_configuration :
    Db → (now : ℕ) → (user_id : Option ℕ) → (id : ℕ) → KitConfigurationPatch → Tx KitConfiguration
unfolding deactivated
patch_configuration db now user_id id patch = do
  found ← get_models_from_kit_configuration_id db id
  let (kit, configuration) = found
  authorize db user_id kit edit_configuration
  if not configuration.never_used && changes_rules patch
      then err already_used
      else update_configuration (deactivated db now kit configuration patch.active) now
          (update_of configuration patch)
