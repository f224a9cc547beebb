-- ===== src/Api/Configurations/Success.antt =====
-- What the routes on configurations and peripherals have checked when they succeed, and the state
-- that they leave.
use astroplant_api.Prelude.{
  ℕ, Text, ◌≡◌, sym, ◌∙◌, ap, Bool, true, Option, none, some, ◌==◌, if◌then◌else◌, ok, ◌⊎◌, inl,
  inr, >>=-eq-ok, ok_or-bind-eq-ok, guard-bind-eq-ok, subst,
}
use astroplant_api.Api.Models.{Json, Kit, KitConfiguration, Peripheral}
use astroplant_api.Api.Database.{Db}
use astroplant_api.Api.Authorization.{view, edit_configuration}
use astroplant_api.Api.Helpers.{kit_by_id, fut_kit_permission_or_forbidden}
use astroplant_api.Api.Configurations.Table.{
  configuration_by_id, peripheral_by_id, NewKitConfiguration, new_configuration, created,
  insert_configuration, clone_all_to_new_configuration,
}
use astroplant_api.Api.Configurations.Handlers.{
  get_models_from_kit_configuration_id, authorize, create_new_configuration, copy_of,
  copy_configuration, clone_configuration, new_or_clone, create_configuration,
}
use astroplant_api.Api.Configurations.Peripherals.{
  get_models_from_peripheral_id, NewPeripheral, insert_peripheral, PeripheralPatch,
  update_peripheral, remove_peripheral, check_name, check_new_name, definition_by_id,
  check_configuration, check_patch, add_peripheral_to_configuration, patch_peripheral,
  delete_peripheral,
}
use astroplant_api.Api.Configurations.Patching.{get_models-found}

-- A new configuration, or a copy with the peripherals of its source.
pub record Creates (db : Db) (now : ℕ) (c : KitConfiguration) (db' : Db) : Type 0 where
  pub new : NewKitConfiguration
  pub row : c ≡ created db now new
  pub state :
      (db' ≡ insert_configuration db c)
      ⊎ ((source : ℕ) × (db'
            ≡ clone_all_to_new_configuration (insert_configuration db c) source new.kit_id c.id))

module _ (print_id : ℕ → Text) where
  copy-Creates :
      (db : Db) (now : ℕ) (kit : Kit) (source c : KitConfiguration) (db' : Db)
      → copy_configuration print_id db now kit source ≡ ok (c, db')
      → Creates db now c db'
  unfolding copy_configuration
  copy-Creates db now kit source c db' h =
      let new : NewKitConfiguration = record {
        kit_id = kit.id;
        description = some (copy_of print_id source);
        controller_symbol_location = source.controller_symbol_location;
        controller_symbol = source.controller_symbol;
        control_rules = source.control_rules;
      } in
      let row : c ≡ created db now new = cc h in
      let state : db'
          ≡ clone_all_to_new_configuration (insert_configuration db (created db now new)) source.id
              kit.id (created db now new).id =
        cc h in
      record {
        new = new;
        row = row;
        state = inr (
          source.id,
          subst
              (λ d.
                db'
                ≡ clone_all_to_new_configuration (insert_configuration db d) source.id kit.id d.id)
              (sym row) state,
        );
      }

  -- What a clone has found: its source, in a kit that may be viewed.
  pub clone-copies :
      (db : Db) (now : ℕ) (user_id : Option ℕ) (kit : Kit) (id : ℕ) (c : KitConfiguration)
      (db' : Db)
      → clone_configuration print_id db now user_id kit id ≡ ok (c, db')
      → (source : KitConfiguration) × (configuration_by_id db id ≡ some source)
        × (copy_configuration print_id db now kit source ≡ ok (c, db'))
  unfolding clone_configuration
  clone-copies db now user_id kit id c db' h =
      let (m, models, h1) = >>=-eq-ok (get_models_from_kit_configuration_id db id) _ h in
      let (g, _, h2) =
        >>=-eq-ok (if kit.id == m.0.id then ok (none, none) else authorize db user_id m.0 view) _
          h1 in
      (m.1, (get_models-found db id m.0 m.1 models).0, h2)

  new_or_clone-Creates :
      (db : Db) (now : ℕ) (user_id : Option ℕ) (kit : Kit) (description : Option (Option Text))
      (source : Option ℕ) (c : KitConfiguration) (db' : Db)
      → new_or_clone print_id db now user_id kit description source ≡ ok (c, db')
      → Creates db now c db'
  unfolding new_or_clone create_new_configuration
  new_or_clone-Creates db now user_id kit none none c db' h = cc
  new_or_clone-Creates db now user_id kit (some _) (some _) c db' h = cc
  new_or_clone-Creates db now user_id kit (some d) none c db' h =
      let row : c ≡ created db now (new_configuration kit.id d) = cc h in
      let state : db' ≡ insert_configuration db (created db now (new_configuration kit.id d)) =
        cc h in
      record {
        new = new_configuration kit.id d;
        row = row;
        state = inl (state ∙ ap (insert_configuration db) (sym row));
      }
  new_or_clone-Creates db now user_id kit none (some id) c db' h =
      let (source, _, copied) = clone-copies db now user_id kit id c db' h in
      copy-Creates db now kit source c db' copied

  pub create-Creates :
      (db : Db) (now : ℕ) (user_id : Option ℕ) (serial : Text) (description : Option (Option Text))
      (source : Option ℕ) (c : KitConfiguration) (db' : Db)
      → create_configuration print_id db now user_id serial description source ≡ ok (c, db')
      → Creates db now c db'
  unfolding create_configuration
  create-Creates db now user_id serial description source c db' h =
      let (g, _, h1) =
        >>=-eq-ok (fut_kit_permission_or_forbidden db user_id serial edit_configuration) _ h in
      new_or_clone-Creates db now user_id g.2 description source c db' h1

-- A peripheral's row, and its configuration, which was never used.
pub record Changeable (db : Db) (id : ℕ) (p : Peripheral) : Type 0 where
  pub found : peripheral_by_id db id ≡ some p
  pub configuration : KitConfiguration
  pub of_peripheral : configuration_by_id db p.kit_configuration_id ≡ some configuration
  pub unused : configuration.never_used ≡ true

pub models-Changeable :
    (db : Db) (id : ℕ) (kit : Kit) (c : KitConfiguration) (p : Peripheral)
    → get_models_from_peripheral_id db id ≡ ok (kit, c, p)
    → c.never_used ≡ true
    → Changeable db id p
unfolding get_models_from_peripheral_id
models-Changeable db id kit c p h unused =
    let (p', found, h1) = ok_or-bind-eq-ok (peripheral_by_id db id) _ _ h in
    let (k', _, h2) = ok_or-bind-eq-ok (kit_by_id db p'.kit_id) _ _ h1 in
    let (c', of_p, h3) = ok_or-bind-eq-ok (configuration_by_id db p'.kit_configuration_id) _ _ h2 in
    let same_p : p' ≡ p = cc h3 in
    let same_c : c' ≡ c = cc h3 in
    record {
      found = found ∙ ap some same_p;
      configuration = c;
      of_peripheral =
          subst (λ q. configuration_by_id db q.kit_configuration_id ≡ some c) same_p
            (of_p ∙ ap some same_c);
      unused = unused;
    }

module _ (valid : Json → Json → Option Bool) where
  pub add-unused :
      (db : Db) (user_id : Option ℕ) (configuration_id : ℕ) (new : NewPeripheral) (p : Peripheral)
      (db' : Db)
      → add_peripheral_to_configuration valid db user_id configuration_id new ≡ ok (p, db')
      → (kit : Kit) × (c : KitConfiguration) × (configuration_by_id db c.id ≡ some c)
        × (c.never_used ≡ true)
        × (db' ≡ (insert_peripheral db kit c new).1)
  unfolding add_peripheral_to_configuration
  add-unused db user_id configuration_id new p db' h =
      let (m, models, h1) =
        >>=-eq-ok (get_models_from_kit_configuration_id db configuration_id) _ h in
      let (_, _, h2) = >>=-eq-ok (authorize db user_id m.0 edit_configuration) _ h1 in
      let (unused, h3) = guard-bind-eq-ok m.1.never_used _ _ h2 in
      let (_, _, h4) = >>=-eq-ok (check_name new.name) _ h3 in
      let (d, _, h5) = ok_or-bind-eq-ok (definition_by_id db new.peripheral_definition_id) _ _ h4 in
      let (_, _, h6) = >>=-eq-ok (check_configuration valid new.configuration d) _ h5 in
      let (found, _, same_id, _) = get_models-found db configuration_id m.0 m.1 models in
      (
        m.0,
        m.1,
        subst (λ k. configuration_by_id db k ≡ some m.1) (sym same_id) found,
        unused,
        cc h6,
      )

  pub patch-Changeable :
      (db : Db) (user_id : Option ℕ) (id : ℕ) (patch : PeripheralPatch) (p' : Peripheral) (db' : Db)
      → patch_peripheral valid db user_id id patch ≡ ok (p', db')
      → (p : Peripheral) × Changeable db id p × (update_peripheral db p patch ≡ ok (p', db'))
  unfolding patch_peripheral
  patch-Changeable db user_id id patch p' db' h =
      let (m, models, h1) = >>=-eq-ok (get_models_from_peripheral_id db id) _ h in
      let (_, _, h2) = >>=-eq-ok (authorize db user_id m.0 edit_configuration) _ h1 in
      let (unused, h3) = guard-bind-eq-ok m.1.never_used _ _ h2 in
      let (_, _, h4) = >>=-eq-ok (check_new_name patch.name) _ h3 in
      let (d, _, h5) = ok_or-bind-eq-ok (definition_by_id db m.2.peripheral_definition_id) _ _ h4 in
      let (_, _, h6) = >>=-eq-ok (check_patch valid patch.configuration d) _ h5 in
      (m.2, models-Changeable db id m.0 m.1 m.2 models unused, h6)

pub delete-Changeable :
    (db : Db) (user_id : Option ℕ) (id : ℕ) (u : Unit {0}) (db' : Db)
    → delete_peripheral db user_id id ≡ ok (u, db')
    → (p : Peripheral) × Changeable db id p × (remove_peripheral db p.id ≡ ok (u, db'))
unfolding delete_peripheral
delete-Changeable db user_id id u db' h =
    let (m, models, h1) = >>=-eq-ok (get_models_from_peripheral_id db id) _ h in
    let (_, _, h2) = >>=-eq-ok (authorize db user_id m.0 edit_configuration) _ h1 in
    let (unused, h3) = guard-bind-eq-ok m.1.never_used _ _ h2 in
    (m.2, models-Changeable db id m.0 m.1 m.2 models unused, h3)
