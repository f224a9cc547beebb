-- ===== src/Api/Configurations/Activation.antt =====
-- What activating a configuration does, and when a PATCH is sure to succeed.
use astroplant_api.Prelude.{
  ℕ, ◌+◌, ◌≤◌, ◌≡◌, refl, sym, Bool, true, false, not, ◌&&◌, Option, none, some, ◌==◌, bool_eq,
  first, count, count_of_first, ok, arith, Bool-cases, inl, inr, subst,
}
use astroplant_api.Prelude.Keyed.{weight, count-update_at, first-update_at}
use astroplant_api.Api.Models.{User, Kit, KitMembership, KitConfiguration}
use astroplant_api.Api.Database.{Db}
use astroplant_api.Api.Authorization.{edit_configuration}
use astroplant_api.Api.Configurations.Table.{
  configuration_by_id, on_update, changed, updated, deactivate_all_of_kit_id, is_active_of,
  update_configuration, is_noop, UpdateKitConfiguration,
}
use astroplant_api.Api.Configurations.Handlers.{
  get_models_from_kit_configuration_id, authorize, KitConfigurationPatch, changes_rules,
  deactivated, update_of, patch_configuration,
}
use astroplant_api.Api.Configurations.Active.{
  config_id, IsValid, change, change-id, Accepted, update-Accepted, count-deactivate,
  deactivate_all-IsValid,
}
use astroplant_api.Api.Configurations.Patching.{
  get_models-found, patch-PatchDone, deactivated-row, deactivated-IsValid,
}

update-activates :
    (db : Db) (now : ℕ) (u : UpdateKitConfiguration) (c' : KitConfiguration) (db' : Db)
    → IsValid db
    → u.active ≡ some true
    → Accepted db now u c' db'
    → (configuration_by_id db' u.id ≡ some c')
      × (c'.active ≡ true)
      × (c'.never_used ≡ false)
      × (count (is_active_of c'.kit_id) db'.kit_configurations ≡ 1)
unfolding updated on_update changed
update-activates db now u c' db' v on a =
    let stored : configuration_by_id db' u.id ≡ some c' =
      rw (a.state, a.result)
        (first-update_at config_id (change now u) (change-id now u) u.id db.kit_configurations a.row
          a.found) in
    let active : c'.active ≡ true = rw a.result (ground arith) in
    let at_least : 1 ≤ count (is_active_of c'.kit_id) db'.kit_configurations =
      count_of_first (λ d. d.id == u.id) (is_active_of c'.kit_id) db'.kit_configurations c' stored
        (ground arith) in
    let at_most : count (is_active_of c'.kit_id) db'.kit_configurations ≤ 1 = rw a.state a.one in
    (stored, active, rw a.result (ground arith), omega arith)

update-accepts :
    (db : Db) (now : ℕ) (u : UpdateKitConfiguration) (row : KitConfiguration)
    → configuration_by_id db u.id ≡ some row
    → is_noop u ≡ false
    → count (is_active_of row.kit_id) (updated now u db.kit_configurations) ≤ 1
    → update_configuration db now u
      ≡ ok
          (change now u row, record db { kit_configurations = updated now u db.kit_configurations })
unfolding update_configuration
update-accepts db now u row found some_change one =
    let stored : first (λ d. d.id == u.id) (updated now u db.kit_configurations)
        ≡ some (change now u row) =
      first-update_at config_id (change now u) (change-id now u) u.id db.kit_configurations row
        found in
    rw (some_change, stored) (ground arith)

-- An update of one row trades its weight among the active configurations of its kit.
update_trade :
    (db : Db) (now : ℕ) (u : UpdateKitConfiguration) (row : KitConfiguration)
    → IsValid db
    → configuration_by_id db u.id ≡ some row
    → count (is_active_of row.kit_id) (updated now u db.kit_configurations)
        + weight (is_active_of row.kit_id) row
      ≡ count (is_active_of row.kit_id) db.kit_configurations
        + weight (is_active_of row.kit_id) (change now u row)
unfolding updated
update_trade db now u row v found =
    count-update_at config_id (is_active_of row.kit_id) u.id (change now u) db.kit_configurations
      row v.unique found

-- At most one configuration is active after the update, whatever the patch says of its state.
one_after :
    (active : Option Bool) (db : Db) (now : ℕ) (kit : Kit) (c : KitConfiguration)
    (u : UpdateKitConfiguration) (row : KitConfiguration)
    → IsValid db
    → configuration_by_id db u.id ≡ some c
    → kit.id ≡ c.kit_id
    → u.active ≡ active
    → configuration_by_id (deactivated db now kit c active) u.id ≡ some row
    → row.kit_id ≡ c.kit_id
    → count
        (is_active_of row.kit_id)
        (updated now u (deactivated db now kit c active).kit_configurations)
      ≤ 1
unfolding on_update changed deactivated deactivate_all_of_kit_id
one_after none db now kit c u row v found same ua row_found same_row =
    ground (arith, update_trade db now u row v row_found, v.one_active row.kit_id)
one_after (some b) db now kit c u row v found same ua row_found same_row =
    elim (Bool-cases (bool_eq b c.active)) [
      | inl kept ↦
          let row_found' : configuration_by_id db u.id ≡ some row = rw kept at row_found in
          let row_is_c : row ≡ c = cc (row_found', found) in
          rw kept (
            ground
              (arith, row_is_c, update_trade db now u row v row_found', v.one_active row.kit_id))
      | inr differs ↦
          let D = deactivate_all_of_kit_id db now kit.id in
          let row_found' : configuration_by_id D u.id ≡ some row = rw differs at row_found in
          rw differs (
            ground (
              arith,
              update_trade D now u row (deactivate_all-IsValid db now kit.id v) row_found',
              count-deactivate now kit.id row.kit_id db.kit_configurations,
            ))
    ]

-- After a PATCH that sets a configuration active, it is the one active configuration of its kit, it
-- counts as used, and the row that the route answers with is the stored one, if the configurations
-- were valid before.
pub patch-activates :
    (db : Db) (now : ℕ) (user_id : Option ℕ) (id : ℕ) (patch : KitConfigurationPatch)
    (c' : KitConfiguration) (db' : Db)
    → IsValid db
    → patch.active ≡ some true
    → patch_configuration db now user_id id patch ≡ ok (c', db')
    → (configuration_by_id db' id ≡ some c')
      × (c'.active ≡ true)
      × (c'.never_used ≡ false)
      × (count (is_active_of c'.kit_id) db'.kit_configurations ≡ 1)
patch-activates db now user_id id patch c' db' v on h =
    let p = patch-PatchDone db now user_id id patch c' db' h in
    let a = update-Accepted _ now (update_of p.configuration patch) c' db' p.done in
    let (_, _, same_id, _) = get_models-found db id p.kit p.configuration p.models in
    rw same_id at (
      update-activates _ now (update_of p.configuration patch) c' db'
        (deactivated-IsValid db now p.kit p.configuration patch.active v) on a)

-- Setting a configuration's state never runs into the index on active configurations: a PATCH that
-- is permitted, that changes something, and that leaves the rules of a used configuration alone
-- succeeds, if the configurations were valid before.
pub patch-succeeds :
    (db : Db) (now : ℕ) (user_id : Option ℕ) (id : ℕ) (patch : KitConfigurationPatch) (kit : Kit)
    (c : KitConfiguration) (g : Option User × Option KitMembership)
    → IsValid db
    → get_models_from_kit_configuration_id db id ≡ ok (kit, c)
    → authorize db user_id kit edit_configuration ≡ ok g
    → (not c.never_used && changes_rules patch) ≡ false
    → is_noop (update_of c patch) ≡ false
    → (c' : KitConfiguration) × (db' : Db) × (patch_configuration db now user_id id patch
        ≡ ok (c', db'))
unfolding patch_configuration
patch-succeeds db now user_id id patch kit c g v models granted mutable some_change =
    let (found, _, same_id, same_kit) = get_models-found db id kit c models in
    let here : configuration_by_id db c.id ≡ some c =
      subst (λ k. configuration_by_id db k ≡ some c) (sym same_id) found in
    let (row, row_found, row_kit) = deactivated-row db now kit c patch.active here in
    let accepted =
      update-accepts (deactivated db now kit c patch.active) now (update_of c patch) row row_found
        some_change
        (one_after patch.active db now kit c (update_of c patch) row v here same_kit refl row_found
          row_kit) in
    let D = deactivated db now kit c patch.active in
    (
      change now (update_of c patch) row,
      record D { kit_configurations = updated now (update_of c patch) D.kit_configurations },
      rw (models, granted, mutable) accepted,
    )
