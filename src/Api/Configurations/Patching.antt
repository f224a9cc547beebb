-- ===== src/Api/Configurations/Patching.antt =====
-- The PATCH route of a configuration: when it succeeds, and what setting a configuration active does.
use astroplant_api.Prelude.{
  ℕ, ◌≡◌, refl, ◌∙◌, ap, Bool, false, not, ◌&&◌, Option, none, some, ◌==◌, bool_eq, if_err-eq-ok,
  ok, arith, >>=-eq-ok, ok_or-bind-eq-ok, Bool-cases, inl, inr, ==_iff, first-eq-some,
}
use astroplant_api.Api.Models.{User, Kit, KitMembership, KitConfiguration}
use astroplant_api.Api.Database.{Db}
use astroplant_api.Api.Authorization.{edit_configuration}
use astroplant_api.Api.Helpers.{kit_by_id}
use astroplant_api.Api.Configurations.Table.{
  configuration_by_id, on_update, deactivate_all_of_kit_id, update_configuration,
}
use astroplant_api.Api.Configurations.Handlers.{
  get_models_from_kit_configuration_id, authorize, KitConfigurationPatch, changes_rules,
  deactivated, update_of, patch_configuration,
}
use astroplant_api.Api.Configurations.Active.{
  IsValid, update-Accepted, update-IsValid, deactivate, first-deactivate, deactivate_all-IsValid,
}

-- What a configuration's models are when they are found.
pub get_models-found :
    (db : Db) (id : ℕ) (kit : Kit) (c : KitConfiguration)
    → get_models_from_kit_configuration_id db id ≡ ok (kit, c)
    → (configuration_by_id db id ≡ some c)
      × (kit_by_id db c.kit_id ≡ some kit)
      × (c.id ≡ id)
      × (kit.id ≡ c.kit_id)
unfolding get_models_from_kit_configuration_id
get_models-found db id kit c h =
    let (c', found, h1) = ok_or-bind-eq-ok (configuration_by_id db id) _ _ h in
    let (kit', of_kit, h2) = ok_or-bind-eq-ok (kit_by_id db c'.kit_id) _ _ h1 in
    let same_kit : kit' ≡ kit = cc h2 in
    let same : c' ≡ c = cc h2 in
    (
      found ∙ ap some same,
      (rw same at of_kit) ∙ ap some same_kit,
      (==_iff c.id id).0
          (first-eq-some (λ d. d.id == id) db.kit_configurations c (found ∙ ap some same)),
      (==_iff kit.id c.kit_id).0 (
          first-eq-some (λ k. k.id == c.kit_id) db.kits kit
            ((rw same at of_kit) ∙ ap some same_kit)),
    )

pub record PatchDone (db : Db) (now id : ℕ) (user_id : Option ℕ) (patch : KitConfigurationPatch)
    (c' : KitConfiguration) (db' : Db) : Type 0 where
  pub kit : Kit
  pub configuration : KitConfiguration
  pub models : get_models_from_kit_configuration_id db id ≡ ok (kit, configuration)
  pub granted :
      (g : Option User × Option KitMembership) × (authorize db user_id kit edit_configuration
        ≡ ok g)
  pub mutable : (not configuration.never_used && changes_rules patch) ≡ false
  pub done :
      update_configuration
        (deactivated db now kit configuration patch.active)
        now
        (update_of configuration patch)
      ≡ ok (c', db')

pub patch-PatchDone :
    (db : Db) (now : ℕ) (user_id : Option ℕ) (id : ℕ) (patch : KitConfigurationPatch)
    (c' : KitConfiguration) (db' : Db)
    → patch_configuration db now user_id id patch ≡ ok (c', db')
    → PatchDone db now id user_id patch c' db'
unfolding patch_configuration
patch-PatchDone db now user_id id patch c' db' h =
    let (m, models, h1) = >>=-eq-ok (get_models_from_kit_configuration_id db id) _ h in
    let (g, granted, h2) = >>=-eq-ok (authorize db user_id m.0 edit_configuration) _ h1 in
    let (mutable, done) = if_err-eq-ok (not m.1.never_used && changes_rules patch) _ _ h2 in
    record {
      kit = m.0;
      configuration = m.1;
      models = models;
      granted = (g, granted);
      mutable = mutable;
      done = done;
    }

-- Before the update, the row that is patched is still there, with its kit and its time of activation.
pub deactivated-row :
    (db : Db) (now : ℕ) (kit : Kit) (c : KitConfiguration) (active : Option Bool)
    → configuration_by_id db c.id ≡ some c
    → (d : KitConfiguration) × (configuration_by_id (deactivated db now kit c active) c.id ≡ some d)
      × (d.kit_id ≡ c.kit_id)
unfolding deactivated deactivate_all_of_kit_id on_update
deactivated-row db now kit c none found = (c, found, refl)
deactivated-row db now kit c (some active) found = elim (Bool-cases (bool_eq active c.active)) [
  | inl same ↦ (c, rw same found, refl)
  | inr differs ↦ (
    deactivate now kit.id c,
    rw differs (first-deactivate now kit.id c.id db.kit_configurations c found),
    ground arith,
  )
]

pub deactivated-IsValid :
    (db : Db) (now : ℕ) (kit : Kit) (c : KitConfiguration) (active : Option Bool)
    → IsValid db
    → IsValid (deactivated db now kit c active)
unfolding deactivated
deactivated-IsValid db now kit c none v = v
deactivated-IsValid db now kit c (some active) v = elim (Bool-cases (bool_eq active c.active)) [
  | inl same ↦ rw same v
  | inr differs ↦ rw differs (deactivate_all-IsValid db now kit.id v)
]

-- A successful PATCH keeps the state valid.
pub patch-IsValid :
    (db : Db) (now : ℕ) (user_id : Option ℕ) (id : ℕ) (patch : KitConfigurationPatch)
    (c' : KitConfiguration) (db' : Db)
    → IsValid db
    → patch_configuration db now user_id id patch ≡ ok (c', db')
    → IsValid db'
patch-IsValid db now user_id id patch c' db' v h =
    let p = patch-PatchDone db now user_id id patch c' db' h in
    update-IsValid _ now (update_of p.configuration patch) c' db'
      (deactivated-IsValid db now p.kit p.configuration patch.active v) p.done

-- A PATCH leaves the peripherals and the sequences alone.
deactivated-tables :
    (db : Db) (now : ℕ) (kit : Kit) (c : KitConfiguration) (active : Option Bool)
    → ((deactivated db now kit c active).peripherals ≡ db.peripherals)
      × ((deactivated db now kit c active).next_peripheral_id ≡ db.next_peripheral_id)
unfolding deactivated deactivate_all_of_kit_id
deactivated-tables db now kit c none = (refl, refl)
deactivated-tables db now kit c (some active) = elim (Bool-cases (bool_eq active c.active)) [
  | inl same ↦ rw same (refl, refl)
  | inr differs ↦ rw differs (refl, refl)
]

pub patch-peripherals :
    (db : Db) (now : ℕ) (user_id : Option ℕ) (id : ℕ) (patch : KitConfigurationPatch)
    (c' : KitConfiguration) (db' : Db)
    → patch_configuration db now user_id id patch ≡ ok (c', db')
    → (db'.peripherals ≡ db.peripherals) × (db'.next_peripheral_id ≡ db.next_peripheral_id)
patch-peripherals db now user_id id patch c' db' h =
    let p = patch-PatchDone db now user_id id patch c' db' h in
    let a = update-Accepted _ now (update_of p.configuration patch) c' db' p.done in
    rw a.state (deactivated-tables db now p.kit p.configuration patch.active)
