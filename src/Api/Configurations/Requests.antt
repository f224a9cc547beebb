-- ===== src/Api/Configurations/Requests.antt =====
-- The routes on configurations and peripherals as one step of the server.
use astroplant_api.Prelude.{ℕ, Text, Bool, Option, List, [], ◌∷◌}
use astroplant_api.Api.Models.{Json}
use astroplant_api.Api.Database.{Db, after}
use astroplant_api.Api.Configurations.Handlers.{
  create_configuration, KitConfigurationPatch, patch_configuration,
}
use astroplant_api.Api.Configurations.Peripherals.{
  NewPeripheral, PeripheralPatch, add_peripheral_to_configuration, patch_peripheral,
  delete_peripheral,
}
use astroplant_api.Api.Deletion.{delete_configuration}

-- Each with the user that its token names.
pub data Request : Type 0 where
  creates : Option ℕ → (kit_serial : Text) → Option (Option Text) → Option ℕ → Request
  patches : Option ℕ → (id : ℕ) → KitConfigurationPatch → Request
  deletes : Option ℕ → (id : ℕ) → Request
  adds_peripheral : Option ℕ → (configuration_id : ℕ) → NewPeripheral → Request
  patches_peripheral : Option ℕ → (peripheral_id : ℕ) → PeripheralPatch → Request
  deletes_peripheral : Option ℕ → (peripheral_id : ℕ) → Request

module _ (print_id : ℕ → Text) (valid : Json → Json → Option Bool) where
  unfoldable pub step : Db → (now : ℕ) → Request → Db
  step db now (creates user_id serial description source) =
      after db (create_configuration print_id db now user_id serial description source)
  step db now (patches user_id id patch) = after db (patch_configuration db now user_id id patch)
  step db now (deletes user_id id) = after db (delete_configuration db user_id id)
  step db now (adds_peripheral user_id id new) =
      after db (add_peripheral_to_configuration valid db user_id id new)
  step db now (patches_peripheral user_id id patch) =
      after db (patch_peripheral valid db user_id id patch)
  step db now (deletes_peripheral user_id id) = after db (delete_peripheral db user_id id)

  unfoldable pub run : Db → List (ℕ × Request) → Db
  unfolding step
  run db [] = db
  run db ((now, r) ∷ rs) = run (step db now r) rs
