-- ===== src/Api/Archive.antt =====
-- astroplant-api/src/controllers/kit/archive.rs: the token for the download of a kit's archive, the
-- download, and the contents of its two files. The signing of tokens is a parameter, as is the
-- printing of numbers and times. Writing the two files into a ZIP stream is not modelled.
use astroplant_api.Prelude.{
  ℕ, ◌≡◌, Text, codes, Bool, true, false, not, ◌&&◌, ◌||◌, Option, none, some, List, [], ◌∷◌, ◌++◌,
  map, ◌==◌, leb, is_none, keep, if◌then◌else◌, Result, ok, err, map_err, ◌>>=◌, ◌>>◌, ok_or, guard,
}
use astroplant_api.Prelude.Equality.{◌≟◌, nat_eq, list_eq}
use astroplant_api.Prelude.Map.{Map, empty, get, insert, remove}
use astroplant_api.Prelude.Split.{join}
use astroplant_api.Auth.Token.{Jwt, create_arbitrary_token, decode_arbitrary_token}
use astroplant_api.Api.Problem.{AppResult, Problem, generic, not_found, forbidden}
use astroplant_api.Api.Models.{Kit, KitConfiguration, Peripheral}
use astroplant_api.Api.Database.{Db}
use astroplant_api.Api.Authorization.{view}
use astroplant_api.Api.Helpers.{fut_kit_permission_or_forbidden, kit_by_serial}
pub mod Download
pub mod Configurations
mod Examples

pub record DownloadToken : Type 0 where
  pub action : Text
  pub kit_serial : Text

abbrev pub download_action : Text
download_action = codes "kit-archive-download"

module _ {Token : Type 0} (jwt : Jwt Token DownloadToken) where
  -- archive_authorize
  unfoldable pub archive_authorize :
      Db → (now : ℕ) → (user_id : Option ℕ) → (kit_serial : Text) → AppResult Token
  archive_authorize db now user_id kit_serial = do
    granted ← fut_kit_permission_or_forbidden db user_id kit_serial view
    let kit = granted.2
    ok (
        create_arbitrary_token jwt now
          (record { action = download_action; kit_serial = kit.serial }) 30)

  -- archive: the kit whose data are sent
  unfoldable pub archive : Db → (now : ℕ) → (kit_serial : Text) → Token → AppResult Kit
  archive db now kit_serial query_token = do
    token ← map_err (λ e. generic forbidden) (decode_arbitrary_token jwt now query_token)
    guard (not (not (token.action ≟ download_action) || not (token.kit_serial ≟ kit_serial)))
        (generic forbidden)
    ok_or (kit_by_serial db token.kit_serial) (generic not_found)

pub record KitConfigurationWithPeripherals : Type 0 where
  pub configuration : KitConfiguration
  pub peripherals : List Peripheral

-- `into_group_map`: the peripherals of each configuration, in their order.
abbrev pub push : Option (List Peripheral) → Peripheral → List Peripheral
push none p = p ∷ []
push (some group) p = group ++ p ∷ []

unfoldable pub into_group_map : Map ℕ (List Peripheral) → List Peripheral → Map ℕ (List Peripheral)
into_group_map groups [] = groups
into_group_map groups (p ∷ ps) =
    into_group_map
      (insert groups p.kit_configuration_id (push (get groups p.kit_configuration_id) p)) ps

abbrev pub unwrap_or_default : Option (List Peripheral) → List Peripheral
unwrap_or_default none = []
unwrap_or_default (some group) = group

-- Each configuration takes the group of its id out of the map.
unfoldable pub with_peripherals :
    Map ℕ (List Peripheral) → List KitConfiguration → List KitConfigurationWithPeripherals
with_peripherals groups [] = []
with_peripherals groups (c ∷ cs) =
    record { configuration = c; peripherals = unwrap_or_default (get groups c.id) }
    ∷ with_peripherals (remove groups c.id) cs

-- write_configs
unfoldable pub write_configs : Db → (kit_id : ℕ) → List KitConfigurationWithPeripherals
unfolding into_group_map with_peripherals
write_configs db kit_id =
    let kit_configurations = keep (λ c. c.kit_id == kit_id) db.kit_configurations in
    let kit_peripherals = keep (λ p. p.kit_id == kit_id) db.peripherals in
    with_peripherals (into_group_map empty kit_peripherals) kit_configurations
