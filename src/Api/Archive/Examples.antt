-- ===== src/Api/Archive/Examples.antt =====
-- The archive of the sample's kit, and two configurations with three peripherals.
use astroplant_api.Prelude.{
  ℕ, ◌+◌, ◌≤◌, ◌≡◌, refl, true, false, some, none, ok, err, ok_or, [], ◌∷◌, codes, map, keep, ◌==◌,
  ltb, if◌then◌else◌, Text, arith,
}
use astroplant_api.Prelude.Equality.{◌≟◌, nat_eq, list_eq}
use astroplant_api.Auth.Token.{Payload, of_data, create_arbitrary_token, decode_arbitrary_token}
use astroplant_api.Auth.Token.Sample.{plain, plain-IsJwt}
use astroplant_api.Api.Problem.{generic, not_found, forbidden}
use astroplant_api.Api.Models.{Kit, KitConfiguration, Peripheral}
use astroplant_api.Api.Database.{Db}
use astroplant_api.Api.Sample.{small, garden}
use astroplant_api.Api.Authorization.{kit_permitted}
use astroplant_api.Api.Helpers.{kit_by_serial, fut_kit_permission_or_forbidden}
use astroplant_api.Api.Archive.{
  DownloadToken, download_action, archive_authorize, archive, write_configs,
}
use astroplant_api.Api.Archive.Download.{MayView, archive-archive_authorize, archive-signed}
use astroplant_api.Api.Archive.Configurations.{write_configs-map}

abbrev given : Payload DownloadToken
given = of_data (record {
  exp = 130;
  contents = record { action = download_action; kit_serial = codes "k-garden" };
})

given_lem : archive_authorize (plain DownloadToken) small 100 (some 1) (codes "k-garden") ≡ ok given
unfolding archive_authorize fut_kit_permission_or_forbidden kit_permitted create_arbitrary_token
given_lem = refl

archive-archive_authorize_example :
    ((kit : Kit) × (kit_by_serial small (codes "k-garden") ≡ some kit) × MayView small (some 1) kit)
    × ((db' : Db) (later : ℕ) (requested : Text)
        → archive (plain DownloadToken) db' later requested given ≡ (
            if ltb (100 + 30 + 60) later
            then err (generic forbidden)
            else if codes "k-garden" ≟ requested
            then ok_or (kit_by_serial db' (codes "k-garden")) (generic not_found)
            else err (generic forbidden)))
archive-archive_authorize_example =
    archive-archive_authorize (plain DownloadToken) (plain-IsJwt DownloadToken) small 100 (some 1)
      (codes "k-garden") given given_lem

sent : archive (plain DownloadToken) small 190 (codes "k-garden") given ≡ ok garden
unfolding archive decode_arbitrary_token
sent = refl

archive-signed_example :
    (garden.serial ≡ codes "k-garden")
    × ((exp : ℕ) × (given
          ≡ of_data (record {
            exp = exp;
            contents = record { action = download_action; kit_serial = codes "k-garden" };
          }))
        × (190 ≤ exp + 60))
archive-signed_example =
    archive-signed (plain DownloadToken) (plain-IsJwt DownloadToken) small 190 (codes "k-garden")
      given garden sent

abbrev configuration : ℕ → KitConfiguration
configuration id = record {
  id = id;
  kit_id = 0;
  description = none;
  controller_symbol_location = [];
  controller_symbol = [];
  control_rules = [];
  active = false;
  first_activated_at = none;
  never_used = true;
  created_at = 0;
  updated_at = 0;
}

abbrev peripheral : ℕ → ℕ → Peripheral
peripheral id configuration_id = record {
  id = id;
  kit_id = 0;
  kit_configuration_id = configuration_id;
  peripheral_definition_id = 0;
  name = [];
  configuration = [];
}

abbrev configured : Db
configured = record small {
  kit_configurations = configuration 3 ∷ configuration 4 ∷ [];
  peripherals = peripheral 1 4 ∷ peripheral 2 3 ∷ peripheral 5 4 ∷ [];
}

write_configs-map_example :
    write_configs configured 0
    ≡ map
        (λ c. record {
          configuration = c;
          peripherals =
              keep
                (λ p. p.kit_configuration_id == c.id)
                (keep (λ p. p.kit_id == 0) configured.peripherals);
        })
        (configuration 3 ∷ configuration 4 ∷ [])
write_configs-map_example = write_configs-map configured 0 (omega arith)
