-- ===== src/Api/Deletion/Examples.antt =====
-- Deletions on a small database.
use astroplant_api.Prelude.{◌≡◌, refl, Bool, some, [], ◌∷◌, ok, codes, ◌==◌}
use astroplant_api.Prelude.Equality.{nat_eq, list_eq}
use astroplant_api.Api.Models.{Kit, Media, QueueMediaPendingDeletion}
use astroplant_api.Api.Database.{Db}
use astroplant_api.Api.Authorization.{kit_permitted}
use astroplant_api.Api.Helpers.{kit_by_serial, fut_kit_permission_or_forbidden}
use astroplant_api.Api.Helpers.Granted.{IsMemberWith}
use astroplant_api.Api.Configurations.Examples.{farm}
use astroplant_api.Api.Deletion.{pending, queue_media, drop_kit, delete_kit}
use astroplant_api.Api.Deletion.Conserved.{
  deletes_configuration, deletes_media, run, known, run-known, IsForgotten, delete_kit-IsForgotten,
}

abbrev picture : Media
picture = record {
  id = 7 ∷ [];
  peripheral_id = 0;
  kit_id = 0;
  kit_configuration_id = 0;
  datetime = 3;
  name = codes "picture";
  media_type = codes "image/png";
  metadata = codes "{}";
  size = 12;
}

abbrev gallery : Db
gallery = record farm { media = picture ∷ record picture { id = 8 ∷ [] } ∷ [] }

abbrev large : QueueMediaPendingDeletion → Bool
large q = q.media_size == 12

run-known_example :
    known large
      (run gallery (deletes_media (some 2) (7 ∷ []) ∷ deletes_configuration (some 2) 0 ∷ []))
    ≡ 2
unfolding pending
run-known_example =
    run-known large gallery
      (deletes_media (some 2) (7 ∷ []) ∷ deletes_configuration (some 2) 0 ∷ [])

abbrev cleared : Db
cleared = record gallery {
  kits = [];
  kit_memberships = [];
  kit_configurations = [];
  peripherals = [];
  media = [];
  queue_media_pending_deletion = pending picture ∷ pending (record picture { id = 8 ∷ [] }) ∷ [];
}

clears : delete_kit gallery (some 1) (codes "k-garden") ≡ ok (tt, cleared)
unfolding delete_kit queue_media drop_kit fut_kit_permission_or_forbidden kit_permitted pending
clears = refl

delete_kit-IsForgotten_example :
    (kit : Kit) × (kit_by_serial gallery (codes "k-garden") ≡ some kit)
    × IsMemberWith (λ m. m.access_super) gallery (some 1) kit.id
    × IsForgotten kit.id cleared
delete_kit-IsForgotten_example =
    delete_kit-IsForgotten gallery (some 1) (codes "k-garden") tt cleared clears
