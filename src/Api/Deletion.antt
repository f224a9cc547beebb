-- ===== src/Api/Deletion.antt =====
-- Deleting a kit, a configuration or a medium: astroplant-api/src/controllers/kit/mod.rs,
-- kit_configuration/kit_configuration.rs and media/mod.rs, with the foreign keys of migrations/.
-- The stored object of a medium is deleted later, from `queue_media_pending_deletion`.
use astroplant_api.Prelude.{
  ℕ, Text, Bool, true, false, not, ◌&&◌, ◌||◌, Option, none, some, List, [], ◌∷◌, ◌++◌, map, ◌==◌,
  if◌then◌else◌, first, keep, all, ok, err, ok_or, ◌>>=◌, ◌>>◌,
}
use astroplant_api.Prelude.Equality.{◌≟◌, nat_eq, list_eq}
use astroplant_api.Api.Problem.{generic, not_found, internal_server_error}
use astroplant_api.Api.Models.{
  Uuid, Kit, KitConfiguration, Peripheral, Media, QueueMediaPendingDeletion,
}
use astroplant_api.Api.Database.{Db, Tx}
use astroplant_api.Api.Authorization.{
  delete, delete_media as delete_media_action, edit_configuration,
}
use astroplant_api.Api.Helpers.{kit_by_id, fut_kit_permission_or_forbidden}
use astroplant_api.Api.Configurations.Handlers.{get_models_from_kit_configuration_id, authorize}
pub mod Done
pub mod Conserved
pub mod Examples

unfoldable pub pending : Media → QueueMediaPendingDeletion
pending m = record { media_id = m.id; media_datetime = m.datetime; media_size = m.size }

abbrev pub queued : Uuid → List QueueMediaPendingDeletion → Bool
queued id queue = not (all (λ q. not (q.media_id ≟ id)) queue)

-- Steps 1 and 2 of each deletion: the selected media go to the queue, whose `media_id` is unique,
-- and leave their table.
unfoldable pub queue_media : (Media → Bool) → Db → Tx (Unit {0})
unfolding pending
queue_media selected db =
    if all (λ m. not (queued m.id db.queue_media_pending_deletion)) (keep selected db.media)
    then ok (
      tt,
      record db {
        queue_media_pending_deletion =
            db.queue_media_pending_deletion ++ map pending (keep selected db.media);
        media = keep (λ m. not (selected m)) db.media;
      },
    )
    else err (generic internal_server_error)

-- No medium refers to a row that a deletion takes along (ON DELETE RESTRICT).
abbrev pub unreferenced : (Media → Bool) → Db → Bool
unreferenced refers db = all (λ m. not (refers m)) db.media

abbrev pub peripheral_in : List Peripheral → ℕ → Bool
peripheral_in ps id = not (all (λ p. not (p.id == id)) ps)

-- Step 3 for a configuration: its peripherals are deleted with it (ON DELETE CASCADE).
unfoldable pub drop_configuration : ℕ → Db → Tx (Unit {0})
drop_configuration id db =
    let gone = keep (λ p. p.kit_configuration_id == id) db.peripherals in
    if unreferenced (λ m. m.kit_configuration_id == id || peripheral_in gone m.peripheral_id) db
    then ok (
      tt,
      record db {
        kit_configurations = keep (λ c. not (c.id == id)) db.kit_configurations;
        peripherals = keep (λ p. not (p.kit_configuration_id == id)) db.peripherals;
      },
    )
    else err (generic internal_server_error)

-- delete_configuration
unfoldable pub delete_configuration : Db → (user_id : Option ℕ) → (id : ℕ) → Tx (Unit {0})
unfolding queue_media drop_configuration
delete_configuration db user_id id = do
  found ← get_models_from_kit_configuration_id db id
  authorize db user_id found.0 edit_configuration
  moved ← queue_media (λ m. m.kit_configuration_id == id) db
  drop_configuration id moved.1

abbrev pub configuration_in : List KitConfiguration → ℕ → Bool
configuration_in cs id = not (all (λ c. not (c.id == id)) cs)

-- A peripheral is deleted with its kit, and with its configuration.
abbrev pub is_of_kit : ℕ → Db → Peripheral → Bool
is_of_kit id db p =
    p.kit_id == id
    || configuration_in (keep (λ c. c.kit_id == id) db.kit_configurations) p.kit_configuration_id

-- Step 3 for a kit: its memberships and configurations are deleted with it, and its peripherals and
-- those of its configurations with them.
unfoldable pub drop_kit : ℕ → Db → Tx (Unit {0})
drop_kit id db =
    let gone = keep (is_of_kit id db) db.peripherals in
    let configurations = keep (λ c. c.kit_id == id) db.kit_configurations in
    if unreferenced
      (λ m.
        m.kit_id == id
        || configuration_in configurations m.kit_configuration_id
        || peripheral_in gone m.peripheral_id)
      db
    then ok (
      tt,
      record db {
        kits = keep (λ k. not (k.id == id)) db.kits;
        kit_memberships = keep (λ m. not (m.kit_id == id)) db.kit_memberships;
        kit_configurations = keep (λ c. not (c.kit_id == id)) db.kit_configurations;
        peripherals = keep (λ p. not (is_of_kit id db p)) db.peripherals;
      },
    )
    else err (generic internal_server_error)

-- delete_kit
unfoldable pub delete_kit : Db → (user_id : Option ℕ) → (kit_serial : Text) → Tx (Unit {0})
unfolding queue_media drop_kit
delete_kit db user_id kit_serial = do
  granted ← fut_kit_permission_or_forbidden db user_id kit_serial delete
  moved ← queue_media (λ m. m.kit_id == granted.2.id) db
  drop_kit granted.2.id moved.1

-- delete_media: the kit is found by a join with the medium's row.
unfoldable pub delete_media : Db → (user_id : Option ℕ) → (media_id : Uuid) → Tx (Unit {0})
unfolding queue_media
delete_media db user_id media_id = do
  m ← ok_or (first (λ n. n.id ≟ media_id) db.media) (generic not_found)
  kit ← ok_or (kit_by_id db m.kit_id) (generic not_found)
  fut_kit_permission_or_forbidden db user_id kit.serial delete_media_action
  queue_media (λ n. n.id ≟ media_id) db
