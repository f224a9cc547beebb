-- ===== src/Api/Deletion/Done.antt =====
-- What a deletion leaves in the tables when it succeeds.
use astroplant_api.Prelude.{
  ℕ, Text, ◌≡◌, ◌∙◌, ap, Bool, not, Option, some, ◌++◌, map, ◌==◌, first, keep, ok, arith,
  >>=-eq-ok, ok_or-bind-eq-ok,
}
use astroplant_api.Prelude.Equality.{◌≟◌, nat_eq, list_eq}
use astroplant_api.Api.Models.{Uuid, Kit, Media}
use astroplant_api.Api.Database.{Db}
use astroplant_api.Api.Authorization.{
  delete, delete_media as delete_media_action, edit_configuration,
}
use astroplant_api.Api.Helpers.{kit_by_id, kit_by_serial, fut_kit_permission_or_forbidden}
use astroplant_api.Api.Helpers.Granted.{
  IsMemberWith, fut_kit_permission_or_forbidden-IsMemberWith, delete-Guards,
}
use astroplant_api.Api.Configurations.Handlers.{get_models_from_kit_configuration_id, authorize}
use astroplant_api.Api.Deletion.{
  pending, queue_media, drop_configuration, delete_configuration, is_of_kit, drop_kit, delete_kit,
  delete_media,
}

-- The state after the selected media went to the queue.
abbrev pub media_queued : (Media → Bool) → Db → Db
media_queued selected db = record db {
  queue_media_pending_deletion =
      db.queue_media_pending_deletion ++ map pending (keep selected db.media);
  media = keep (λ m. not (selected m)) db.media;
}

pub queue_media-done :
    (selected : Media → Bool) (db : Db) (u : Unit {0}) (db' : Db)
    → queue_media selected db ≡ ok (u, db')
    → db' ≡ media_queued selected db
unfolding queue_media
queue_media-done selected db u db' h = ground arith

abbrev pub configuration_dropped : ℕ → Db → Db
configuration_dropped id db = record db {
  kit_configurations = keep (λ c. not (c.id == id)) db.kit_configurations;
  peripherals = keep (λ p. not (p.kit_configuration_id == id)) db.peripherals;
}

abbrev pub of_configuration : ℕ → Media → Bool
of_configuration id m = m.kit_configuration_id == id

pub delete_configuration-done :
    (db : Db) (user_id : Option ℕ) (id : ℕ) (u : Unit {0}) (db' : Db)
    → delete_configuration db user_id id ≡ ok (u, db')
    → db' ≡ configuration_dropped id (media_queued (of_configuration id) db)
unfolding delete_configuration drop_configuration
delete_configuration-done db user_id id u db' h =
    let (m, models, h1) = >>=-eq-ok (get_models_from_kit_configuration_id db id) _ h in
    let (_, _, h2) = >>=-eq-ok (authorize db user_id m.0 edit_configuration) _ h1 in
    let (moved, queued_ok, h3) = >>=-eq-ok (queue_media (of_configuration id) db) _ h2 in
    let same = queue_media-done (of_configuration id) db moved.0 moved.1 queued_ok in
    let dropped : db' ≡ configuration_dropped id moved.1 = ground arith in
    dropped ∙ ap (configuration_dropped id) same

abbrev pub kit_dropped : ℕ → Db → Db
kit_dropped id db = record db {
  kits = keep (λ k. not (k.id == id)) db.kits;
  kit_memberships = keep (λ m. not (m.kit_id == id)) db.kit_memberships;
  kit_configurations = keep (λ c. not (c.kit_id == id)) db.kit_configurations;
  peripherals = keep (λ p. not (is_of_kit id db p)) db.peripherals;
}

abbrev pub of_kit : ℕ → Media → Bool
of_kit id m = m.kit_id == id

-- The kit that was deleted is the one with the serial, and its deletion was requested by a member
-- with super access.
pub delete_kit-done :
    (db : Db) (user_id : Option ℕ) (serial : Text) (u : Unit {0}) (db' : Db)
    → delete_kit db user_id serial ≡ ok (u, db')
    → (kit : Kit) × (kit_by_serial db serial ≡ some kit)
      × IsMemberWith (λ m. m.access_super) db user_id kit.id
      × (db' ≡ kit_dropped kit.id (media_queued (of_kit kit.id) db))
unfolding delete_kit drop_kit
delete_kit-done db user_id serial u db' h =
    let (g, granted, h1) =
      >>=-eq-ok (fut_kit_permission_or_forbidden db user_id serial delete) _ h in
    let found =
      fut_kit_permission_or_forbidden-IsMemberWith (λ m. m.access_super) delete delete-Guards db
        user_id serial g.0 g.1 g.2 granted in
    let (moved, queued_ok, h2) = >>=-eq-ok (queue_media (of_kit g.2.id) db) _ h1 in
    let same = queue_media-done (of_kit g.2.id) db moved.0 moved.1 queued_ok in
    let dropped : db' ≡ kit_dropped g.2.id moved.1 = ground arith in
    (g.2, found.0, found.1, dropped ∙ ap (kit_dropped g.2.id) same)

pub delete_media-done :
    (db : Db) (user_id : Option ℕ) (id : Uuid) (u : Unit {0}) (db' : Db)
    → delete_media db user_id id ≡ ok (u, db')
    → db' ≡ media_queued (λ n. n.id ≟ id) db
unfolding delete_media
delete_media-done db user_id id u db' h =
    let (m, _, h1) = ok_or-bind-eq-ok (first (λ n. n.id ≟ id) db.media) _ _ h in
    let (kit, _, h2) = ok_or-bind-eq-ok (kit_by_id db m.kit_id) _ _ h1 in
    let (_, _, h3) =
      >>=-eq-ok (fut_kit_permission_or_forbidden db user_id kit.serial delete_media_action) _ h2 in
    queue_media-done (λ n. n.id ≟ id) db u db' h3
