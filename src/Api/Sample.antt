-- ===== src/Api/Sample.antt =====
-- A small database for the tests: a kit, and two of three users as its members.
use astroplant_api.Prelude.{ℕ, true, false, none, [], ◌∷◌, codes}
use astroplant_api.Api.Models.{User, Kit, KitMembership}
use astroplant_api.Api.Database.{Db}

abbrev pub person : ℕ → User
person id = record {
  id = id;
  username = id ∷ [];
  display_name = codes "someone";
  password_hash = [];
  email_address = id ∷ [];
  use_email_address_for_gravatar = true;
  gravatar_alternative = [];
  created_at = 0;
  updated_at = 0;
}

abbrev pub garden : Kit
garden = record {
  id = 0;
  serial = codes "k-garden";
  password_hash = [];
  name = none;
  description = none;
  latitude = none;
  longitude = none;
  privacy_public_dashboard = false;
  privacy_show_on_map = false;
  created_at = 0;
  updated_at = 0;
}

abbrev pub owner : KitMembership
owner = record {
  id = 0;
  user_id = 1;
  kit_id = 0;
  datetime_linked = 0;
  access_super = true;
  access_configure = true;
}

abbrev pub helper : KitMembership
helper = record {
  id = 1;
  user_id = 2;
  kit_id = 0;
  datetime_linked = 0;
  access_super = false;
  access_configure = true;
}

abbrev pub small : Db
small = record {
  users = person 1 ∷ person 2 ∷ person 3 ∷ [];
  kits = garden ∷ [];
  kit_memberships = owner ∷ helper ∷ [];
  kit_configurations = [];
  peripherals = [];
  peripheral_definitions = [];
  media = [];
  queue_media_pending_deletion = [];
  next_user_id = 4;
  next_kit_id = 1;
  next_membership_id = 2;
  next_configuration_id = 0;
  next_peripheral_id = 0;
}
