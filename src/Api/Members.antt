-- ===== src/Api/Members.antt =====
-- astroplant-api/src/controllers/kit/mod.rs: creating a kit, and the membership routes. Each
-- handler is one transaction (the membership routes run it as serializable).
mod Rows
pub mod Success
pub mod Invariant
pub mod Outsider
mod Examples
use astroplant_api.Prelude.{
  ℕ, ◌+◌, Text, Bool, true, false, not, ◌&&◌, Option, none, some, List, [], ◌∷◌, ◌++◌, map, ◌==◌,
  ltb, leb, bool_eq, if◌then◌else◌, first, keep, count, length, ok, err, ok_or, ◌>>=◌, ◌>>◌,
}
use astroplant_api.Prelude.Equality.{◌≟◌, nat_eq, list_eq}
use astroplant_api.Api.Problem.{
  Problem, generic, not_found, internal_server_error, kits_require_one_super_member,
}
use astroplant_api.Api.Models.{User, Kit, NewKit, KitMembership}
use astroplant_api.Api.Database.{Db, Tx, after}
use astroplant_api.Api.Authorization.{edit_members, edit_super_members, KitAction}
use astroplant_api.Api.Helpers.{
  user_by_id, kit_by_id, kit_by_serial, kit_permission_or_forbidden,
  fut_kit_permission_or_forbidden,
}

-- The row that an insert creates; its id is the next of the sequence.
pub new_membership :
    Db → (now user_id kit_id : ℕ) → (access_super access_configure : Bool) → KitMembership
new_membership db now user_id kit_id access_super access_configure = record {
  id = db.next_membership_id;
  user_id = user_id;
  kit_id = kit_id;
  datetime_linked = now;
  access_super = access_super;
  access_configure = access_configure;
}

pub insert_membership : Db → KitMembership → Db
insert_membership db m = record db {
  kit_memberships = db.kit_memberships ++ m ∷ [];
  next_membership_id = db.next_membership_id + 1;
}

pub insert_kit : Db → (now : ℕ) → NewKit → Db × Kit
insert_kit db now new_kit =
    let kit : Kit = record {
      id = db.next_kit_id;
      serial = new_kit.serial;
      password_hash = new_kit.password_hash;
      name = new_kit.name;
      description = new_kit.description;
      latitude = new_kit.latitude;
      longitude = new_kit.longitude;
      privacy_public_dashboard = new_kit.privacy_public_dashboard;
      privacy_show_on_map = new_kit.privacy_show_on_map;
      created_at = now;
      updated_at = now;
    } in
    (record db { kits = db.kits ++ kit ∷ []; next_kit_id = db.next_kit_id + 1 }, kit)

-- The transaction of create_kit, for a kit that passed the validation: an insert that conflicts
-- with the serial of another kit gives no row, and a membership of a user that does not exist
-- breaks a foreign key. The creator has all access. The sequences advance here only with the rows
-- that stay: in the database an id is also used up by a row that is refused, and skipped.
unfoldable pub create_kit : Db → (now user_id : ℕ) → NewKit → Tx Kit
unfolding new_membership insert_membership insert_kit
create_kit db now user_id new_kit = elim (kit_by_serial db new_kit.serial) [
  | some _ ↦ err (generic not_found)
  | none ↦
      let (db', kit) = insert_kit db now new_kit in
      elim (user_by_id db user_id) [
        | none ↦ err (generic internal_server_error)
        | some _ ↦ ok (kit, insert_membership db' (new_membership db' now user_id kit.id true true))
      ]
]

pub record AddMember : Type 0 where
  pub username : Text
  pub access_configure : Bool
  pub access_super : Bool

-- The membership that add_member looks for before it inserts one.
pub existing_membership : Db → (kit_id user_id : ℕ) → Option KitMembership
existing_membership db kit_id user_id =
    first (λ m. m.kit_id == kit_id && m.user_id == user_id) db.kit_memberships

-- An existing membership stays as it is; otherwise one is inserted.
pub find_or_insert :
    Db → (now kit_id user_id : ℕ) → AddMember → Option KitMembership → KitMembership × Db
find_or_insert db now kit_id user_id member (some existing) = (existing, db)
find_or_insert db now kit_id user_id member none =
    let m = new_membership db now user_id kit_id member.access_super member.access_configure in
    (m, insert_membership db m)

-- add_member
unfoldable pub add_member :
    Db → (now : ℕ) → (user_id : Option ℕ) → (kit_serial : Text) → AddMember → Tx KitMembership
unfolding new_membership insert_membership existing_membership find_or_insert
add_member db now user_id kit_serial member = do
  let action = if member.access_super then edit_super_members else edit_members
  granted ← fut_kit_permission_or_forbidden db user_id kit_serial action
  let kit = granted.2
  user ← ok_or (first (λ u. u.username ≟ member.username) db.users) (generic not_found)
  ok (find_or_insert db now kit.id user.id member (existing_membership db kit.id user.id))

pub record KitMembershipPatch : Type 0 where
  pub access_configure : Bool
  pub access_super : Bool

-- How many members of a kit have super access.
unfoldable pub members_with_super_access : Db → ℕ → ℕ
members_with_super_access db kit_id =
    count (λ m. m.kit_id == kit_id && m.access_super) db.kit_memberships

abbrev pub membership_by_id : Db → ℕ → Option KitMembership
membership_by_id db id = first (λ m. m.id == id) db.kit_memberships

abbrev pub patched : KitMembershipPatch → KitMembership → KitMembership
patched patch m = record m {
  access_super = patch.access_super;
  access_configure = patch.access_configure;
}

-- UpdateKitMembership::save_changes
pub update_membership : Db → ℕ → KitMembershipPatch → Db
update_membership db id patch = record db {
  kit_memberships = map (λ m. if m.id == id then patched patch m else m) db.kit_memberships;
}

-- patch_kit_membership
unfoldable pub patch_kit_membership :
    Db → (id : ℕ) → (user_id : Option ℕ) → KitMembershipPatch → Tx KitMembership
unfolding members_with_super_access update_membership
patch_kit_membership db id user_id patch = do
  m ← ok_or (membership_by_id db id) (generic not_found)
  kit ← ok_or (kit_by_id db m.kit_id) (generic not_found)
  let action =
      if not (bool_eq m.access_super patch.access_super) then edit_super_members else edit_members
  kit_permission_or_forbidden db user_id kit action
  if m.access_super && not patch.access_super && ltb (members_with_super_access db kit.id) 2
      then err kits_require_one_super_member
      else ok (patched patch m, update_membership db id patch)

pub delete_membership : Db → ℕ → Db
delete_membership db id = record db {
  kit_memberships = keep (λ m. not (m.id == id)) db.kit_memberships;
}

-- delete_kit_membership
unfoldable pub delete_kit_membership : Db → (id : ℕ) → (user_id : Option ℕ) → Tx (Unit {0})
unfolding members_with_super_access delete_membership
delete_kit_membership db id user_id = do
  m ← ok_or (membership_by_id db id) (generic not_found)
  kit ← ok_or (kit_by_id db m.kit_id) (generic not_found)
  let action = if m.access_super then edit_super_members else edit_members
  kit_permission_or_forbidden db user_id kit action
  if m.access_super && ltb (members_with_super_access db kit.id) 2
      then err kits_require_one_super_member
      else ok (tt, delete_membership db id)

-- The requests that change memberships, each with the user that its token names.
pub data Request : Type 0 where
  creates : (user_id : ℕ) → NewKit → Request
  adds : Option ℕ → Text → AddMember → Request
  patches : Option ℕ → ℕ → KitMembershipPatch → Request
  deletes : Option ℕ → ℕ → Request

unfoldable pub step : Db → (now : ℕ) → Request → Db
step db now (creates user_id new_kit) = after db (create_kit db now user_id new_kit)
step db now (adds user_id kit_serial member) =
    after db (add_member db now user_id kit_serial member)
step db now (patches user_id id patch) = after db (patch_kit_membership db id user_id patch)
step db now (deletes user_id id) = after db (delete_kit_membership db id user_id)

unfoldable pub run : Db → List (ℕ × Request) → Db
unfolding step
run db [] = db
run db ((now, r) ∷ rs) = run (step db now r) rs
