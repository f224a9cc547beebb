-- ===== src/Api/Helpers.antt =====
-- astroplant-api/src/helpers.rs: fetching the actor, the kit and the membership, and checking the
-- permission. The queries are those of astroplant-api/src/models.
pub mod Granted
use astroplant_api.Prelude.{
  ℕ, Text, Bool, true, false, ◌&&◌, Option, none, some, ◌==◌, first, ok, err, ok_or, guard, ◌>>=◌,
  ◌>>◌,
}
use astroplant_api.Prelude.Equality.{◌≟◌, nat_eq, list_eq}
use astroplant_api.Api.Problem.{AppResult, generic, not_found, forbidden}
use astroplant_api.Api.Models.{User, Kit, KitMembership}
use astroplant_api.Api.Database.{Db}
use astroplant_api.Api.Authorization.{
  KitAction, KitUser, anonymous, user, user_with_membership, kit_permitted, UserAction,
  user_permitted,
}

-- User::by_id
abbrev pub user_by_id : Db → ℕ → Option User
user_by_id db id = first (λ u. u.id == id) db.users

-- Kit::by_id
abbrev pub kit_by_id : Db → ℕ → Option Kit
kit_by_id db id = first (λ k. k.id == id) db.kits

-- Kit::by_serial
abbrev pub kit_by_serial : Db → Text → Option Kit
kit_by_serial db serial = first (λ k. k.serial ≟ serial) db.kits

-- KitMembership::by_user_id_and_kit_id
abbrev pub membership_by_user_id_and_kit_id : Db → ℕ → ℕ → Option KitMembership
membership_by_user_id_and_kit_id db user_id kit_id =
    first (λ m. m.user_id == user_id && m.kit_id == kit_id) db.kit_memberships

-- The user of a request: none without a token, and a problem if the token's user is gone.
unfoldable pub actor : Db → Option ℕ → AppResult (Option User)
actor db none = ok none
actor db (some user_id) = do u ← ok_or (user_by_id db user_id) (generic not_found); ok (some u)

unfoldable pub membership_of : Db → Option ℕ → Kit → Option KitMembership
membership_of db none kit = none
membership_of db (some user_id) kit = membership_by_user_id_and_kit_id db user_id kit.id

unfoldable pub pack : Option User → Option KitMembership → KitUser
pack none m = anonymous
pack (some u) none = user u
pack (some u) (some m) = user_with_membership u m

abbrev pub unpack : KitUser → Option User × Option KitMembership
unpack anonymous = (none, none)
unpack (user u) = (some u, none)
unpack (user_with_membership u m) = (some u, some m)

-- permission_or_forbidden, at a kit and at a user
abbrev pub permission_or_forbidden : Bool → AppResult (Unit {0})
permission_or_forbidden permitted = guard permitted (generic forbidden)

-- kit_permission_or_forbidden
unfoldable pub kit_permission_or_forbidden :
    Db → Option ℕ → Kit → KitAction → AppResult (Option User × Option KitMembership)
unfolding actor membership_of pack
kit_permission_or_forbidden db user_id kit action = do
  u ← actor db user_id
  let kit_user = pack u (membership_of db user_id kit)
  permission_or_forbidden (kit_permitted action kit_user kit)
  ok (unpack kit_user)

-- fut_kit_permission_or_forbidden
unfoldable pub fut_kit_permission_or_forbidden :
    Db → Option ℕ → Text → KitAction → AppResult (Option User × Option KitMembership × Kit)
unfolding actor membership_of pack
fut_kit_permission_or_forbidden db user_id kit_serial action = do
  u ← actor db user_id
  kit ← ok_or (kit_by_serial db kit_serial) (generic not_found)
  let kit_user = pack u (membership_of db user_id kit)
  permission_or_forbidden (kit_permitted action kit_user kit)
  let (found, membership) = unpack kit_user
  ok (found, membership, kit)
