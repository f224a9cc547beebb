-- ===== src/Api/Members/Success.antt =====
-- What a membership request that succeeds has checked, and the state that it leaves.
use astroplant_api.Prelude.{
  ℕ, Text, ◌≡◌, Bool, true, false, not, ◌&&◌, Option, some, ◌==◌, ltb, if◌then◌else◌, first, ok,
  arith, >>=-eq-ok, ok_or-bind-eq-ok, if_err-eq-ok, ==_iff, first-eq-some,
}
use astroplant_api.Prelude.Equality.{◌≟◌, nat_eq, list_eq}
use astroplant_api.Api.Models.{User, Kit, NewKit, KitMembership}
use astroplant_api.Api.Database.{Db}
use astroplant_api.Api.Authorization.{edit_members, edit_super_members}
use astroplant_api.Api.Helpers.{
  kit_by_id, kit_by_serial, kit_permission_or_forbidden, fut_kit_permission_or_forbidden,
}
use astroplant_api.Api.Helpers.Granted.{
  IsMemberWith, Guards, edit_members-Guards, edit_super_members-Guards,
  kit_permission_or_forbidden-IsMemberWith, fut_kit_permission_or_forbidden-IsMemberWith,
}
use astroplant_api.Api.Members.{
  new_membership, insert_membership, insert_kit, create_kit, AddMember, add_member,
  existing_membership, find_or_insert, KitMembershipPatch, members_with_super_access,
  membership_by_id, patched, update_membership, patch_kit_membership, delete_membership,
  delete_kit_membership,
}

-- The user of a request has super access to a kit.
abbrev pub IsSuperUser : Db → Option ℕ → ℕ → Type 0
IsSuperUser = IsMemberWith (λ m. m.access_super)

-- Whichever of the two actions a request needs, it wants super access.
members_action-Guards :
    (b : Bool) → Guards (λ m. m.access_super) (if b then edit_super_members else edit_members)
members_action-Guards true = edit_super_members-Guards
members_action-Guards false = edit_members-Guards

pub record Patched (db : Db) (id : ℕ) (user_id : Option ℕ) (patch : KitMembershipPatch)
    (m' : KitMembership) (db' : Db) : Type 0 where
  pub membership : KitMembership
  pub found : membership_by_id db id ≡ some membership
  pub by_super : IsSuperUser db user_id membership.kit_id
  pub allowed :
      (membership.access_super
        && not patch.access_super
        && ltb (members_with_super_access db membership.kit_id) 2)
      ≡ false
  pub result : m' ≡ patched patch membership
  pub state : db' ≡ update_membership db id patch

-- A kit that a query by id finds has that id.
kit_by_id-id : (db : Db) (id : ℕ) (k : Kit) → kit_by_id db id ≡ some k → k.id ≡ id
kit_by_id-id db id k h = (==_iff k.id id).0 (first-eq-some (λ k. k.id == id) db.kits k h)

pub patch-Patched :
    (db : Db) (id : ℕ) (user_id : Option ℕ) (patch : KitMembershipPatch) (m' : KitMembership)
    (db' : Db)
    → patch_kit_membership db id user_id patch ≡ ok (m', db')
    → Patched db id user_id patch m' db'
unfolding patch_kit_membership
patch-Patched db id user_id patch m' db' h =
    let (m, found, h1) = ok_or-bind-eq-ok (membership_by_id db id) _ _ h in
    let (kit, of_kit, h2) = ok_or-bind-eq-ok (kit_by_id db m.kit_id) _ _ h1 in
    let (_, granted, h3) = >>=-eq-ok (kit_permission_or_forbidden db user_id kit _) _ h2 in
    let (allowed, done) = if_err-eq-ok _ _ _ h3 in
    let same = kit_by_id-id db m.kit_id kit of_kit in
    record {
      membership = m;
      found = found;
      by_super = rw same at (
          kit_permission_or_forbidden-IsMemberWith _ _ (members_action-Guards _) db user_id kit
            granted);
      allowed = rw (← same) allowed;
      result = cc done;
      state = cc done;
    }

pub record Deleted (db : Db) (id : ℕ) (user_id : Option ℕ) (db' : Db) : Type 0 where
  pub membership : KitMembership
  pub found : membership_by_id db id ≡ some membership
  pub by_super : IsSuperUser db user_id membership.kit_id
  pub allowed :
      (membership.access_super && ltb (members_with_super_access db membership.kit_id) 2) ≡ false
  pub state : db' ≡ delete_membership db id

pub delete-Deleted :
    (db : Db) (id : ℕ) (user_id : Option ℕ) (u : Unit {0}) (db' : Db)
    → delete_kit_membership db id user_id ≡ ok (u, db')
    → Deleted db id user_id db'
unfolding delete_kit_membership
delete-Deleted db id user_id u db' h =
    let (m, found, h1) = ok_or-bind-eq-ok (membership_by_id db id) _ _ h in
    let (kit, of_kit, h2) = ok_or-bind-eq-ok (kit_by_id db m.kit_id) _ _ h1 in
    let (_, granted, h3) = >>=-eq-ok (kit_permission_or_forbidden db user_id kit _) _ h2 in
    let (allowed, done) = if_err-eq-ok _ _ _ h3 in
    let same = kit_by_id-id db m.kit_id kit of_kit in
    record {
      membership = m;
      found = found;
      by_super = rw same at (
          kit_permission_or_forbidden-IsMemberWith _ _ (members_action-Guards _) db user_id kit
            granted);
      allowed = rw (← same) allowed;
      state = cc done;
    }

-- An added member is a user that exists, and the request adds a row or finds the one that is there.
pub record Added (db : Db) (now : ℕ) (user_id : Option ℕ) (serial : Text) (member : AddMember)
    (m : KitMembership) (db' : Db) : Type 0 where
  pub kit : Kit
  pub user : User
  pub of_serial : kit_by_serial db serial ≡ some kit
  pub by_super : IsSuperUser db user_id kit.id
  pub result :
      ◌≡◌ {A = KitMembership × Db}
        (m, db')
        (find_or_insert db now kit.id user.id member (existing_membership db kit.id user.id))

pub add-Added :
    (db : Db) (now : ℕ) (user_id : Option ℕ) (serial : Text) (member : AddMember)
    (m : KitMembership) (db' : Db)
    → add_member db now user_id serial member ≡ ok (m, db')
    → Added db now user_id serial member m db'
unfolding add_member
add-Added db now user_id serial member m db' h =
    let (g, granted, h1) = >>=-eq-ok (fut_kit_permission_or_forbidden db user_id serial _) _ h in
    let (user, known, h2) =
      ok_or-bind-eq-ok (first (λ u. u.username ≟ member.username) db.users) _ _ h1 in
    let kit = g.2 in
    let (of_serial, by_super) =
      fut_kit_permission_or_forbidden-IsMemberWith _ _ (members_action-Guards _) db user_id serial
        g.0 g.1 kit granted in
    record { kit = kit; user = user; of_serial = of_serial; by_super = by_super; result = cc h2 }

pub record Created (db : Db) (now user_id : ℕ) (new_kit : NewKit) (kit : Kit) (db' : Db)
    : Type 0 where
  pub same_kit : kit ≡ (insert_kit db now new_kit).1
  pub state :
      db'
      ≡ insert_membership
          (insert_kit db now new_kit).0
          (new_membership db now user_id db.next_kit_id true true)

pub create-Created :
    (db : Db) (now user_id : ℕ) (new_kit : NewKit) (kit : Kit) (db' : Db)
    → create_kit db now user_id new_kit ≡ ok (kit, db')
    → Created db now user_id new_kit kit db'
unfolding create_kit
create-Created db now user_id new_kit kit db' h = record {
  same_kit = ground arith;
  state = ground arith;
}
