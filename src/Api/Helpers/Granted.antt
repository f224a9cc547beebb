-- ===== src/Api/Helpers/Granted.antt =====
-- What a granted permission shows about the user of the request.
use astroplant_api.Prelude.{
  ℕ, Text, ◌≡◌, Bool, true, false, Option, none, some, ok, inl, inr, refl, Option-cases, sym, ◌∙◌,
  ap, >>=-eq-ok, ok_or-bind-eq-ok, guard-bind-eq-ok,
}
use astroplant_api.Api.Models.{User, Kit, KitMembership}
use astroplant_api.Api.Database.{Db}
use astroplant_api.Api.Authorization.{
  KitAction, delete, edit_members, edit_super_members, anonymous, user, user_with_membership,
  kit_permitted,
}
use astroplant_api.Api.Helpers.{
  kit_by_serial, membership_by_user_id_and_kit_id, actor, membership_of, pack,
  kit_permission_or_forbidden, fut_kit_permission_or_forbidden,
}

-- The user of a request is a member of the kit, and the membership passes a test.
pub record IsMemberWith (test : KitMembership → Bool) (db : Db) (user_id : Option ℕ) (kit_id : ℕ)
    : Type 0 where
  pub id : ℕ
  pub membership : KitMembership
  pub of_request : user_id ≡ some id
  pub listed : membership_by_user_id_and_kit_id db id kit_id ≡ some membership
  pub passes : test membership ≡ true

-- An action that no stranger may do, and that members may do if they pass a test.
pub record Guards (test : KitMembership → Bool) (action : KitAction) : Type 0 where
  pub strangers : (kit : Kit) → kit_permitted action anonymous kit ≡ false
  pub users : (u : User) (kit : Kit) → kit_permitted action (user u) kit ≡ false
  pub members :
      (u : User) (m : KitMembership) (kit : Kit)
      → kit_permitted action (user_with_membership u m) kit ≡ test m

permitted-IsMemberWith :
    (test : KitMembership → Bool) (action : KitAction) (db : Db) (user_id : Option ℕ) (kit : Kit)
    (u : Option User)
    → Guards test action
    → kit_permitted action (pack u (membership_of db user_id kit)) kit ≡ true
    → IsMemberWith test db user_id kit.id
unfolding pack membership_of
permitted-IsMemberWith test action db user_id kit none g h = absurd (cc (g.strangers kit))
permitted-IsMemberWith test action db none kit (some u) g h = absurd (cc (g.users u kit))
permitted-IsMemberWith test action db (some id) kit (some u) g h =
    elim (Option-cases (membership_by_user_id_and_kit_id db id kit.id)) [
      | inl missing ↦ absurd (cc (g.users u kit, rw (missing, pack) at h))
      | inr (m, listed) ↦ record {
        id = id;
        membership = m;
        of_request = refl;
        listed = listed;
        passes = sym (g.members u m kit) ∙ (rw (listed, pack) at h);
      }
    ]

module _ (test : KitMembership → Bool) (action : KitAction) (g : Guards test action) where
  pub kit_permission_or_forbidden-IsMemberWith :
      (db : Db) (user_id : Option ℕ) (kit : Kit) {found : Option User × Option KitMembership}
      → kit_permission_or_forbidden db user_id kit action ≡ ok found
      → IsMemberWith test db user_id kit.id
  unfolding kit_permission_or_forbidden
  kit_permission_or_forbidden-IsMemberWith db user_id kit h =
      let (u, _, h1) = >>=-eq-ok (actor db user_id) _ h in
      permitted-IsMemberWith test action db user_id kit u g (guard-bind-eq-ok _ _ _ h1).0

  pub fut_kit_permission_or_forbidden-IsMemberWith :
      (db : Db) (user_id : Option ℕ) (serial : Text) (u : Option User) (m : Option KitMembership)
      (kit : Kit)
      → fut_kit_permission_or_forbidden db user_id serial action ≡ ok (u, m, kit)
      → (kit_by_serial db serial ≡ some kit) × IsMemberWith test db user_id kit.id
  unfolding fut_kit_permission_or_forbidden
  fut_kit_permission_or_forbidden-IsMemberWith db user_id serial u m kit h =
      let (v, _, h1) = >>=-eq-ok (actor db user_id) _ h in
      let (k, found, h2) = ok_or-bind-eq-ok (kit_by_serial db serial) _ _ h1 in
      let (granted, h3) = guard-bind-eq-ok _ _ _ h2 in
      let same : k ≡ kit = cc h3 in
      (
        found ∙ ap some same,
        rw same at (permitted-IsMemberWith test action db user_id k v g granted),
      )

-- Editing members wants super access.
pub edit_members-Guards : Guards (λ m. m.access_super) edit_members
unfolding kit_permitted
edit_members-Guards = record { strangers = λ k. refl; users = λ u k. refl; members = λ u m k. refl }

pub edit_super_members-Guards : Guards (λ m. m.access_super) edit_super_members
unfolding kit_permitted
edit_super_members-Guards = record {
  strangers = λ k. refl;
  users = λ u k. refl;
  members = λ u m k. refl;
}

-- So does the deletion of the kit.
pub delete-Guards : Guards (λ m. m.access_super) delete
unfolding kit_permitted
delete-Guards = record { strangers = λ k. refl; users = λ u k. refl; members = λ u m k. refl }
