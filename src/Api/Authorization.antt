-- ===== src/Api/Authorization.antt =====
-- astroplant-api/src/authorization/mod.rs: who may do what to a kit or a user.
use astroplant_api.Prelude.{
  ℕ, ◌≡◌, ◌↔◌, Bool, true, false, ◌&&◌, ◌||◌, Option, none, some, ◌==◌, bool_eq, arith, ==_iff,
}
use astroplant_api.Prelude.Equality.{◌≟◌, ≟_iff, nat_eq, list_eq}
use astroplant_api.Api.Models.{User, Kit, KitMembership}
pub mod Order
pub mod Examples

pub data KitAction : Type 0 where
  view subscribe_real_time_measurements delete delete_media reset_password edit_details
        edit_configuration edit_members edit_super_members rpc_version rpc_uptime
        rpc_peripheral_command rpc_peripheral_command_lock :
      KitAction

pub data KitUser : Type 0 where
  anonymous : KitUser
  user : User → KitUser
  user_with_membership : User → KitMembership → KitUser

public_action : KitAction → Kit → Bool
public_action view kit = kit.privacy_public_dashboard
public_action subscribe_real_time_measurements kit = kit.privacy_public_dashboard
public_action _ kit = false

member_action : KitAction → KitMembership → Bool
member_action view m = true
member_action subscribe_real_time_measurements m = true
member_action edit_details m = m.access_configure || m.access_super
member_action edit_configuration m = m.access_configure || m.access_super
member_action delete_media m = m.access_configure || m.access_super
member_action delete m = m.access_super
member_action reset_password m = m.access_super
member_action edit_members m = m.access_super
member_action edit_super_members m = m.access_super
member_action rpc_version m = m.access_super
member_action rpc_uptime m = m.access_super
member_action rpc_peripheral_command m = m.access_super
member_action rpc_peripheral_command_lock m = m.access_super

-- KitAction::permitted
unfoldable pub kit_permitted : KitAction → KitUser → Kit → Bool
unfolding public_action member_action
kit_permitted action anonymous kit = public_action action kit
kit_permitted action (user _) kit = public_action action kit
kit_permitted action (user_with_membership _ membership) kit = member_action action membership

pub data UserAction : Type 0 where
  view_user list_kit_memberships edit_user_details : UserAction

-- The derived `PartialEq` of `User`: every field.
unfoldable pub user_eq : User → User → Bool
user_eq a b =
    a.id == b.id
    && a.username ≟ b.username
    && a.display_name ≟ b.display_name
    && a.password_hash ≟ b.password_hash
    && a.email_address ≟ b.email_address
    && bool_eq a.use_email_address_for_gravatar b.use_email_address_for_gravatar
    && a.gravatar_alternative ≟ b.gravatar_alternative
    && a.created_at == b.created_at
    && a.updated_at == b.updated_at

-- UserAction::permitted
unfoldable pub user_permitted : UserAction → Option User → User → Bool
unfolding user_eq
user_permitted view_user acting object = true
user_permitted list_kit_memberships acting object = true
user_permitted edit_user_details none object = false
user_permitted edit_user_details (some acting) object = user_eq acting object
