-- ===== src/Api/Authorization/Order.antt =====
-- More access permits more.
use astroplant_api.Prelude.{◌≡◌, refl, true, arith}
use astroplant_api.Api.Models.{User, Kit, KitMembership}
use astroplant_api.Api.Authorization.{
  KitAction, KitUser, anonymous, user, user_with_membership, kit_permitted, public_action,
  member_action, view, subscribe_real_time_measurements, edit_details, edit_configuration,
  delete_media, delete, reset_password, edit_members, edit_super_members, rpc_version, rpc_uptime,
  rpc_peripheral_command, rpc_peripheral_command_lock,
}

-- Access that is the same or wider: a visitor, a user, a member, and a member with more rights.
pub data IsWider : KitUser → KitUser → Type 0 where
  logged_in : (u : User) → IsWider anonymous (user u)
  joined : (u v : User) (m : KitMembership) → IsWider (user u) (user_with_membership v m)
  joined_from_outside :
      (v : User) (m : KitMembership) → IsWider anonymous (user_with_membership v m)
  raised :
      (u v : User) (m n : KitMembership)
      → (m.access_configure ≡ true → n.access_configure ≡ true)
      → (m.access_super ≡ true → n.access_super ≡ true)
      → IsWider (user_with_membership u m) (user_with_membership v n)

public-member :
    (action : KitAction) (m : KitMembership) (kit : Kit)
    → public_action action kit ≡ true
    → member_action action m ≡ true
unfolding public_action member_action
public-member view m kit h = refl
public-member subscribe_real_time_measurements m kit h = refl
public-member edit_details m kit h = cc
public-member edit_configuration m kit h = cc
public-member delete_media m kit h = cc
public-member delete m kit h = cc
public-member reset_password m kit h = cc
public-member edit_members m kit h = cc
public-member edit_super_members m kit h = cc
public-member rpc_version m kit h = cc
public-member rpc_uptime m kit h = cc
public-member rpc_peripheral_command m kit h = cc
public-member rpc_peripheral_command_lock m kit h = cc

member-member :
    (action : KitAction) (m n : KitMembership)
    → (m.access_configure ≡ true → n.access_configure ≡ true)
    → (m.access_super ≡ true → n.access_super ≡ true)
    → member_action action m ≡ true
    → member_action action n ≡ true
unfolding member_action
member-member view m n c s h = refl
member-member subscribe_real_time_measurements m n c s h = refl
member-member edit_details m n c s h = ground arith
member-member edit_configuration m n c s h = ground arith
member-member delete_media m n c s h = ground arith
member-member delete m n c s h = s h
member-member reset_password m n c s h = s h
member-member edit_members m n c s h = s h
member-member edit_super_members m n c s h = s h
member-member rpc_version m n c s h = s h
member-member rpc_uptime m n c s h = s h
member-member rpc_peripheral_command m n c s h = s h
member-member rpc_peripheral_command_lock m n c s h = s h

-- Whatever a visitor, a user or a member of a kit may do, someone with the same or wider access to
-- the kit may do too.
pub kit_permitted-IsWider :
    (action : KitAction) (a b : KitUser) (kit : Kit)
    → IsWider a b
    → kit_permitted action a kit ≡ true
    → kit_permitted action b kit ≡ true
unfolding kit_permitted
kit_permitted-IsWider action a b kit (logged_in u) h = h
kit_permitted-IsWider action a b kit (joined u v m) h = public-member action m kit h
kit_permitted-IsWider action a b kit (joined_from_outside v m) h = public-member action m kit h
kit_permitted-IsWider action a b kit (raised u v m n c s) h = member-member action m n c s h
