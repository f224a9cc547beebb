-- ===== src/Api/Authorization/Examples.antt =====
-- Permissions of the members of a small kit.
use astroplant_api.Prelude.{◌≡◌, refl, true}
use astroplant_api.Api.Authorization.{edit_configuration, user_with_membership, kit_permitted}
use astroplant_api.Api.Authorization.Order.{raised, kit_permitted-IsWider}
use astroplant_api.Api.Sample.{person, garden, owner, helper}

kit_permitted-IsWider_example :
    kit_permitted edit_configuration (user_with_membership (person 1) owner) garden ≡ true
unfolding kit_permitted
kit_permitted-IsWider_example =
    kit_permitted-IsWider edit_configuration (user_with_membership (person 2) helper)
      (user_with_membership (person 1) owner) garden
      (raised (person 2) (person 1) helper owner (λ h. h) (λ h. refl)) refl
