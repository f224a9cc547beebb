-- ===== src/Api/Users/Examples.antt =====
-- The first user of the sample database takes another name.
use astroplant_api.Prelude.{ℕ, ◌≡◌, ◌≢◌, refl, some, none, ok, codes}
use astroplant_api.Api.Problem.{is_empty}
use astroplant_api.Api.Models.{User}
use astroplant_api.Api.Database.{Db, after}
use astroplant_api.Api.Sample.{small, person}
use astroplant_api.Api.Authorization.{user_permitted}
use astroplant_api.Api.Helpers.{user_by_id}
use astroplant_api.Api.Users.{UserPatch}
use astroplant_api.Api.Users.Patching.{changed_user, update_of_patch, patch_user}
use astroplant_api.Api.Users.Sample.{ascii}
use astroplant_api.Api.Users.Accounts.{patch_user-changed_user}

abbrev renamed : UserPatch
renamed = record {
  display_name = some (codes "Ada");
  email_address = none;
  use_email_address_for_gravatar = none;
}

abbrev patched_person : User
patched_person = changed_user ascii 10 (update_of_patch ascii 1 renamed) (person 1)

abbrev after_patch : Db
after_patch = after small (patch_user ascii small 10 (person 1).username (some 1) renamed)

after_patch_lem :
    patch_user ascii small 10 (person 1).username (some 1) renamed
    ≡ ok (patched_person, after_patch)
unfolding patch_user is_empty user_permitted
after_patch_lem = refl

patch_user-changed_user_example :
    (row : User) × (some 1 ≡ some row.id)
    × (user_by_id small row.id ≡ some row)
    × (patched_person ≡ changed_user ascii 10 (update_of_patch ascii row.id renamed) row)
    × (user_by_id after_patch row.id ≡ some patched_person)
    × ((other : ℕ) → other ≢ row.id → user_by_id after_patch other ≡ user_by_id small other)
patch_user-changed_user_example =
    patch_user-changed_user ascii small 10 (person 1).username (some 1) renamed patched_person
      after_patch after_patch_lem
