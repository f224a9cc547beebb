-- ===== src/Api/Members/Examples.antt =====
-- Membership requests on a small database.
use astroplant_api.Prelude.{ℕ, ◌≡◌, refl, true, some, List, [], ◌∷◌, err, codes, arith}
use astroplant_api.Prelude.Equality.{nat_eq, list_eq}
use astroplant_api.Api.Problem.{generic, forbidden, kits_require_one_super_member}
use astroplant_api.Api.Authorization.{kit_permitted}
use astroplant_api.Api.Helpers.{kit_permission_or_forbidden}
use astroplant_api.Api.Sample.{owner, helper, small}
use astroplant_api.Api.Members.{delete_kit_membership, Request, adds, patches, deletes, run}
use astroplant_api.Api.Members.Success.{IsSuperUser}
use astroplant_api.Api.Members.Invariant.{IsValid, run-IsValid}
use astroplant_api.Api.Members.Outsider.{members, run-members}

small-IsValid : IsValid small
small-IsValid = record {
  keys = record {
    unique_ids = omega arith;
    fresh_id = omega arith;
    kit_ids = omega arith;
    linked = omega arith;
    single = λ k u. ground arith;
  };
  supers = omega arith;
}

-- The only member with super access cannot be removed, and a member without it can remove nobody.
refusals :
    (delete_kit_membership small 0 (some 1) ≡ err kits_require_one_super_member)
    × (delete_kit_membership small 0 (some 2) ≡ err (generic forbidden))
    × (delete_kit_membership small 1 (some 2) ≡ err (generic forbidden))
unfolding delete_kit_membership kit_permission_or_forbidden kit_permitted
refusals = (refl, refl, refl)

abbrev escalation : List (ℕ × Request)
escalation =
    (5, patches (some 2) 1 (record { access_configure = true; access_super = true }))
    ∷ (
      6,
      adds (some 2) (codes "k-garden")
          (record { username = 3 ∷ []; access_configure = true; access_super = true }),
    )
    ∷ (7, deletes (some 2) 0)
    ∷ []

helper_is_no_super : ¬ IsSuperUser small (some 2) 0
helper_is_no_super s = ground (arith, s.of_request, s.listed, s.passes)

run-IsValid_example : IsValid (run small escalation)
run-IsValid_example = run-IsValid small escalation small-IsValid

run-members_example : members 0 (run small escalation) ≡ owner ∷ helper ∷ []
run-members_example =
    run-members small escalation 0 small-IsValid (omega arith)
      (helper_is_no_super, (helper_is_no_super, (helper_is_no_super, tt)))
