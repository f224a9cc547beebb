-- ===== src/Api/Users/Patching.antt =====
-- controllers/user/mod.rs: a user changes their own details.
use astroplant_api.Prelude.{
  is_none, value_or, ltb, ℕ, Text, codes, Bool, true, false, not, ◌&&◌, Option, none, some, List,
  [], ◌==◌, leb, length, first, count, if◌then◌else◌, ok, err, ◌>>=◌, ◌>>◌, ok_or, guard,
}
use astroplant_api.Prelude.Equality.{◌≟◌, nat_eq, list_eq}
use astroplant_api.Prelude.Keyed.{update_at}
use astroplant_api.Api.Problem.{
  AppResult, generic, not_found, internal_server_error, InvalidParameters, must_be_email_address,
  must_have_length_between, already_exists, invalid_parameters, is_empty, singleton,
}
use astroplant_api.Api.Models.{User}
use astroplant_api.Api.Database.{Db, Tx}
use astroplant_api.Api.Authorization.{UserAction, edit_user_details, user_permitted}
use astroplant_api.Api.Helpers.{actor, permission_or_forbidden}
use astroplant_api.Api.Users.{
  Texts, UpdateUser, UserPatch, reject_unless, by_username, by_email_address,
}

module _ (t : Texts) where
  -- fut_user_permission_or_forbidden
  unfoldable pub fut_user_permission_or_forbidden :
      Db → Option ℕ → (object_username : Text) → UserAction → AppResult (Option User × User)
  unfolding actor
  fut_user_permission_or_forbidden db actor_user_id object_username action = do
    actor_user ← actor db actor_user_id
    object_user ← ok_or (by_username t db object_username) (generic not_found)
    permission_or_forbidden (user_permitted action actor_user object_user)
    ok (actor_user, object_user)

  -- The derived `Validate` of `UpdateUser`, field after field; a field that is not given is valid.
  unfoldable pub validate_update : UpdateUser → InvalidParameters
  validate_update update =
      reject_unless
        (elim update.display_name [
          | none ↦ true
          | some name ↦ leb 1 (length name) && leb (length name) 40
        ])
        (codes "displayName") (must_have_length_between (some 1) (some 40))
        (reject_unless
          (elim update.email_address [ none ↦ true | some address ↦ leb (length address) 255 ])
          (codes "emailAddress") (must_have_length_between none (some 255))
          (reject_unless
            (elim update.email_address [ none ↦ true | some address ↦ t.is_email_address address ])
            (codes "emailAddress") must_be_email_address []))

  abbrev pub is_noop_user : UpdateUser → Bool
  is_noop_user update =
      is_none update.display_name
      && is_none update.email_address
      && is_none update.password_hash
      && is_none update.use_email_address_for_gravatar

  abbrev pub changed_user : (now : ℕ) → UpdateUser → User → User
  changed_user now update u = record u {
    display_name = value_or update.display_name u.display_name;
    email_address = value_or update.email_address u.email_address;
    password_hash = value_or update.password_hash u.password_hash;
    use_email_address_for_gravatar =
        value_or update.use_email_address_for_gravatar u.use_email_address_for_gravatar;
    updated_at = now;
  }

  -- What the query of an update returns.
  abbrev pub returned_user : Db → (rows : List User) → Option User → Tx User
  returned_user db rows none = err (generic not_found)
  returned_user db rows (some u) =
      if ltb 1 (count (λ v. v.email_address ≟ u.email_address) rows)
      then err (generic internal_server_error)
      else ok (u, record db { users = rows })

  -- UpdateUser::update: without a change there is no query, and the index on the email address rejects
  -- a second row with the same.
  unfoldable pub update_user : Db → (now : ℕ) → UpdateUser → Tx User
  update_user db now update =
      let rows = update_at (λ u. u.id) update.id (changed_user now update) db.users in
      if is_noop_user update
      then err (generic internal_server_error)
      else returned_user db rows (first (λ u. u.id == update.id) rows)

  -- The email address of a patch, if another user has it.
  abbrev pub taken_by_other : Db → (user_id : ℕ) → Option Text → Bool
  taken_by_other db user_id none = false
  taken_by_other db user_id (some address) = elim (by_email_address t db address) [
    | none ↦ false
    | some found ↦ not (found.id == user_id)
  ]

  abbrev pub update_of_patch : (user_id : ℕ) → UserPatch → UpdateUser
  update_of_patch user_id patch = record {
    id = user_id;
    display_name = patch.display_name;
    email_address = patch.email_address;
    password_hash = none;
    use_email_address_for_gravatar = patch.use_email_address_for_gravatar;
  }

  -- What patch_user does to the user that was asked for.
  unfoldable pub patch_row : Db → (now : ℕ) → (user_id : ℕ) → UserPatch → Tx User
  unfolding validate_update update_user
  patch_row db now user_id patch = do
    guard (not (taken_by_other db user_id patch.email_address))
        (singleton already_exists (codes "emailAddress"))
    guard (is_empty (validate_update (update_of_patch user_id patch)))
        (invalid_parameters (validate_update (update_of_patch user_id patch)))
    update_user db now (update_of_patch user_id patch)

  -- patch_user
  unfoldable pub patch_user :
      Db → (now : ℕ) → (object_username : Text) → (actor_user_id : Option ℕ) → UserPatch → Tx User
  unfolding fut_user_permission_or_forbidden patch_row
  patch_user db now object_username actor_user_id patch = do
    granted ← fut_user_permission_or_forbidden db actor_user_id object_username edit_user_details
    patch_row db now granted.1.id patch
