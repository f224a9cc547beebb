-- ===== src/Api/Users/Accounts.antt =====
-- Whose account a patch changes.
use astroplant_api.Prelude.{
  ℕ, ◌≡◌, ◌≢◌, refl, sym, ◌∙◌, ap, subst, Text, true, not, Option, none, some, List, ◌==◌, first,
  ltb, count, ok, ◌>>◌, guard, ok_or-bind-eq-ok, >>=-eq-ok, guard-bind-eq-ok, if_err-eq-ok, arith,
  ==_iff, first-eq-some,
}
use astroplant_api.Prelude.Equality.{◌≟◌, nat_eq, list_eq}
use astroplant_api.Prelude.Keyed.{update_at, first-update_at, first-update_at_ne}
use astroplant_api.Api.Problem.{invalid_parameters, is_empty}
use astroplant_api.Api.Models.{User}
use astroplant_api.Api.Database.{Db}
use astroplant_api.Api.Authorization.{edit_user_details, user_permitted, user_eq}
use astroplant_api.Api.Helpers.{user_by_id, actor}
use astroplant_api.Api.Users.{Texts, UpdateUser, UserPatch, by_username}
use astroplant_api.Api.Users.Patching.{
  fut_user_permission_or_forbidden, validate_update, is_noop_user, changed_user, returned_user,
  update_user, taken_by_other, update_of_patch, patch_row, patch_user,
}

permitted_own :
    (acting : Option User) (object : User)
    → user_permitted edit_user_details acting object ≡ true
    → (a : User) × (acting ≡ some a) × (a.id ≡ object.id)
unfolding user_permitted user_eq
permitted_own none object h = cc
permitted_own (some a) object h = (a, refl, ground (arith, h))

actor-eq-some :
    (db : Db) (id : Option ℕ) (a : User)
    → actor db id ≡ ok (some a)
    → (id ≡ some a.id) × (user_by_id db a.id ≡ some a)
unfolding actor
actor-eq-some db none a h = cc
actor-eq-some db (some id) a h =
    let (b, found, h1) = ok_or-bind-eq-ok (user_by_id db id) _ _ h in
    let same : b ≡ a = cc h1 in
    let here : a.id ≡ id =
      (==_iff a.id id).0 (first-eq-some (λ u. u.id == id) db.users a (found ∙ ap some same)) in
    (ap some (sym here), subst (λ k. user_by_id db k ≡ some a) (sym here) (found ∙ ap some same))

module _ (t : Texts) where
  returned_user-eq-ok :
      (db : Db) (rows : List User) (found : Option User) (u : User) (db' : Db)
      → returned_user t db rows found ≡ ok (u, db')
      → (found ≡ some u) × (db'.users ≡ rows)
  returned_user-eq-ok db rows none u db' h = cc
  returned_user-eq-ok db rows (some v) u db' h =
      let (fine, h1) =
        if_err-eq-ok (ltb 1 (count (λ w. w.email_address ≟ v.email_address) rows)) _ _ h in
      (cc h1, let same : record db { users = rows } ≡ db' = cc h1 in ap (λ d. d.users) (sym same))

  update_user-eq-ok :
      (db : Db) (now : ℕ) (update : UpdateUser) (row u : User) (db' : Db)
      → update_user t db now update ≡ ok (u, db')
      → user_by_id db update.id ≡ some row
      → (u ≡ changed_user t now update row)
        × (user_by_id db' update.id ≡ some u)
        × ((other : ℕ) → other ≢ update.id → user_by_id db' other ≡ user_by_id db other)
  unfolding update_user
  update_user-eq-ok db now update row u db' h found =
      let change = changed_user t now update in
      let rows = update_at (λ v. v.id) update.id change db.users in
      let (some_change, h1) =
        if_err-eq-ok (is_noop_user t update) _
          (returned_user t db rows (first (λ v. v.id == update.id) rows)) h in
      let (fetched, stored) =
        returned_user-eq-ok db rows (first (λ v. v.id == update.id) rows) u db' h1 in
      let new = first-update_at (λ v. v.id) change (λ v. refl) update.id db.users row found in
      let same : u ≡ change row = cc (fetched, new) in
      (
        same,
        ap (λ users. first (λ v. v.id == update.id) users) stored ∙ fetched,
        λ other ne.
            ap (λ users. first (λ v. v.id == other) users) stored
            ∙ first-update_at_ne (λ v. v.id) change (λ v. refl) other update.id db.users ne,
      )

  patch_row-eq-ok :
      (db : Db) (now user_id : ℕ) (patch : UserPatch) (u : User) (db' : Db)
      → patch_row t db now user_id patch ≡ ok (u, db')
      → update_user t db now (update_of_patch t user_id patch) ≡ ok (u, db')
  unfolding patch_row
  patch_row-eq-ok db now user_id patch u db' h =
      let update = update_of_patch t user_id patch in
      let (free, h1) =
        guard-bind-eq-ok (not (taken_by_other t db user_id patch.email_address)) _
          (guard (is_empty (validate_update t update))
              (invalid_parameters (validate_update t update))
            >> update_user t db now update)
          h in
      (guard-bind-eq-ok (is_empty (validate_update t update))
        (invalid_parameters (validate_update t update)) (update_user t db now update) h1).1

  -- A patch of a user that succeeds was sent by that user: the row with the id of the sender is the one
  -- that changes, in the fields of the patch, and every other user stays as it was.
  pub patch_user-changed_user :
      (db : Db) (now : ℕ) (object_username : Text) (actor_user_id : Option ℕ) (patch : UserPatch)
      (u : User) (db' : Db)
      → patch_user t db now object_username actor_user_id patch ≡ ok (u, db')
      → (row : User) × (actor_user_id ≡ some row.id)
        × (user_by_id db row.id ≡ some row)
        × (u ≡ changed_user t now (update_of_patch t row.id patch) row)
        × (user_by_id db' row.id ≡ some u)
        × ((other : ℕ) → other ≢ row.id → user_by_id db' other ≡ user_by_id db other)
  unfolding patch_user fut_user_permission_or_forbidden
  patch_user-changed_user db now name id patch u db' h =
      let (granted, allowed, h1) =
        >>=-eq-ok (fut_user_permission_or_forbidden t db id name edit_user_details) _ h in
      let (acting, who, k1) = >>=-eq-ok (actor db id) _ allowed in
      let (object, named, k2) = ok_or-bind-eq-ok (by_username t db name) _ _ k1 in
      let (permitted, k3) =
        guard-bind-eq-ok (user_permitted edit_user_details acting object) _ _ k2 in
      let (row, is_row, same_id) = permitted_own acting object permitted in
      let (mine, found) = actor-eq-some db id row (who ∙ ap ok is_row) in
      let same : object ≡ granted.1 = cc k3 in
      let target : granted.1.id ≡ row.id = ap (λ u. u.id) (sym same) ∙ sym same_id in
      let (change, stored, others) =
        update_user-eq-ok db now (update_of_patch t row.id patch) row u db'
          (subst (λ k. update_user t db now (update_of_patch t k patch) ≡ ok (u, db')) target
            (patch_row-eq-ok db now granted.1.id patch u db' h1))
          found in
      (row, mine, found, change, stored, others)
