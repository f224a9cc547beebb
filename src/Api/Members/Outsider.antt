-- ===== src/Api/Members/Outsider.antt =====
-- Who cannot change the members of a kit.
use astroplant_api.Prelude.{
  ℕ, ◌<◌, ◌≡◌, ◌≢◌, refl, sym, ◌∙◌, ap, Bool, true, false, ◌&&◌, Option, none, some, List, [], ◌∷◌,
  ◌++◌, ◌==◌, first, keep, All, arith, All-mono, ◌≤◌,
}
use native.Mathlib.Nat.{le_trans}
use astroplant_api.Prelude.Equality.{nat_eq, list_eq}
use astroplant_api.Api.Models.{NewKit, KitMembership}
use astroplant_api.Api.Database.{Db, after_ok}
use astroplant_api.Api.Members.{
  new_membership, insert_membership, find_or_insert, insert_kit, create_kit, AddMember, add_member,
  KitMembershipPatch, update_membership, patch_kit_membership, delete_membership,
  delete_kit_membership, Request, creates, adds, patches, deletes, step, run,
}
use astroplant_api.Api.Members.Rows.{
  UniqueIds, update_rows, delete_rows, update_rows_none, delete_rows_none,
}
use astroplant_api.Api.Members.Success.{
  IsSuperUser, create-Created, add-Added, patch-Patched, delete-Deleted,
}
use astroplant_api.Api.Members.Invariant.{IsValid, step-IsValid}

abbrev of_kit : ℕ → KitMembership → Bool
of_kit kit_id m = m.kit_id == kit_id

-- The rows of a kit's members, in order.
abbrev pub members : ℕ → Db → List KitMembership
members kit_id db = keep (of_kit kit_id) db.kit_memberships

-- The user whose token a request carries.
abbrev pub requester : Request → Option ℕ
requester (creates user_id _) = some user_id
requester (adds user_id _ _) = user_id
requester (patches user_id _ _) = user_id
requester (deletes user_id _) = user_id

keep-append {ℓ} :
    {A : Type ℓ} (p : A → Bool) (xs ys : List A) → keep p (xs ++ ys) ≡ keep p xs ++ keep p ys
keep-append p [] ys = refl
keep-append p (x ∷ xs) ys = ground (arith, keep-append p xs ys)

append_nothing {ℓ} :
    {A : Type ℓ} (p : A → Bool) (xs : List A) (y : A)
    → p y ≡ false
    → keep p (xs ++ y ∷ []) ≡ keep p xs
append_nothing p [] y h = rw h
append_nothing p (x ∷ xs) y h = ground (arith, append_nothing p xs y h)

module _ (kit_id id : ℕ) where
  keep-update_rows :
      (patch : KitMembershipPatch) (ms : List KitMembership) (m : KitMembership)
      → UniqueIds ms
      → first (λ n. n.id == id) ms ≡ some m
      → m.kit_id ≢ kit_id
      → keep (of_kit kit_id) (update_rows id patch ms) ≡ keep (of_kit kit_id) ms
  keep-update_rows patch [] m u h e = refl
  keep-update_rows patch (n ∷ ms) m u h e =
      ground (arith, keep-update_rows patch ms m u.1, update_rows_none n.id patch ms u.0)

  keep-delete_rows :
      (ms : List KitMembership) (m : KitMembership)
      → UniqueIds ms
      → first (λ n. n.id == id) ms ≡ some m
      → m.kit_id ≢ kit_id
      → keep (of_kit kit_id) (delete_rows id ms) ≡ keep (of_kit kit_id) ms
  keep-delete_rows [] m u h e = refl
  keep-delete_rows (n ∷ ms) m u h e =
      ground (arith, keep-delete_rows ms m u.1, delete_rows_none n.id ms u.0)

find_or_insert-members :
    (db : Db) (now kit_id user_id other : ℕ) (member : AddMember) (found : Option KitMembership)
    → kit_id ≢ other
    → members other (find_or_insert db now kit_id user_id member found).1 ≡ members other db
unfolding find_or_insert insert_membership new_membership
find_or_insert-members db now kit_id user_id other member none e =
    append_nothing (of_kit other) db.kit_memberships _ (ground arith)
find_or_insert-members db now kit_id user_id other member (some m) e = refl

create-members :
    (db : Db) (now user_id kit_id : ℕ) (new_kit : NewKit)
    → kit_id < db.next_kit_id
    → members kit_id (
        insert_membership
          (insert_kit db now new_kit).0
          (new_membership db now user_id db.next_kit_id true true))
      ≡ members kit_id db
unfolding insert_membership insert_kit new_membership
create-members db now user_id kit_id new_kit k =
    append_nothing (of_kit kit_id) db.kit_memberships _ (ground arith)

-- A request of a user who has no super access to a kit leaves the kit's members as they are.
pub step-members :
    (db : Db) (now : ℕ) (r : Request) (kit_id : ℕ)
    → IsValid db
    → kit_id < db.next_kit_id
    → ¬ IsSuperUser db (requester r) kit_id
    → members kit_id (step db now r) ≡ members kit_id db
unfolding step
step-members db now (creates user_id new_kit) kit_id v k outsider =
    after_ok (λ d. members kit_id d ≡ members kit_id db) db (create_kit db now user_id new_kit) refl
      λ kit db' h.
        rw (create-Created db now user_id new_kit kit db' h).state
          (create-members db now user_id kit_id new_kit k)
step-members db now (adds user_id serial member) kit_id v k outsider =
    after_ok (λ d. members kit_id d ≡ members kit_id db) db
      (add_member db now user_id serial member) refl
      λ m db' h.
        let a = add-Added db now user_id serial member m db' h in
        rw (ap (λ p. p.1) a.result) (
          find_or_insert-members db now a.kit.id a.user.id kit_id member _
            (λ e. outsider (rw e at a.by_super)))
step-members db now (patches user_id id patch) kit_id v k outsider =
    after_ok (λ d. members kit_id d ≡ members kit_id db) db
      (patch_kit_membership db id user_id patch) refl
      λ m db' h.
        let p = patch-Patched db id user_id patch m db' h in
        rw p.state (
          unfold update_membership in
          keep-update_rows kit_id id patch db.kit_memberships p.membership v.keys.unique_ids p.found
            (λ e. outsider (rw e at p.by_super)))
step-members db now (deletes user_id id) kit_id v k outsider =
    after_ok (λ d. members kit_id d ≡ members kit_id db) db (delete_kit_membership db id user_id)
      refl
      λ u db' h.
        let d = delete-Deleted db id user_id u db' h in
        rw d.state (
          unfold delete_membership in
          keep-delete_rows kit_id id db.kit_memberships d.membership v.keys.unique_ids d.found
            (λ e. outsider (rw e at d.by_super)))

first-keep :
    (user_id kit_id : ℕ) (ms : List KitMembership)
    → first (λ m. m.user_id == user_id && m.kit_id == kit_id) ms
      ≡ first (λ m. m.user_id == user_id) (keep (of_kit kit_id) ms)
first-keep user_id kit_id [] = refl
first-keep user_id kit_id (m ∷ ms) = ground (arith, first-keep user_id kit_id ms)

-- Super access to a kit is read off the rows of its members.
IsSuperUser-members :
    (db db' : Db) (user_id : Option ℕ) (kit_id : ℕ)
    → members kit_id db' ≡ members kit_id db
    → IsSuperUser db' user_id kit_id
    → IsSuperUser db user_id kit_id
IsSuperUser-members db db' user_id kit_id e s = record {
  id = s.id;
  membership = s.membership;
  of_request = s.of_request;
  listed =
      first-keep s.id kit_id db.kit_memberships
      ∙ ap (first (λ m. m.user_id == s.id)) (sym e)
      ∙ sym (first-keep s.id kit_id db'.kit_memberships)
      ∙ s.listed;
  passes = s.passes;
}

find_or_insert-next_kit_id :
    (db : Db) (now kit_id user_id : ℕ) (member : AddMember) (found : Option KitMembership)
    → db.next_kit_id ≤ (find_or_insert db now kit_id user_id member found).1.next_kit_id
unfolding find_or_insert insert_membership
find_or_insert-next_kit_id db now kit_id user_id member none = omega arith
find_or_insert-next_kit_id db now kit_id user_id member (some m) = omega arith

-- Kits are never forgotten by the sequence of their ids.
step-next_kit_id : (db : Db) (now : ℕ) (r : Request) → db.next_kit_id ≤ (step db now r).next_kit_id
unfolding step
step-next_kit_id db now (creates user_id new_kit) =
    after_ok (λ d. db.next_kit_id ≤ d.next_kit_id) db (create_kit db now user_id new_kit)
      (omega arith)
      λ kit db' h.
        rw (create-Created db now user_id new_kit kit db' h).state
          (unfold insert_membership insert_kit in omega arith)
step-next_kit_id db now (adds user_id serial member) =
    after_ok (λ d. db.next_kit_id ≤ d.next_kit_id) db (add_member db now user_id serial member)
      (omega arith)
      λ m db' h.
        let a = add-Added db now user_id serial member m db' h in
        rw (ap (λ p. p.1) a.result) (find_or_insert-next_kit_id db now a.kit.id a.user.id member _)
step-next_kit_id db now (patches user_id id patch) =
    after_ok (λ d. db.next_kit_id ≤ d.next_kit_id) db (patch_kit_membership db id user_id patch)
      (omega arith)
      λ m db' h.
        rw (patch-Patched db id user_id patch m db' h).state
          (unfold update_membership in omega arith)
step-next_kit_id db now (deletes user_id id) =
    after_ok (λ d. db.next_kit_id ≤ d.next_kit_id) db (delete_kit_membership db id user_id)
      (omega arith)
      λ u db' h.
        rw (delete-Deleted db id user_id u db' h).state (unfold delete_membership in omega arith)

-- In a valid database (IsValid: every kit has a member with super access, no user is twice a member
-- of a kit, the ids of memberships are unique, and those ids, the ids of kits and the kits of
-- memberships are below the next values of their sequences), for a kit that was created already
-- (its id is below the next value): if every request of a sequence comes from a user who had no
-- super access to the kit at its start, then the rows of the members of the kit, their access
-- included, are the same at its end.
pub run-members :
    (db : Db) (rs : List (ℕ × Request)) (kit_id : ℕ)
    → IsValid db
    → kit_id < db.next_kit_id
    → All (λ r. ¬ IsSuperUser db (requester r.1) kit_id) rs
    → members kit_id (run db rs) ≡ members kit_id db
unfolding run
run-members db [] kit_id v k outsiders = refl
run-members db ((now, r) ∷ rs) kit_id v k outsiders =
    let same = step-members db now r kit_id v k outsiders.0 in
    run-members (step db now r) rs kit_id (step-IsValid db now r v)
      (le_trans k (step-next_kit_id db now r))
      (All-mono (λ q. ¬ IsSuperUser db (requester q.1) kit_id)
        (λ q. ¬ IsSuperUser (step db now r) (requester q.1) kit_id) rs
        (λ q out s. out (IsSuperUser-members db (step db now r) (requester q.1) kit_id same s))
        outsiders.1)
    ∙ same
