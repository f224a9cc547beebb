-- ===== src/Api/Members/Invariant.antt =====
-- Every kit keeps a member with super access.
use astroplant_api.Prelude.{
  ℕ, ◌+◌, ◌≤◌, ◌<◌, ◌≡◌, Bool, true, false, not, ◌&&◌, some, List, [], ◌∷◌, ◌++◌, ◌==◌, ltb, count,
  All, All-append, All-keep, count-append, arith, Option-cases, inl, inr, All-first, first-eq-none,
  All-mono, count-keep-le, ap, refl,
}
use astroplant_api.Prelude.Equality.{◌≟◌, nat_eq, list_eq}
use astroplant_api.Api.Models.{Kit, NewKit, KitMembership}
use astroplant_api.Api.Database.{Db, after_ok}
use astroplant_api.Api.Members.{
  new_membership, insert_membership, existing_membership, find_or_insert, insert_kit, create_kit,
  AddMember, add_member, KitMembershipPatch, members_with_super_access, membership_by_id,
  update_membership, patch_kit_membership, delete_membership, delete_kit_membership, Request,
  creates, adds, patches, deletes, step, run,
}
use astroplant_api.Api.Members.Rows.{
  Linked, Linked-update_rows, is_of, count-Linked, count-update_rows_same, UniqueIds, BelowId,
  update_rows, delete_rows, UniqueIds-append, BelowId-weaken, UniqueIds-update_rows,
  BelowId-update_rows, UniqueIds-delete_rows, count-update_rows, count-delete_rows,
}
use astroplant_api.Api.Members.Success.{create-Created, add-Added, patch-Patched, delete-Deleted}

abbrev pub is_super_of : ℕ → KitMembership → Bool
is_super_of kit_id m = m.kit_id == kit_id && m.access_super

abbrev pub HasSuper : List KitMembership → Kit → Type 0
HasSuper ms k = 1 ≤ count (is_super_of k.id) ms

-- The keys of the tables: ids are unique and below the next of their sequence, a membership is of a
-- kit that was created, and a user has one membership of a kit at most.
pub record HasKeys (db : Db) : Type 0 where
  pub unique_ids : UniqueIds db.kit_memberships
  pub fresh_id : BelowId db.next_membership_id db.kit_memberships
  pub kit_ids : All (λ k. k.id < db.next_kit_id) db.kits
  pub linked : Linked db.next_kit_id db.kit_memberships
  pub single : (kit_id user_id : ℕ) → count (is_of kit_id user_id) db.kit_memberships ≤ 1

-- And a member with super access for each kit.
pub record IsValid (db : Db) : Type 0 where
  pub keys : HasKeys db
  pub supers : All (HasSuper db.kit_memberships) db.kits

-- A row that is inserted has the next id, and is the first of its user and kit.
insert_membership-HasKeys :
    (db : Db) (m : KitMembership)
    → m.id ≡ db.next_membership_id
    → m.kit_id < db.next_kit_id
    → count (is_of m.kit_id m.user_id) db.kit_memberships ≡ 0
    → HasKeys db
    → HasKeys (insert_membership db m)
unfolding insert_membership
insert_membership-HasKeys db m e known new v = record {
  unique_ids = UniqueIds-append db.kit_memberships m v.unique_ids (rw e v.fresh_id);
  fresh_id =
      All-append (λ n. n.id < db.next_membership_id + 1) db.kit_memberships (m ∷ [])
        (BelowId-weaken _ _ db.kit_memberships (omega arith) v.fresh_id) (omega arith, tt);
  kit_ids = v.kit_ids;
  linked =
      All-append (λ n. n.kit_id < db.next_kit_id) db.kit_memberships (m ∷ []) v.linked (known, tt);
  single =
      λ k u. ground (arith, v.single k u, count-append (is_of k u) db.kit_memberships (m ∷ []));
}

HasSuper-append :
    (ms : List KitMembership) (m : KitMembership) (k : Kit)
    → HasSuper ms k
    → HasSuper (ms ++ m ∷ []) k
HasSuper-append ms m k h = omega (arith, count-append (is_super_of k.id) ms (m ∷ []))

insert_membership-IsValid :
    (db : Db) (m : KitMembership)
    → m.id ≡ db.next_membership_id
    → m.kit_id < db.next_kit_id
    → count (is_of m.kit_id m.user_id) db.kit_memberships ≡ 0
    → IsValid db
    → IsValid (insert_membership db m)
unfolding insert_membership
insert_membership-IsValid db m e known new v = record {
  keys = insert_membership-HasKeys db m e known new v.keys;
  supers =
      All-mono (HasSuper db.kit_memberships) (HasSuper (db.kit_memberships ++ m ∷ [])) db.kits
        (λ k. HasSuper-append db.kit_memberships m k) v.supers;
}

update_membership-IsValid :
    (db : Db) (id : ℕ) (patch : KitMembershipPatch) (m : KitMembership)
    → membership_by_id db id ≡ some m
    → (m.access_super && not patch.access_super && ltb (members_with_super_access db m.kit_id) 2)
      ≡ false
    → IsValid db
    → IsValid (update_membership db id patch)
unfolding update_membership members_with_super_access
update_membership-IsValid db id patch m found allowed v = record {
  keys = record {
    unique_ids = UniqueIds-update_rows id patch db.kit_memberships v.keys.unique_ids;
    fresh_id =
        BelowId-update_rows id db.next_membership_id patch db.kit_memberships v.keys.fresh_id;
    kit_ids = v.keys.kit_ids;
    linked = Linked-update_rows db.next_kit_id id patch db.kit_memberships v.keys.linked;
    single = λ k u.
        rw (count-update_rows_same (is_of k u) id patch db.kit_memberships (λ n. refl))
          (v.keys.single k u);
  };
  supers =
      All-mono (HasSuper db.kit_memberships) (HasSuper (update_rows id patch db.kit_memberships))
        db.kits
        (λ k h. ground (
          arith,
          count-update_rows (is_super_of k.id) id patch db.kit_memberships m v.keys.unique_ids
              found,
        ))
        v.supers;
}

delete_membership-IsValid :
    (db : Db) (id : ℕ) (m : KitMembership)
    → membership_by_id db id ≡ some m
    → (m.access_super && ltb (members_with_super_access db m.kit_id) 2) ≡ false
    → IsValid db
    → IsValid (delete_membership db id)
unfolding delete_membership members_with_super_access
delete_membership-IsValid db id m found allowed v = record {
  keys = record {
    unique_ids = UniqueIds-delete_rows id db.kit_memberships v.keys.unique_ids;
    fresh_id =
        All-keep (λ n. n.id < db.next_membership_id) (λ n. not (n.id == id)) db.kit_memberships
          v.keys.fresh_id;
    kit_ids = v.keys.kit_ids;
    linked =
        All-keep (λ n. n.kit_id < db.next_kit_id) (λ n. not (n.id == id)) db.kit_memberships
          v.keys.linked;
    single = λ k u. omega (
      arith,
      v.keys.single k u,
      count-keep-le (is_of k u) (λ n. not (n.id == id)) db.kit_memberships,
    );
  };
  supers =
      All-mono (HasSuper db.kit_memberships) (HasSuper (delete_rows id db.kit_memberships)) db.kits
        (λ k h. ground (
          arith,
          count-delete_rows (is_super_of k.id) id db.kit_memberships m v.keys.unique_ids found,
        ))
        v.supers;
}

insert_kit-HasKeys :
    (db : Db) (now : ℕ) (new_kit : NewKit) → HasKeys db → HasKeys (insert_kit db now new_kit).0
unfolding insert_kit
insert_kit-HasKeys db now new_kit v = record {
  unique_ids = v.unique_ids;
  fresh_id = v.fresh_id;
  kit_ids =
      All-append (λ k. k.id < db.next_kit_id + 1) db.kits _
        (All-mono (λ k. k.id < db.next_kit_id) (λ k. k.id < db.next_kit_id + 1) db.kits
          (λ k h. omega arith) v.kit_ids)
        (omega arith, tt);
  linked =
      All-mono (λ m. m.kit_id < db.next_kit_id) (λ m. m.kit_id < db.next_kit_id + 1)
        db.kit_memberships (λ m h. omega arith) v.linked;
  single = v.single;
}

-- The new kit's first member has super access.
create-IsValid :
    (db : Db) (now user_id : ℕ) (new_kit : NewKit)
    → IsValid db
    → IsValid (
        insert_membership
          (insert_kit db now new_kit).0
          (new_membership db now user_id db.next_kit_id true true))
unfolding insert_membership insert_kit new_membership
create-IsValid db now user_id new_kit v =
    let (db', kit) = insert_kit db now new_kit in
    let m = new_membership db' now user_id kit.id true true in
    record {
      keys =
          insert_membership-HasKeys db' m refl (omega arith)
            (count-Linked db.next_kit_id db.next_kit_id user_id db.kit_memberships v.keys.linked
              (omega arith))
            (insert_kit-HasKeys db now new_kit v.keys);
      supers =
          All-append (HasSuper (db.kit_memberships ++ m ∷ [])) db.kits (kit ∷ [])
            (All-mono (HasSuper db.kit_memberships) (HasSuper (db.kit_memberships ++ m ∷ []))
              db.kits (λ k. HasSuper-append db.kit_memberships m k) v.supers)
            (ground (arith, count-append (is_super_of kit.id) db.kit_memberships (m ∷ [])), tt);
    }

find_or_insert-IsValid :
    (db : Db) (now kit_id user_id : ℕ) (member : AddMember)
    → kit_id < db.next_kit_id
    → IsValid db
    → IsValid
        (find_or_insert db now kit_id user_id member (existing_membership db kit_id user_id)).1
unfolding find_or_insert existing_membership new_membership
find_or_insert-IsValid db now kit_id user_id member known v =
    elim (Option-cases (existing_membership db kit_id user_id)) [
      | inr (old, found) ↦ rw (found, find_or_insert) v
      | inl none_yet ↦
          rw (none_yet, find_or_insert)
            (insert_membership-IsValid db
              (new_membership db now user_id kit_id member.access_super member.access_configure)
              refl known (first-eq-none (is_of kit_id user_id) db.kit_memberships none_yet) v)
    ]

-- A membership request, whoever makes it and whether it succeeds, keeps the keys of the tables
-- unique, leaves a user with one membership of a kit at most, and leaves every kit with at least one member
-- that has super access.
pub step-IsValid : (db : Db) (now : ℕ) (r : Request) → IsValid db → IsValid (step db now r)
unfolding step
step-IsValid db now (creates user_id new_kit) v =
    after_ok IsValid db (create_kit db now user_id new_kit) v λ kit db' h.
      rw (create-Created db now user_id new_kit kit db' h).state
        (create-IsValid db now user_id new_kit v)
step-IsValid db now (adds user_id serial member) v =
    after_ok IsValid db (add_member db now user_id serial member) v λ m db' h.
      let a = add-Added db now user_id serial member m db' h in
      rw (ap (λ p. p.1) a.result) (
        find_or_insert-IsValid db now a.kit.id a.user.id member
          (All-first (λ k. k.id < db.next_kit_id) (λ k. k.serial ≟ serial) db.kits a.kit
            v.keys.kit_ids a.of_serial)
          v)
step-IsValid db now (patches user_id id patch) v =
    after_ok IsValid db (patch_kit_membership db id user_id patch) v λ m db' h.
      let p = patch-Patched db id user_id patch m db' h in
      rw p.state (update_membership-IsValid db id patch p.membership p.found p.allowed v)
step-IsValid db now (deletes user_id id) v =
    after_ok IsValid db (delete_kit_membership db id user_id) v λ u db' h.
      let d = delete-Deleted db id user_id u db' h in
      rw d.state (delete_membership-IsValid db id d.membership d.found d.allowed v)

-- After any sequence of requests that create kits and add, change or delete memberships, each of
-- which may fail, every kit has at least one member with super access, the ids of the memberships
-- are unique, and no user has two memberships of one kit, if that was so before.
pub run-IsValid : (db : Db) (rs : List (ℕ × Request)) → IsValid db → IsValid (run db rs)
unfolding run
run-IsValid db [] v = v
run-IsValid db ((now, r) ∷ rs) v = run-IsValid (step db now r) rs (step-IsValid db now r v)
