-- ===== src/Api/Configurations/Active.antt =====
-- The configurations of a kit as a whole: at most one is active, and an active one counts as used.
use astroplant_api.Prelude.{
  is_none, ℕ, ◌+◌, ◌≤◌, ◌<◌, ◌≡◌, refl, true, false, some, List, [], ◌∷◌, map, ◌==◌, if◌then◌else◌,
  first, count, All, All-append, count-append, ok, arith,
}
use astroplant_api.Prelude.Keyed.{
  NoId, Unique, Below, count-update_at, Unique-update_at, Below-update_at, All-update_at,
  first-update_at-inv, Unique-append, Below-mono,
}
use astroplant_api.Api.Models.{KitConfiguration}
use astroplant_api.Api.Database.{Db}
use astroplant_api.Api.Configurations.Table.{
  configuration_by_id, on_update, changed, updated, deactivate_all_of_kit_id,
  UpdateKitConfiguration, is_active_of, update_configuration, created, insert_configuration,
  NewKitConfiguration,
}

abbrev pub config_id : KitConfiguration → ℕ
config_id c = c.id

-- The generated column, and what being active implies.
pub record IsConsistent (c : KitConfiguration) : Type 0 where
  pub generated : c.never_used ≡ is_none c.first_activated_at
  pub used : c.active ≡ true → c.never_used ≡ false

pub record IsValid (db : Db) : Type 0 where
  pub unique : Unique config_id db.kit_configurations
  pub fresh : Below config_id db.next_configuration_id db.kit_configurations
  pub one_active : (kit_id : ℕ) → count (is_active_of kit_id) db.kit_configurations ≤ 1
  pub consistent : All IsConsistent db.kit_configurations

on_update-IsConsistent : (now : ℕ) (c : KitConfiguration) → IsConsistent (on_update now c)
unfolding on_update
on_update-IsConsistent now c = ground arith

-- Deactivating keeps ids, and leaves no active configuration of the kit.
module _ (now kit_id : ℕ) where
  abbrev pub deactivate : KitConfiguration → KitConfiguration
  deactivate c = if c.kit_id == kit_id then on_update now (record c { active = false }) else c

  NoId-deactivate :
      (k : ℕ) (cs : List KitConfiguration)
      → NoId config_id k cs
      → NoId config_id k (map deactivate cs)
  unfolding on_update
  NoId-deactivate k [] h = tt
  NoId-deactivate k (c ∷ cs) h = ground (arith, NoId-deactivate k cs h.1)

  Unique-deactivate :
      (cs : List KitConfiguration) → Unique config_id cs → Unique config_id (map deactivate cs)
  unfolding on_update
  Unique-deactivate [] u = tt
  Unique-deactivate (c ∷ cs) u =
      ground (arith, NoId-deactivate c.id cs u.0, Unique-deactivate cs u.1)

  Below-deactivate :
      (n : ℕ) (cs : List KitConfiguration)
      → Below config_id n cs
      → Below config_id n (map deactivate cs)
  unfolding on_update
  Below-deactivate n [] h = tt
  Below-deactivate n (c ∷ cs) h = ground (arith, Below-deactivate n cs h.1)

  pub count-deactivate :
      (k : ℕ) (cs : List KitConfiguration)
      → count (is_active_of k) (map deactivate cs)
        ≡ (if k == kit_id then 0 else count (is_active_of k) cs)
  unfolding on_update
  count-deactivate k [] = ground arith
  count-deactivate k (c ∷ cs) = ground (arith, count-deactivate k cs)

  IsConsistent-deactivate :
      (cs : List KitConfiguration) → All IsConsistent cs → All IsConsistent (map deactivate cs)
  unfolding on_update
  IsConsistent-deactivate [] h = tt
  IsConsistent-deactivate (c ∷ cs) h = (ground arith, IsConsistent-deactivate cs h.1)

  pub first-deactivate :
      (k : ℕ) (cs : List KitConfiguration) (c : KitConfiguration)
      → first (λ d. d.id == k) cs ≡ some c
      → first (λ d. d.id == k) (map deactivate cs) ≡ some (deactivate c)
  unfolding on_update
  first-deactivate k [] c h = ground arith
  first-deactivate k (d ∷ cs) c h = ground (arith, first-deactivate k cs c)

pub deactivate_all-IsValid :
    (db : Db) (now kit_id : ℕ) → IsValid db → IsValid (deactivate_all_of_kit_id db now kit_id)
unfolding deactivate_all_of_kit_id
deactivate_all-IsValid db now kit_id v = record {
  unique = Unique-deactivate now kit_id db.kit_configurations v.unique;
  fresh = Below-deactivate now kit_id db.next_configuration_id db.kit_configurations v.fresh;
  one_active =
      λ k. ground (arith, count-deactivate now kit_id k db.kit_configurations, v.one_active k);
  consistent = IsConsistent-deactivate now kit_id db.kit_configurations v.consistent;
}

abbrev pub change : ℕ → UpdateKitConfiguration → KitConfiguration → KitConfiguration
change now patch c = on_update now (changed patch c)

pub change-id :
    (now : ℕ) (patch : UpdateKitConfiguration) (c : KitConfiguration)
    → (change now patch c).id ≡ c.id
unfolding on_update changed
change-id now patch c = refl

-- What the database has checked when it accepts an update.
pub record Accepted (db : Db) (now : ℕ) (patch : UpdateKitConfiguration) (c : KitConfiguration)
    (db' : Db) : Type 0 where
  pub row : KitConfiguration
  pub found : configuration_by_id db patch.id ≡ some row
  pub result : c ≡ change now patch row
  pub one : count (is_active_of c.kit_id) (updated now patch db.kit_configurations) ≤ 1
  pub state : db' ≡ record db { kit_configurations = updated now patch db.kit_configurations }

pub update-Accepted :
    (db : Db) (now : ℕ) (patch : UpdateKitConfiguration) (c : KitConfiguration) (db' : Db)
    → update_configuration db now patch ≡ ok (c, db')
    → Accepted db now patch c db'
unfolding update_configuration
update-Accepted db now patch c db' h =
    let found : first (λ d. d.id == patch.id) (updated now patch db.kit_configurations) ≡ some c =
      ground arith in
    let (a, row, e) =
      first-update_at-inv config_id (change now patch) (change-id now patch) patch.id
        db.kit_configurations c found in
    record { row = a; found = row; result = e; one = ground arith; state = ground arith }

-- An update that the database accepts keeps the state valid: a second active configuration of a
-- kit is refused.
pub update-IsValid :
    (db : Db) (now : ℕ) (patch : UpdateKitConfiguration) (c : KitConfiguration) (db' : Db)
    → IsValid db
    → update_configuration db now patch ≡ ok (c, db')
    → IsValid db'
unfolding updated on_update changed
update-IsValid db now patch c db' v h =
    let a = update-Accepted db now patch c db' h in
    rw a.state (record {
      unique =
          Unique-update_at config_id (change now patch) (change-id now patch) patch.id
            db.kit_configurations v.unique;
      fresh =
          Below-update_at config_id (change now patch) (change-id now patch)
            db.next_configuration_id patch.id db.kit_configurations v.fresh;
      one_active = λ k. ground (
        arith,
        v.one_active k,
        a.one,
        a.result,
        count-update_at config_id (is_active_of k) patch.id (change now patch) db.kit_configurations
            a.row v.unique a.found,
      );
      consistent =
          All-update_at config_id IsConsistent patch.id (change now patch) db.kit_configurations
            (λ d _. on_update-IsConsistent now (changed patch d)) v.consistent;
    })

pub insert-IsValid :
    (db : Db) (now : ℕ) (new : NewKitConfiguration)
    → IsValid db
    → IsValid (insert_configuration db (created db now new))
unfolding insert_configuration created
insert-IsValid db now new v = record {
  unique = Unique-append config_id db.kit_configurations _ v.unique v.fresh;
  fresh =
      All-append (λ c. c.id < db.next_configuration_id + 1) db.kit_configurations _
        (Below-mono config_id _ _ db.kit_configurations (omega arith) v.fresh) (omega arith, tt);
  one_active = λ k. ground (
    arith,
    v.one_active k,
    count-append (is_active_of k) db.kit_configurations (created db now new ∷ []),
  );
  consistent = All-append IsConsistent db.kit_configurations _ v.consistent (ground arith, tt);
}
