-- ===== src/Api/Configurations/Steps.antt =====
-- The tables of configurations and peripherals stay sound under any sequence of requests.
use astroplant_api.Prelude.{
  ℕ, ◌<◌, Text, ◌≡◌, refl, sym, Bool, not, Option, List, [], ◌∷◌, map, ◌==◌, if◌then◌else◌, keep,
  All-keep, ok, arith, subst,
}
use astroplant_api.Prelude.Keyed.{Unique-keep, Unique-update_at, Below-update_at}
use astroplant_api.Api.Models.{Json, Peripheral}
use astroplant_api.Api.Database.{Db, after_ok}
use astroplant_api.Api.Configurations.Handlers.{create_configuration, patch_configuration}
use astroplant_api.Api.Configurations.Peripherals.{
  PeripheralPatch, changed_peripheral, update_peripheral, remove_peripheral,
  add_peripheral_to_configuration, patch_peripheral, delete_peripheral,
}
use astroplant_api.Api.Configurations.Patching.{patch-IsValid, patch-peripherals}
use astroplant_api.Api.Configurations.Success.{
  create-Creates, add-unused, patch-Changeable, delete-Changeable,
}
use astroplant_api.Api.Configurations.Requests.{
  Request, creates, patches, deletes, adds_peripheral, patches_peripheral, deletes_peripheral, step,
  run,
}
use astroplant_api.Api.Configurations.Sound.{
  peripheral_id, IsSound, keep-IsValid, same-IsValid, insert-IsSound, insert_peripheral-IsSound,
}
use astroplant_api.Api.Deletion.{delete_configuration}
use astroplant_api.Api.Deletion.Done.{
  media_queued, configuration_dropped, of_configuration, delete_configuration-done,
}

-- The table of peripherals after an update or a deletion of one of them.
abbrev pub peripheral_updated : PeripheralPatch → ℕ → Db → Db
peripheral_updated patch id db = record db {
  peripherals = map (λ q. if q.id == id then changed_peripheral patch q else q) db.peripherals;
}

abbrev pub peripheral_removed : ℕ → Db → Db
peripheral_removed id db = record db { peripherals = keep (λ p. not (p.id == id)) db.peripherals }

pub update_peripheral-done :
    (db : Db) (p : Peripheral) (patch : PeripheralPatch) (p' : Peripheral) (db' : Db)
    → update_peripheral db p patch ≡ ok (p', db')
    → db' ≡ peripheral_updated patch p.id db
unfolding update_peripheral
update_peripheral-done db p patch p' db' h = ground arith

pub remove_peripheral-done :
    (db : Db) (id : ℕ) (u : Unit {0}) (db' : Db)
    → remove_peripheral db id ≡ ok (u, db')
    → db' ≡ peripheral_removed id db
unfolding remove_peripheral
remove_peripheral-done db id u db' h = ground arith

pub changed_peripheral-id :
    (patch : PeripheralPatch) (p : Peripheral) → (changed_peripheral patch p).id ≡ p.id
unfolding changed_peripheral
changed_peripheral-id patch p = refl

update_peripheral-IsSound :
    (db : Db) (id : ℕ) (patch : PeripheralPatch)
    → IsSound db
    → IsSound (peripheral_updated patch id db)
update_peripheral-IsSound db id patch s = record {
  valid = same-IsValid db _ refl refl s.valid;
  unique =
      Unique-update_at peripheral_id (changed_peripheral patch) (changed_peripheral-id patch) id
        db.peripherals s.unique;
  fresh =
      Below-update_at peripheral_id (changed_peripheral patch) (changed_peripheral-id patch)
        db.next_peripheral_id id db.peripherals s.fresh;
}

keep_peripherals-IsSound :
    (q : Peripheral → Bool) (db : Db)
    → IsSound db
    → IsSound (record db { peripherals = keep q db.peripherals })
keep_peripherals-IsSound q db s = record {
  valid = same-IsValid db _ refl refl s.valid;
  unique = Unique-keep peripheral_id q db.peripherals s.unique;
  fresh = All-keep (λ p. p.id < db.next_peripheral_id) q db.peripherals s.fresh;
}

delete-IsSound :
    (db : Db) (id : ℕ)
    → IsSound db
    → IsSound (configuration_dropped id (media_queued (of_configuration id) db))
delete-IsSound db id s = record {
  valid = keep-IsValid (λ c. not (c.id == id)) db _ refl refl s.valid;
  unique =
      Unique-keep peripheral_id (λ p. not (p.kit_configuration_id == id)) db.peripherals s.unique;
  fresh =
      All-keep (λ p. p.id < db.next_peripheral_id) (λ p. not (p.kit_configuration_id == id))
        db.peripherals s.fresh;
}

module _ (print_id : ℕ → Text) (valid : Json → Json → Option Bool) where
  pub step-IsSound :
      (db : Db) (now : ℕ) (r : Request) → IsSound db → IsSound (step print_id valid db now r)
  unfolding step
  step-IsSound db now (creates user_id serial d source) s =
      after_ok IsSound db (create_configuration print_id db now user_id serial d source) s
        (λ c db' h.
          insert-IsSound db now c db'
            (create-Creates print_id db now user_id serial d source c db' h) s)
  step-IsSound db now (patches user_id id patch) s =
      after_ok IsSound db (patch_configuration db now user_id id patch) s (λ c db' h.
        let (same, next) = patch-peripherals db now user_id id patch c db' h in
        record {
          valid = patch-IsValid db now user_id id patch c db' s.valid h;
          unique = rw same s.unique;
          fresh = rw (same, next) s.fresh;
        })
  step-IsSound db now (deletes user_id id) s =
      after_ok IsSound db (delete_configuration db user_id id) s (λ u db' h.
        subst IsSound (sym (delete_configuration-done db user_id id u db' h))
          (delete-IsSound db id s))
  step-IsSound db now (adds_peripheral user_id id new) s =
      after_ok IsSound db (add_peripheral_to_configuration valid db user_id id new) s (λ p db' h.
        let (kit, c, _, _, e) = add-unused valid db user_id id new p db' h in
        subst IsSound (sym e) (insert_peripheral-IsSound db kit c new s))
  step-IsSound db now (patches_peripheral user_id id patch) s =
      after_ok IsSound db (patch_peripheral valid db user_id id patch) s (λ p' db' h.
        let (p, _, e) = patch-Changeable valid db user_id id patch p' db' h in
        subst IsSound (sym (update_peripheral-done db p patch p' db' e))
          (update_peripheral-IsSound db p.id patch s))
  step-IsSound db now (deletes_peripheral user_id id) s =
      after_ok IsSound db (delete_peripheral db user_id id) s (λ u db' h.
        let (p, _, e) = delete-Changeable db user_id id u db' h in
        subst IsSound (sym (remove_peripheral-done db p.id u db' e))
          (keep_peripherals-IsSound (λ q. not (q.id == p.id)) db s))

  -- Any sequence of requests on configurations and peripherals, each of which may fail, leaves the
  -- tables as they have to be, if they were so before: at most one configuration of each kit is
  -- active, an active configuration counts as used, a configuration counts as never used exactly
  -- if it has no time of first activation, and the ids in both tables are unique and below the
  -- next of their sequences.
  pub run-IsSound :
      (db : Db) (rs : List (ℕ × Request)) → IsSound db → IsSound (run print_id valid db rs)
  unfolding run
  run-IsSound db [] s = s
  run-IsSound db ((now, r) ∷ rs) s =
      run-IsSound (step print_id valid db now r) rs (step-IsSound db now r s)
