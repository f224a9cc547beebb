-- ===== src/Api/Configurations/Used.antt =====
-- A configuration that was used never changes, whatever is requested of the routes on
-- configurations and peripherals.
use astroplant_api.Prelude.{
  ℕ, ◌<◌, Text, ◌≡◌, refl, sym, Bool, false, Option, some, List, [], ◌∷◌, ◌==◌, ==_iff,
  first-eq-some, All-first, inr, subst,
}
use astroplant_api.Api.Models.{Json, KitConfiguration, Peripheral}
use astroplant_api.Api.Database.{Db, after_ok}
use astroplant_api.Api.Configurations.Table.{configuration_by_id, peripherals_of}
use astroplant_api.Api.Configurations.Handlers.{create_configuration, patch_configuration}
use astroplant_api.Api.Configurations.Peripherals.{
  add_peripheral_to_configuration, patch_peripheral, delete_peripheral,
}
use astroplant_api.Api.Configurations.Success.{
  create-Creates, add-unused, patch-Changeable, delete-Changeable,
}
use astroplant_api.Api.Configurations.Frozen.{FrozenOrGone}
use astroplant_api.Api.Configurations.Requests.{
  Request, creates, patches, deletes, adds_peripheral, patches_peripheral, deletes_peripheral, step,
  run,
}
use astroplant_api.Api.Configurations.Sound.{IsSound}
use astroplant_api.Api.Configurations.Steps.{
  update_peripheral-done, remove_peripheral-done, step-IsSound,
}
use astroplant_api.Api.Deletion.{delete_configuration}
use astroplant_api.Api.Deletion.Done.{delete_configuration-done}
use astroplant_api.Api.Configurations.Unchanged.{
  Creates-Frozen, patches-Frozen, deletes-Frozen, adds-Frozen, updates-Frozen, removes-Frozen,
}

module _ (print_id : ℕ → Text) (valid : Json → Json → Option Bool) where
  step-Frozen :
      (id : ℕ) (c : KitConfiguration) (ps : List Peripheral) (db : Db) (now : ℕ) (r : Request)
      → IsSound db
      → FrozenOrGone id c ps db
      → FrozenOrGone id c ps (step print_id valid db now r)
  unfolding step
  step-Frozen id c ps db now (creates user_id serial d source) s f =
      after_ok (FrozenOrGone id c ps) db
        (create_configuration print_id db now user_id serial d source) f
        (λ e db' h.
          Creates-Frozen db now e db'
            (create-Creates print_id db now user_id serial d source e db' h) f)
  step-Frozen id c ps db now (patches user_id j patch) s f =
      after_ok (FrozenOrGone id c ps) db (patch_configuration db now user_id j patch) f
        (λ d db' h. patches-Frozen db now user_id j patch d db' s.valid h f)
  step-Frozen id c ps db now (deletes user_id j) s f =
      after_ok (FrozenOrGone id c ps) db (delete_configuration db user_id j) f (λ u db' h.
        subst (FrozenOrGone id c ps) (sym (delete_configuration-done db user_id j u db' h))
          (deletes-Frozen db j f))
  step-Frozen id c ps db now (adds_peripheral user_id j new) s f =
      after_ok (FrozenOrGone id c ps) db (add_peripheral_to_configuration valid db user_id j new) f
        (λ p db' h.
          let (kit, d, found, unused, e) = add-unused valid db user_id j new p db' h in
          subst (FrozenOrGone id c ps) (sym e) (adds-Frozen db f kit d new found unused))
  step-Frozen id c ps db now (patches_peripheral user_id j patch) s f =
      after_ok (FrozenOrGone id c ps) db (patch_peripheral valid db user_id j patch) f (λ p' db' h.
        let (p, z, e) = patch-Changeable valid db user_id j patch p' db' h in
        subst (FrozenOrGone id c ps) (sym (update_peripheral-done db p patch p' db' e))
          (updates-Frozen db f s j p z patch))
  step-Frozen id c ps db now (deletes_peripheral user_id j) s f =
      after_ok (FrozenOrGone id c ps) db (delete_peripheral db user_id j) f (λ u db' h.
        let (p, z, e) = delete-Changeable db user_id j u db' h in
        subst (FrozenOrGone id c ps) (sym (remove_peripheral-done db p.id u db' e))
          (removes-Frozen db f s j p z))

  run-Frozen_from :
      (id : ℕ) (c : KitConfiguration) (ps : List Peripheral) (db : Db) (rs : List (ℕ × Request))
      → IsSound db
      → FrozenOrGone id c ps db
      → FrozenOrGone id c ps (run print_id valid db rs)
  unfolding run
  run-Frozen_from id c ps db [] s f = f
  run-Frozen_from id c ps db ((now, r) ∷ rs) s f =
      run-Frozen_from id c ps (step print_id valid db now r) rs
        (step-IsSound print_id valid db now r s) (step-Frozen id c ps db now r s f)

  -- A configuration that was used once never changes: after any sequence of requests on
  -- configurations and peripherals, by anyone, it is either deleted, or it is stored as used, with
  -- the same control rules, controller symbol and location, and with the same peripherals. The
  -- tables must be sound at the start.
  pub run-Frozen :
      (id : ℕ) (c : KitConfiguration) (db : Db) (rs : List (ℕ × Request))
      → IsSound db
      → configuration_by_id db id ≡ some c
      → c.never_used ≡ false
      → FrozenOrGone id c (peripherals_of id db.peripherals) (run print_id valid db rs)
  run-Frozen id c db rs s found used =
      run-Frozen_from id c (peripherals_of id db.peripherals) db rs s (record {
        known =
            rw
              (sym (
                (==_iff c.id id).0 (first-eq-some (λ d. d.id == id) db.kit_configurations c found)))
              (All-first (λ d. d.id < db.next_configuration_id) (λ d. d.id == id)
                db.kit_configurations c s.valid.fresh found);
        either = inr (record {
          row = c;
          found = found;
          used = used;
          same = record { location = refl; symbol = refl; rules = refl };
          peripherals = refl;
        });
      })
