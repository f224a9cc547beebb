-- ===== src/Api/Configurations/Unchanged.antt =====
-- What each operation does to a used configuration: nothing, or it deletes it.
use astroplant_api.Prelude.{
  ℕ, ◌+◌, ◌≡◌, ◌≢◌, refl, sym, ◌∙◌, ap, Bool, true, false, not, ◌&&◌, Option, none, some, List, [],
  ◌∷◌, ◌==◌, ==_iff, bool_eq, first, first-eq-some, All, keep-append_nothing, keep-keep_of, ok,
  arith, inl, inr, subst, Bool-cases,
}
use astroplant_api.Prelude.Keyed.{first-keep_of, first-delete_at, keep-update_at, keep-delete_at}
use astroplant_api.Api.Models.{Kit, KitConfiguration, Peripheral}
use astroplant_api.Api.Database.{Db}
use astroplant_api.Api.Configurations.Table.{
  configuration_by_id, peripherals_of, created, insert_configuration, clones,
  clone_all_to_new_configuration,
}
use astroplant_api.Api.Configurations.Handlers.{
  KitConfigurationPatch, changes_rules, patch_configuration, deactivated, update_of,
}
use astroplant_api.Api.Configurations.Peripherals.{
  NewPeripheral, insert_peripheral, PeripheralPatch, changed_peripheral,
}
use astroplant_api.Api.Configurations.Active.{config_id, IsValid, update-Accepted}
use astroplant_api.Api.Configurations.Patching.{
  patch-PatchDone, get_models-found, deactivated-IsValid,
}
use astroplant_api.Api.Configurations.Success.{Creates, Changeable}
use astroplant_api.Api.Configurations.Frozen.{
  IsFrozen, FrozenOrGone, tables-Frozen, deactivate_all-Frozen, updated-Frozen, insert-Frozen,
}
use astroplant_api.Api.Configurations.Sound.{peripheral_id, IsSound}
use astroplant_api.Api.Configurations.Steps.{peripheral_updated, peripheral_removed}
use astroplant_api.Api.Deletion.Done.{media_queued, configuration_dropped, of_configuration}

-- The clones are of the new configuration.
clones-of :
    (id n kit_id configuration_id : ℕ) (qs : List Peripheral)
    → configuration_id ≢ id
    → All (λ p. (p.kit_configuration_id == id) ≡ false) (clones n kit_id configuration_id qs)
unfolding clones
clones-of id n kit_id configuration_id [] h = tt
clones-of id n kit_id configuration_id (q ∷ qs) h =
    (ground (arith, h), clones-of id (n + 1) kit_id configuration_id qs h)

Changeable-row :
    (db : Db) (j : ℕ) (p : Peripheral)
    → Changeable db j p
    → first (λ q. q.id == p.id) db.peripherals ≡ some p
Changeable-row db j p z =
    let e = (==_iff p.id j).0 (first-eq-some (λ q. q.id == j) db.peripherals p z.found) in
    subst (λ k. first (λ q. q.id == k) db.peripherals ≡ some p) (sym e) z.found

module _ {id : ℕ} {c : KitConfiguration} {ps : List Peripheral} where
  -- An unused configuration is not the frozen one.
  unused-other :
      (db : Db) (j : ℕ) (d : KitConfiguration)
      → configuration_by_id db j ≡ some d
      → d.never_used ≡ true
      → IsFrozen id c ps db
      → j ≢ id
  unused-other db j d found unused f e =
      let same : d ≡ f.row = cc (found, f.found, e) in cc (same, unused, f.used)

  pub Creates-Frozen :
      (db : Db) (now : ℕ) (d : KitConfiguration) (db' : Db)
      → Creates db now d db'
      → FrozenOrGone id c ps db
      → FrozenOrGone id c ps db'
  unfolding clone_all_to_new_configuration insert_configuration created
  Creates-Frozen db now d db' z f =
      let inserted : FrozenOrGone id c ps (insert_configuration db d) =
        subst (λ e. FrozenOrGone id c ps (insert_configuration db e)) (sym z.row)
          (insert-Frozen db now z.new f) in
      elim z.state [
        | inl e ↦ subst (FrozenOrGone id c ps) (sym e) inserted
        | inr (source, e) ↦
            let next : d.id ≡ db.next_configuration_id = ap config_id z.row in
            subst (FrozenOrGone id c ps) (sym e) (
              tables-Frozen (insert_configuration db d) _ (omega arith) refl
                (λ _.
                  keep-append_nothing (λ p. p.kit_configuration_id == id) db.peripherals _
                    (clones-of id db.next_peripheral_id z.new.kit_id d.id
                      (peripherals_of source db.peripherals) (omega (arith, f.known, next))))
                inserted)
      ]

  deactivated-Frozen :
      (db : Db) (now : ℕ) (kit : Kit) (d : KitConfiguration) (active : Option Bool)
      → IsValid db
      → FrozenOrGone id c ps db
      → FrozenOrGone id c ps (deactivated db now kit d active)
  unfolding deactivated
  deactivated-Frozen db now kit d none v f = f
  deactivated-Frozen db now kit d (some active) v f = elim (Bool-cases (bool_eq active d.active)) [
    | inl same ↦ rw same f
    | inr differs ↦ rw differs (deactivate_all-Frozen db now kit.id v f)
  ]

  -- A PATCH of the rules needs a configuration that was never used.
  mutable-rules :
      (db : Db) (patch : KitConfigurationPatch) (d : KitConfiguration)
      → configuration_by_id db d.id ≡ some d
      → (not d.never_used && changes_rules patch) ≡ false
      → FrozenOrGone id c ps db
      → d.id ≡ id
      → (patch.controller_symbol_location ≡ none)
        × (patch.controller_symbol ≡ none)
        × (patch.control_rules ≡ none)
  mutable-rules db patch d found mutable f e = elim f.either [
    | inl gone ↦ cc (gone, found, e)
    | inr z ↦
        let same : d ≡ z.row = cc (found, z.found, e) in
        let used : d.never_used ≡ false = ap (λ r. r.never_used) same ∙ z.used in
        ground (arith, used, mutable)
  ]

  pub patches-Frozen :
      (db : Db) (now : ℕ) (user_id : Option ℕ) (j : ℕ) (patch : KitConfigurationPatch)
      (d : KitConfiguration) (db' : Db)
      → IsValid db
      → patch_configuration db now user_id j patch ≡ ok (d, db')
      → FrozenOrGone id c ps db
      → FrozenOrGone id c ps db'
  patches-Frozen db now user_id j patch d db' v h f =
      let p = patch-PatchDone db now user_id j patch d db' h in
      let a = update-Accepted _ now (update_of p.configuration patch) d db' p.done in
      let (found, _, same_id, _) = get_models-found db j p.kit p.configuration p.models in
      subst (FrozenOrGone id c ps) (sym a.state) (
        updated-Frozen (deactivated db now p.kit p.configuration patch.active) now
          (update_of p.configuration patch)
          (deactivated-IsValid db now p.kit p.configuration patch.active v)
          (mutable-rules db patch p.configuration
            (subst (λ k. configuration_by_id db k ≡ some p.configuration) (sym same_id) found)
            p.mutable f)
          (deactivated-Frozen db now p.kit p.configuration patch.active v f))

  pub deletes-Frozen :
      (db : Db) (j : ℕ)
      → FrozenOrGone id c ps db
      → FrozenOrGone id c ps (configuration_dropped j (media_queued (of_configuration j) db))
  deletes-Frozen db j f = elim (Bool-cases (id == j)) [
    | inl this ↦
        let e : id ≡ j = (==_iff id j).0 this in
        record {
          known = f.known;
          either = inl (rw e (first-delete_at config_id j db.kit_configurations));
        }
    | inr other ↦
        tables-Frozen db _ (omega arith)
          (first-keep_of config_id (λ d. not (d.id == j)) id db.kit_configurations
            (λ d e. ground (arith, other)))
          (λ _.
            keep-keep_of (λ p. p.kit_configuration_id == id)
              (λ p. not (p.kit_configuration_id == j)) db.peripherals
              (λ a k. ground (arith, other)))
          f
  ]

  module _ (db : Db) (f : FrozenOrGone id c ps db) where
    pub adds-Frozen :
        (kit : Kit) (d : KitConfiguration) (new : NewPeripheral)
        → configuration_by_id db d.id ≡ some d
        → d.never_used ≡ true
        → FrozenOrGone id c ps (insert_peripheral db kit d new).1
    unfolding insert_peripheral
    adds-Frozen kit d new found unused =
        tables-Frozen db _ (omega arith) refl
          (λ z.
            keep-append_nothing (λ p. p.kit_configuration_id == id) db.peripherals _
              (let other = unused-other db d.id d found unused z in ground (arith, other), tt))
          f

    module _ (s : IsSound db) (j : ℕ) (p : Peripheral) (z : Changeable db j p) where
      pub updates-Frozen :
          (patch : PeripheralPatch) → FrozenOrGone id c ps (peripheral_updated patch p.id db)
      unfolding changed_peripheral
      updates-Frozen patch =
          let found : first (λ q. q.id == p.id) db.peripherals ≡ some p = Changeable-row db j p z in
          tables-Frozen db _ (omega arith) refl
            (λ g.
              let other =
                unused-other db p.kit_configuration_id z.configuration z.of_peripheral z.unused g in
              keep-update_at peripheral_id (λ q. q.kit_configuration_id == id) p.id
                (changed_peripheral patch) db.peripherals p s.unique found (ground (arith, other))
                (ground (arith, other)))
            f

      pub removes-Frozen : FrozenOrGone id c ps (peripheral_removed p.id db)
      removes-Frozen =
          let found : first (λ q. q.id == p.id) db.peripherals ≡ some p = Changeable-row db j p z in
          tables-Frozen db _ (omega arith) refl
            (λ g.
              let other =
                unused-other db p.kit_configuration_id z.configuration z.of_peripheral z.unused g in
              keep-delete_at peripheral_id (λ q. q.kit_configuration_id == id) p.id db.peripherals p
                s.unique found (ground (arith, other)))
            f
