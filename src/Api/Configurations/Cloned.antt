-- ===== src/Api/Configurations/Cloned.antt =====
-- What the copy of a configuration has of its source.
use astroplant_api.Prelude.{
  ℕ, ◌+◌, ◌<◌, Text, ◌≡◌, refl, ◌∙◌, ap, true, Option, some, List, [], ◌∷◌, ◌++◌, map, ◌==◌,
  keep-append, All, ok, arith, ==_iff,
}
use astroplant_api.Api.Models.{Json, Kit, KitConfiguration, Peripheral}
use astroplant_api.Api.Database.{Db}
use astroplant_api.Api.Configurations.Table.{
  configuration_by_id, peripherals_of, created, insert_configuration, clones,
  clone_all_to_new_configuration,
}
use astroplant_api.Api.Configurations.Handlers.{copy_configuration, clone_configuration}
use astroplant_api.Api.Configurations.Frozen.{SameRules}
use astroplant_api.Api.Configurations.Success.{clone-copies}

-- A peripheral but for its id, its kit and its configuration.
abbrev pub settings : Peripheral → ℕ × Text × Json
settings p = (p.peripheral_definition_id, p.name, p.configuration)

-- Every peripheral is of a configuration that was created (a foreign key).
abbrev pub AreOfKnown : Db → Type 0
AreOfKnown db = All (λ p. p.kit_configuration_id < db.next_configuration_id) db.peripherals

clones-settings :
    (n kit_id id : ℕ) (ps : List Peripheral)
    → map settings (clones n kit_id id ps) ≡ map settings ps
unfolding clones
clones-settings n kit_id id [] = refl
clones-settings n kit_id id (p ∷ ps) =
    ap (λ r. settings p ∷ r) (clones-settings (n + 1) kit_id id ps)

peripherals_of-clones :
    (n kit_id id : ℕ) (ps : List Peripheral)
    → peripherals_of id (clones n kit_id id ps) ≡ clones n kit_id id ps
unfolding clones
peripherals_of-clones n kit_id id [] = refl
peripherals_of-clones n kit_id id (p ∷ ps) =
    let ih = peripherals_of-clones (n + 1) kit_id id ps in
    rw ((==_iff id id).1 refl)
      (ap (λ r. record p { id = n; kit_id = kit_id; kit_configuration_id = id } ∷ r) ih)

none_of :
    (id : ℕ) (ps : List Peripheral)
    → All (λ p. p.kit_configuration_id < id) ps
    → peripherals_of id ps ≡ []
none_of id [] h = refl
none_of id (p ∷ ps) h = ground (arith, none_of id ps h.1, h.0)

-- The new row and the peripherals of a copy.
pub record IsCopy (db : Db) (kit : Kit) (source : KitConfiguration) (c : KitConfiguration)
    (db' : Db) : Type 0 where
  pub of_kit : c.kit_id ≡ kit.id
  pub unused : c.never_used ≡ true
  pub rules : SameRules source c
  pub peripherals :
      map settings (peripherals_of c.id db'.peripherals)
      ≡ map settings (peripherals_of source.id db.peripherals)

module _ (print_id : ℕ → Text) where
  copy_configuration-IsCopy :
      (db : Db) (now : ℕ) (kit : Kit) (source c : KitConfiguration) (db' : Db)
      → AreOfKnown db
      → copy_configuration print_id db now kit source ≡ ok (c, db')
      → IsCopy db kit source c db'
  unfolding copy_configuration created insert_configuration clone_all_to_new_configuration
  copy_configuration-IsCopy db now kit source c db' known h =
      let n = db.next_configuration_id in
      let new_id : c.id ≡ n = cc h in
      let rows : db'.peripherals
          ≡ db.peripherals
            ++ clones db.next_peripheral_id kit.id n (peripherals_of source.id db.peripherals) =
        cc h in
      record {
        of_kit = cc h;
        unused = cc h;
        rules = record { location = cc h; symbol = cc h; rules = cc h };
        peripherals =
            ap (map settings) (
              ap (λ k. peripherals_of k db'.peripherals) new_id
              ∙ ap (peripherals_of n) rows
              ∙ keep-append (λ p. p.kit_configuration_id == n) db.peripherals _
              ∙ ap
                  (λ r.
                    r
                    ++ peripherals_of n (
                        clones db.next_peripheral_id kit.id n
                          (peripherals_of source.id db.peripherals)))
                  (none_of n db.peripherals known)
              ∙ peripherals_of-clones db.next_peripheral_id kit.id n
                  (peripherals_of source.id db.peripherals))
            ∙ clones-settings db.next_peripheral_id kit.id n
                (peripherals_of source.id db.peripherals);
      }

  -- When a configuration is cloned, the new configuration belongs to the kit, counts as never used,
  -- and has the rules, the symbol and the location of its source; and it has peripherals of the
  -- same definitions, names and configurations as its source, in the same order. Every peripheral
  -- must be of a configuration that was created.
  pub clone-IsCopy :
      (db : Db) (now : ℕ) (user_id : Option ℕ) (kit : Kit) (id : ℕ) (c : KitConfiguration)
      (db' : Db)
      → AreOfKnown db
      → clone_configuration print_id db now user_id kit id ≡ ok (c, db')
      → (source : KitConfiguration) × (configuration_by_id db id ≡ some source)
        × IsCopy db kit source c db'
  clone-IsCopy db now user_id kit id c db' known h =
      let (source, found, copied) = clone-copies print_id db now user_id kit id c db' h in
      (source, found, copy_configuration-IsCopy db now kit source c db' known copied)
