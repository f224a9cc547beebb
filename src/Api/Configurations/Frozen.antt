-- ===== src/Api/Configurations/Frozen.antt =====
-- A used configuration, as the statements on the tables see it: its rules and its peripherals.
use astroplant_api.Prelude.{
  ℕ, ◌≤◌, ◌<◌, ◌≡◌, refl, ◌∙◌, ap, false, none, some, List, [], ◌∷◌, map, ◌==◌, if◌then◌else◌,
  first-eq-some, ==_iff, All-first, arith, ◌⊎◌, inl, inr,
}
use mathlib.Core.Option
use astroplant_api.Prelude.Keyed.{first-map, first-append}
use astroplant_api.Api.Models.{KitConfiguration, Peripheral}
use astroplant_api.Api.Database.{Db}
use astroplant_api.Api.Configurations.Table.{
  configuration_by_id, on_update, changed, updated, deactivate_all_of_kit_id,
  UpdateKitConfiguration, peripherals_of, created, insert_configuration, NewKitConfiguration,
}
use astroplant_api.Api.Configurations.Active.{config_id, IsValid, IsConsistent, change, deactivate}

-- The rules of a configuration, and what supervises them.
pub record SameRules (c d : KitConfiguration) : Type 0 where
  pub location : d.controller_symbol_location ≡ c.controller_symbol_location
  pub symbol : d.controller_symbol ≡ c.controller_symbol
  pub rules : d.control_rules ≡ c.control_rules

-- The used configuration `id` is stored with the rules of `c`, and has the peripherals `ps`.
pub record IsFrozen (id : ℕ) (c : KitConfiguration) (ps : List Peripheral) (db : Db) : Type 0 where
  pub row : KitConfiguration
  pub found : configuration_by_id db id ≡ some row
  pub used : row.never_used ≡ false
  pub same : SameRules c row
  pub peripherals : peripherals_of id db.peripherals ≡ ps

-- Or it was deleted, and its id is not used again.
pub record FrozenOrGone (id : ℕ) (c : KitConfiguration) (ps : List Peripheral) (db : Db)
    : Type 0 where
  pub known : id < db.next_configuration_id
  pub either : (configuration_by_id db id ≡ none) ⊎ IsFrozen id c ps db

module _ {id : ℕ} {c : KitConfiguration} {ps : List Peripheral} where
  -- Any change of the tables that keeps the row of the id and its peripherals.
  pub tables-Frozen :
      (db db' : Db)
      → db.next_configuration_id ≤ db'.next_configuration_id
      → configuration_by_id db' id ≡ configuration_by_id db id
      → (IsFrozen id c ps db → peripherals_of id db'.peripherals ≡ peripherals_of id db.peripherals)
      → FrozenOrGone id c ps db
      → FrozenOrGone id c ps db'
  tables-Frozen db db' grows same_row same_ps z = record {
    known = omega (arith, z.known);
    either = elim z.either [
      | inl gone ↦ inl (same_row ∙ gone)
      | inr f ↦ inr (record {
        row = f.row;
        found = same_row ∙ f.found;
        used = f.used;
        same = f.same;
        peripherals = same_ps f ∙ f.peripherals;
      })
    ];
  }

  -- A map over the configurations that keeps ids, and the rules and use of a used one.
  pub map-Frozen :
      (f : KitConfiguration → KitConfiguration) (same_id : (d : KitConfiguration) → (f d).id ≡ d.id)
      (db : Db)
      → IsValid db
      → ((d : KitConfiguration)
          → IsConsistent d
          → d.id ≡ id
          → d.never_used ≡ false
          → SameRules d (f d) × ((f d).never_used ≡ false))
      → FrozenOrGone id c ps db
      → FrozenOrGone id c ps (record db { kit_configurations = map f db.kit_configurations })
  map-Frozen f same_id db v keeps z =
      let look = first-map config_id f same_id id db.kit_configurations in
      record {
        known = z.known;
        either = elim z.either [
          | inl gone ↦ inl (look ∙ ap (Option.map f) gone)
          | inr z ↦
              let consistent =
                All-first IsConsistent (λ d. d.id == id) db.kit_configurations z.row v.consistent
                  z.found in
              let is_id =
                (==_iff z.row.id id).0
                  (first-eq-some (λ d. d.id == id) db.kit_configurations z.row z.found) in
              let (rules, used) = keeps z.row consistent is_id z.used in
              inr (record {
                row = f z.row;
                found = look ∙ ap (Option.map f) z.found;
                used = used;
                same = record {
                  location = rules.location ∙ z.same.location;
                  symbol = rules.symbol ∙ z.same.symbol;
                  rules = rules.rules ∙ z.same.rules;
                };
                peripherals = z.peripherals;
              })
        ];
      }

  pub deactivate_all-Frozen :
      (db : Db) (now kit_id : ℕ)
      → IsValid db
      → FrozenOrGone id c ps db
      → FrozenOrGone id c ps (deactivate_all_of_kit_id db now kit_id)
  unfolding deactivate_all_of_kit_id on_update
  deactivate_all-Frozen db now kit_id v z =
      map-Frozen (deactivate now kit_id) (λ d. ground arith) db v
        (λ d k _ u. (
          record { location = ground arith; symbol = ground arith; rules = ground arith },
          ground arith,
        ))
        z

  -- An update that leaves the rules of this configuration alone.
  pub updated-Frozen :
      (db : Db) (now : ℕ) (u : UpdateKitConfiguration)
      → IsValid db
      → (u.id ≡ id
          → (u.controller_symbol_location ≡ none)
            × (u.controller_symbol ≡ none)
            × (u.control_rules ≡ none))
      → FrozenOrGone id c ps db
      → FrozenOrGone id c ps
          (record db { kit_configurations = updated now u db.kit_configurations })
  unfolding updated on_update changed
  updated-Frozen db now u v allowed z =
      map-Frozen (λ d. if d.id == u.id then change now u d else d) (λ d. ground arith) db v
        (λ d k e w. (
          record { location = ground arith; symbol = ground arith; rules = ground arith },
          ground arith,
        ))
        z

  pub insert-Frozen :
      (db : Db) (now : ℕ) (new : NewKitConfiguration)
      → FrozenOrGone id c ps db
      → FrozenOrGone id c ps (insert_configuration db (created db now new))
  unfolding insert_configuration created
  insert-Frozen db now new z =
      tables-Frozen db (insert_configuration db (created db now new)) (omega arith)
        (first-append config_id id db.kit_configurations (created db now new ∷ [])
          (omega (arith, z.known), tt))
        (λ _. refl) z
