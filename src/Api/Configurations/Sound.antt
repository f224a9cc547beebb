-- ===== src/Api/Configurations/Sound.antt =====
-- The routes on configurations and peripherals keep their tables sound.
use astroplant_api.Prelude.{
  ℕ, ◌+◌, ◌<◌, ◌≡◌, ◌≢◌, refl, sym, Bool, true, List, [], ◌∷◌, ◌++◌, keep, count, All-append,
  All-keep, count-keep-le, arith, inl, inr, subst,
}
use astroplant_api.Prelude.Keyed.{Unique, Below, Unique-append, Unique-keep, Below-mono, NoId}
use astroplant_api.Api.Models.{KitConfiguration, Peripheral, Kit}
use astroplant_api.Api.Database.{Db}
use astroplant_api.Api.Configurations.Table.{
  insert_configuration, clones, clone_all_to_new_configuration, peripherals_of, is_active_of,
}
use astroplant_api.Api.Configurations.Peripherals.{NewPeripheral, insert_peripheral}
use astroplant_api.Api.Configurations.Active.{config_id, IsConsistent, IsValid, insert-IsValid}
use astroplant_api.Api.Configurations.Success.{Creates}

abbrev pub peripheral_id : Peripheral → ℕ
peripheral_id p = p.id

-- The configurations are valid, and the ids of the peripherals are those that their sequence gave.
pub record IsSound (db : Db) : Type 0 where
  pub valid : IsValid db
  pub unique : Unique peripheral_id db.peripherals
  pub fresh : Below peripheral_id db.next_peripheral_id db.peripherals

-- Deleting rows keeps a table of configurations valid.
pub keep-IsValid :
    (q : KitConfiguration → Bool) (db db' : Db)
    → db'.kit_configurations ≡ keep q db.kit_configurations
    → db'.next_configuration_id ≡ db.next_configuration_id
    → IsValid db
    → IsValid db'
keep-IsValid q db db' rows next v = record {
  unique = rw rows (Unique-keep config_id q db.kit_configurations v.unique);
  fresh =
      rw (rows, next)
        (All-keep (λ c. c.id < db.next_configuration_id) q db.kit_configurations v.fresh);
  one_active = λ k.
      rw rows
        (omega (arith, v.one_active k, count-keep-le (is_active_of k) q db.kit_configurations));
  consistent = rw rows (All-keep IsConsistent q db.kit_configurations v.consistent);
}

-- The validity of the configurations depends on their table and its sequence only.
pub same-IsValid :
    (db db' : Db)
    → db'.kit_configurations ≡ db.kit_configurations
    → db'.next_configuration_id ≡ db.next_configuration_id
    → IsValid db
    → IsValid db'
same-IsValid db db' rows next v = record {
  unique = rw rows v.unique;
  fresh = rw (rows, next) v.fresh;
  one_active = λ k. rw rows (v.one_active k);
  consistent = rw rows v.consistent;
}

-- The clones of peripherals get the next ids of the sequence.
module _ (kit_id configuration_id : ℕ) where
  clones-Below :
      (n : ℕ) (ps : List Peripheral)
      → Below peripheral_id (n + count (λ _. true) ps) (clones n kit_id configuration_id ps)
  unfolding clones
  clones-Below n [] = tt
  clones-Below n (p ∷ ps) = (
    omega arith,
    Below-mono peripheral_id _ _ (clones (n + 1) kit_id configuration_id ps) (omega arith)
        (clones-Below (n + 1) ps),
  )

  clones-above :
      (j n : ℕ) (ps : List Peripheral)
      → j < n
      → NoId peripheral_id j (clones n kit_id configuration_id ps)
  unfolding clones
  clones-above j n [] h = tt
  clones-above j n (p ∷ ps) h = (omega arith, clones-above j (n + 1) ps (omega arith))

  clones-Unique :
      (n : ℕ) (ps : List Peripheral) → Unique peripheral_id (clones n kit_id configuration_id ps)
  unfolding clones
  clones-Unique n [] = tt
  clones-Unique n (p ∷ ps) = (clones-above n (n + 1) ps (omega arith), clones-Unique (n + 1) ps)

  append_clones-Unique :
      (n : ℕ) (qs ps : List Peripheral)
      → Unique peripheral_id qs
      → Below peripheral_id n qs
      → Unique peripheral_id (qs ++ clones n kit_id configuration_id ps)
  append_clones-Unique n [] ps u b = clones-Unique n ps
  append_clones-Unique n (q ∷ qs) ps u b = (
    All-append (λ p. p.id ≢ q.id) qs _ u.0 (clones-above q.id n ps b.0),
    append_clones-Unique n qs ps u.1 b.1,
  )

clone_all-IsSound :
    (db : Db) (from kit_id id : ℕ)
    → IsSound db
    → IsSound (clone_all_to_new_configuration db from kit_id id)
unfolding clone_all_to_new_configuration
clone_all-IsSound db from kit_id id s = record {
  valid = same-IsValid db _ refl refl s.valid;
  unique = append_clones-Unique kit_id id db.next_peripheral_id db.peripherals _ s.unique s.fresh;
  fresh =
      All-append
        (λ p. p.id < db.next_peripheral_id + count (λ _. true) (peripherals_of from db.peripherals))
        db.peripherals _ (Below-mono peripheral_id _ _ db.peripherals (omega arith) s.fresh)
        (clones-Below kit_id id db.next_peripheral_id (peripherals_of from db.peripherals));
}

pub insert-IsSound :
    (db : Db) (now : ℕ) (c : KitConfiguration) (db' : Db)
    → Creates db now c db'
    → IsSound db
    → IsSound db'
unfolding insert_configuration
insert-IsSound db now c db' z s =
    let inserted : IsSound (insert_configuration db c) = record {
      valid =
          subst (λ d. IsValid (insert_configuration db d)) (sym z.row)
            (insert-IsValid db now z.new s.valid);
      unique = s.unique;
      fresh = s.fresh;
    } in
    elim z.state [
      | inl e ↦ subst IsSound (sym e) inserted
      | inr (source, e) ↦
          subst IsSound (sym e)
            (clone_all-IsSound (insert_configuration db c) source z.new.kit_id c.id inserted)
    ]

pub insert_peripheral-IsSound :
    (db : Db) (kit : Kit) (c : KitConfiguration) (new : NewPeripheral)
    → IsSound db
    → IsSound (insert_peripheral db kit c new).1
unfolding insert_peripheral
insert_peripheral-IsSound db kit c new s = record {
  valid = same-IsValid db _ refl refl s.valid;
  unique = Unique-append peripheral_id db.peripherals _ s.unique s.fresh;
  fresh =
      All-append (λ p. p.id < db.next_peripheral_id + 1) db.peripherals _
        (Below-mono peripheral_id _ _ db.peripherals (omega arith) s.fresh) (omega arith, tt);
}
