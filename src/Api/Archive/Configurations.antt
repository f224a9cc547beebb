-- ===== src/Api/Archive/Configurations.antt =====
-- The first file of the archive lists every configuration with its own peripherals.
use astroplant_api.Prelude.{
  ℕ, ◌≡◌, refl, sym, ◌∙◌, ap, false, Bool-cases, inl, inr, Option, none, some, List, [], ◌∷◌, ◌++◌,
  map, ◌==◌, ==_iff, keep, arith,
}
use mathlib.Core.List.{append_assoc, append-nil}
use astroplant_api.Prelude.Equality.{nat_eq}
use astroplant_api.Prelude.Keyed.{Unique, NoId}
use astroplant_api.Prelude.Map.{Map, empty, get, insert, remove, get-empty, get-insert, get-remove}
use astroplant_api.Api.Models.{KitConfiguration, Peripheral}
use astroplant_api.Api.Database.{Db}
use astroplant_api.Api.Archive.{
  KitConfigurationWithPeripherals, push, into_group_map, unwrap_or_default, with_peripherals,
  write_configs,
}

abbrev of_configuration : ℕ → List Peripheral → List Peripheral
of_configuration id = keep (λ p. p.kit_configuration_id == id)

abbrev group : Map ℕ (List Peripheral) → ℕ → List Peripheral
group groups id = unwrap_or_default (get groups id)

pushed :
    (o : Option (List Peripheral)) (p : Peripheral) (ps : List Peripheral)
    → unwrap_or_default (some (push o p)) ++ ps ≡ unwrap_or_default o ++ p ∷ ps
pushed none p ps = refl
pushed (some group) p ps = append_assoc group (p ∷ []) ps

group-insert :
    (groups : Map ℕ (List Peripheral)) (p : Peripheral) (ps : List Peripheral) (id : ℕ)
    → group (insert groups p.kit_configuration_id (push (get groups p.kit_configuration_id) p)) id
        ++ of_configuration id ps
      ≡ group groups id ++ of_configuration id (p ∷ ps)
group-insert groups p ps id = elim (Bool-cases (p.kit_configuration_id == id)) [
  | inl here ↦
      let same = (==_iff p.kit_configuration_id id).0 here in
      rw (get-insert groups p.kit_configuration_id id (push (get groups p.kit_configuration_id) p))
        (rw here (
          ap (λ k. push (get groups k) p ++ of_configuration id ps) same
          ∙ pushed (get groups id) p (of_configuration id ps)))
  | inr there ↦
      rw (get-insert groups p.kit_configuration_id id (push (get groups p.kit_configuration_id) p))
        (rw there refl)
]

group-into_group_map :
    (groups : Map ℕ (List Peripheral)) (ps : List Peripheral) (id : ℕ)
    → group (into_group_map groups ps) id ≡ group groups id ++ of_configuration id ps
unfolding into_group_map
group-into_group_map groups [] id = sym (append-nil (group groups id))
group-into_group_map groups (p ∷ ps) id =
    group-into_group_map
      (insert groups p.kit_configuration_id (push (get groups p.kit_configuration_id) p)) ps id
    ∙ group-insert groups p ps id

abbrev in_group : Map ℕ (List Peripheral) → KitConfiguration → KitConfigurationWithPeripherals
in_group groups c = record { configuration = c; peripherals = group groups c.id }

in_group-remove :
    (groups : Map ℕ (List Peripheral)) (id : ℕ) (cs : List KitConfiguration)
    → NoId (λ c. c.id) id cs
    → map (in_group (remove groups id)) cs ≡ map (in_group groups) cs
in_group-remove groups id [] h = refl
in_group-remove groups id (c ∷ cs) h =
    let other : (id == c.id) ≡ false = ground (arith, h.0) in
    rw (in_group-remove groups id cs h.1) (rw (get-remove groups id c.id) (rw other refl))

with_peripherals-map :
    (groups : Map ℕ (List Peripheral)) (cs : List KitConfiguration)
    → Unique (λ c. c.id) cs
    → with_peripherals groups cs ≡ map (in_group groups) cs
unfolding with_peripherals
with_peripherals-map groups [] u = refl
with_peripherals-map groups (c ∷ cs) u =
    ap (λ rest. in_group groups c ∷ rest)
      (with_peripherals-map (remove groups c.id) cs u.1 ∙ in_group-remove groups c.id cs u.0)

map-in_group :
    (ps : List Peripheral) (cs : List KitConfiguration)
    → map (in_group (into_group_map empty ps)) cs
      ≡ map (λ c. record { configuration = c; peripherals = of_configuration c.id ps }) cs
map-in_group ps [] = refl
map-in_group ps (c ∷ cs) =
    rw (map-in_group ps cs)
      (rw (group-into_group_map empty ps c.id) (rw (get-empty {V = List Peripheral} c.id) refl))

-- The two loops over a hash map compute what a query per configuration would: the first file of the
-- archive has every configuration of the kit in its order, with the peripherals of the kit that
-- belong to it in theirs. The ids of the configurations of the kit are unique.
pub write_configs-map :
    (db : Db) (kit_id : ℕ)
    → Unique (λ c. c.id) (keep (λ c. c.kit_id == kit_id) db.kit_configurations)
    → write_configs db kit_id
      ≡ map
          (λ c. record {
            configuration = c;
            peripherals =
                keep
                  (λ p. p.kit_configuration_id == c.id)
                  (keep (λ p. p.kit_id == kit_id) db.peripherals);
          })
          (keep (λ c. c.kit_id == kit_id) db.kit_configurations)
unfolding write_configs
write_configs-map db kit_id u =
    let ps = keep (λ p. p.kit_id == kit_id) db.peripherals in
    let cs = keep (λ c. c.kit_id == kit_id) db.kit_configurations in
    with_peripherals-map (into_group_map empty ps) cs u ∙ map-in_group ps cs
