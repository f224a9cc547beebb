-- ===== src/Ingest/Cache.antt =====
-- What the cache remembers of a peripheral is right, as long as the peripheral is there.
use astroplant_api.Prelude.{
  ℕ, ◌≡◌, ◌<◌, refl, sym, ◌∙◌, ap, subst, inl, inr, Bool-cases, Option, Option-cases, some, ◌==◌,
  ==_iff, ==_refl, first-eq-some, All,
}
use astroplant_api.Prelude.Equality.{nat_eq, list_eq}
use astroplant_api.Prelude.Map.{Map, empty, get, insert, get-empty, get-insert}
use astroplant_api.Api.Models.{Kit, Peripheral}
use astroplant_api.Api.Database.{Db}
use astroplant_api.Api.Helpers.{kit_by_id}
use astroplant_api.Api.Configurations.Table.{peripheral_by_id}
use astroplant_api.Ingest.{KitAndConfigId, Row, Store, get_config_and_kit, filled, HasKeys}

-- What an entry of the cache says of a peripheral, as long as that and its kit are there.
pub record IsEntry (db : Db) (id : ℕ) (e : KitAndConfigId) : Type 0 where
  pub peripheral_key : id < db.next_peripheral_id
  pub kit_key : e.kit_id < db.next_kit_id
  pub of_peripheral :
      (p : Peripheral)
      → peripheral_by_id db id ≡ some p
      → (p.kit_id ≡ e.kit_id) × (p.kit_configuration_id ≡ e.config_id)
  pub of_kit : (k : Kit) → kit_by_id db e.kit_id ≡ some k → k.serial ≡ e.kit_serial

abbrev pub Entries : Db → Map ℕ KitAndConfigId → Type 0
Entries db cache = (id : ℕ) (e : KitAndConfigId) → get cache id ≡ some e → IsEntry db id e

-- A row has the kit and the configuration of its peripheral, which is there.
abbrev pub IsAttributed : {V : Type 0} → Db → Row V → Type 0
IsAttributed db r =
    (p : Peripheral) × (peripheral_by_id db r.peripheral_id ≡ some p)
    × (p.kit_id ≡ r.kit_id)
    × (p.kit_configuration_id ≡ r.kit_configuration_id)

pub record IsSound {Date : Type 0} (s : Store Date) : Type 0 where
  pub keys : HasKeys s.tables
  pub entries : Entries s.tables s.config_cache
  pub raw : All (IsAttributed s.tables) s.raw_measurements
  pub aggregates : All (IsAttributed s.tables) s.aggregate_measurements

-- The server as it is started: it remembers nothing, and every row that is stored already, if any, has the
-- kit and the configuration of its peripheral.
pub record IsStart {Date : Type 0} (s : Store Date) : Type 0 where
  pub keys : HasKeys s.tables
  pub nothing : s.config_cache ≡ empty
  pub raw : All (IsAttributed s.tables) s.raw_measurements
  pub aggregates : All (IsAttributed s.tables) s.aggregate_measurements

pub IsStart-IsSound : {Date : Type 0} (s : Store Date) → IsStart s → IsSound s
IsStart-IsSound s h = record {
  keys = h.keys;
  entries = λ id e found. absurd (cc (rw h.nothing at found, get-empty id));
  raw = h.raw;
  aggregates = h.aggregates;
}

pub some_same : {A : Type 0} {a b : A} (o : Option A) → o ≡ some a → o ≡ some b → a ≡ b
some_same o h k = cc (h, k)

-- What the query finds is right.
pub get_config_and_kit-IsEntry :
    (db : Db) (id : ℕ) (e : KitAndConfigId)
    → HasKeys db
    → get_config_and_kit db id ≡ some e
    → IsEntry db id e
unfolding get_config_and_kit
get_config_and_kit-IsEntry db id e keys h = elim (Option-cases (peripheral_by_id db id)) [
  | inl gone ↦ absurd (cc (rw gone at h))
  | inr (p, found) ↦ elim (Option-cases (kit_by_id db p.kit_id)) [
    | inl gone ↦ absurd (cc (rw gone at (rw found at h)))
    | inr (k, kit_found) ↦
        let same : record {
          kit_serial = k.serial;
          kit_id = k.id;
          config_id = p.kit_configuration_id;
        }
            ≡ e =
          cc (rw kit_found at (rw found at h)) in
        let is_kit : k.id ≡ p.kit_id =
          (==_iff k.id p.kit_id).0 (first-eq-some (λ l. l.id == p.kit_id) db.kits k kit_found) in
        subst (IsEntry db id) same (record {
          peripheral_key = keys.peripheral_key id p found;
          kit_key = subst (λ i. i < db.next_kit_id) (sym is_kit) (keys.kit_key id p found);
          of_peripheral = λ q other.
              let both = some_same (peripheral_by_id db id) found other in
              (
                ap (λ r. r.kit_id) (sym both) ∙ sym is_kit,
                ap (λ r. r.kit_configuration_id) (sym both),
              );
          of_kit = λ l other.
              ap (λ m. m.serial)
                (some_same (kit_by_id db k.id) other (ap (kit_by_id db) is_kit ∙ kit_found));
        })
  ]
]

pub insert-Entries :
    (db : Db) (cache : Map ℕ KitAndConfigId) (id : ℕ) (e : KitAndConfigId)
    → Entries db cache
    → IsEntry db id e
    → Entries db (insert cache id e)
insert-Entries db cache id e entries new j f h = elim (Bool-cases (id == j)) [
  | inl here ↦
      let same : id ≡ j = (==_iff id j).0 here in
      let is_new : e ≡ f = cc (rw here at (rw (get-insert cache id j e) at h)) in
      subst (λ i. IsEntry db i f) same (subst (IsEntry db id) is_new new)
  | inr other ↦ entries j f (rw other at (rw (get-insert cache id j e) at h))
]

pub filled-Entries :
    (db : Db) (cache : Map ℕ KitAndConfigId) (id : ℕ)
    → HasKeys db
    → Entries db cache
    → Entries db (filled db cache id)
unfolding filled
filled-Entries db cache id keys entries = elim (Option-cases (get cache id)) [
  | inr (e, known) ↦ rw known entries
  | inl unknown ↦ elim (Option-cases (get_config_and_kit db id)) [
    | inl gone ↦ rw (unknown, gone) entries
    | inr (e, found) ↦
        rw (unknown, found)
          (insert-Entries db cache id e entries (get_config_and_kit-IsEntry db id e keys found))
  ]
]

found_in_filled :
    (db : Db) (cache : Map ℕ KitAndConfigId) (id : ℕ) (p : Peripheral) (k : Kit)
    → peripheral_by_id db id ≡ some p
    → kit_by_id db p.kit_id ≡ some k
    → (e : KitAndConfigId) × (get (filled db cache id) id ≡ some e)
unfolding filled get_config_and_kit
found_in_filled db cache id p k found kit_found = elim (Option-cases (get cache id)) [
  | inr (e, known) ↦ (e, rw known known)
  | inl unknown ↦
      let e : KitAndConfigId = record {
        kit_serial = k.serial;
        kit_id = k.id;
        config_id = p.kit_configuration_id;
      } in
      (e, rw (unknown, found, kit_found) (rw (get-insert cache id id e) (rw (==_refl id) refl)))
]

-- For a peripheral that is there with its kit, the lookup finds what the tables say.
pub get-filled :
    (db : Db) (cache : Map ℕ KitAndConfigId) (id : ℕ) (p : Peripheral) (k : Kit)
    → HasKeys db
    → Entries db cache
    → peripheral_by_id db id ≡ some p
    → kit_by_id db p.kit_id ≡ some k
    → get (filled db cache id) id
      ≡ some
          (record { kit_serial = k.serial; kit_id = p.kit_id; config_id = p.kit_configuration_id })
get-filled db cache id p k keys entries found kit_found =
    let (e, there) = found_in_filled db cache id p k found kit_found in
    let is_entry = filled-Entries db cache id keys entries id e there in
    let (kit, config) = is_entry.of_peripheral p found in
    let serial = is_entry.of_kit k (subst (λ i. kit_by_id db i ≡ some k) kit kit_found) in
    there ∙ ap some (cc (kit, config, serial))
