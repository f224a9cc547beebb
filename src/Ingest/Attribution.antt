-- ===== src/Ingest/Attribution.antt =====
-- Every stored measurement is attributed to the kit and the configuration of its peripheral, whatever the cache
-- remembers.
use astroplant_api.Prelude.{
  ℕ, ◌≡◌, refl, sym, ◌∙◌, ap, subst, inl, inr, Bool-cases, Text, true, not, ◌&&◌, Option,
  Option-cases, none, some, List, [], ◌∷◌, ◌++◌, keep, is_none, if◌then◌else◌, All, All-append,
  arith,
}
use astroplant_api.Prelude.Equality.{◌≟◌, ≟_iff, nat_eq, list_eq}
use astroplant_api.Api.Models.{Kit, Peripheral}
use astroplant_api.Api.Database.{Db}
use astroplant_api.Api.Helpers.{kit_by_id}
use astroplant_api.Api.Configurations.Table.{peripheral_by_id}
use astroplant_api.Mqtt.Publications.{
  RawMeasurement, KitAggregate, Message, of_raw, of_aggregate, of_media,
}
use astroplant_api.Ingest.Cache.{
  IsEntry, IsAttributed, IsSound, IsStart, IsStart-IsSound, some_same, filled-Entries, get-filled,
}
use astroplant_api.Ingest.{
  KitAndConfigId, KitIdAndConfigId, Row, Store, if_of_kit, config_and_kit, is_accepted, raw_row,
  aggregate_row, store_raw, store_aggregate, insert_raw, insert_aggregate, ingest, HasKeys, Evolves,
  Step, Steps, ingests, evolves, done, after_step,
}

-- A configuration that config_and_kit gives for a message is that of an entry for the kit of the message.
pub record IsFor (db : Db) (id : ℕ) (serial : Text) (c : KitIdAndConfigId) : Type 0 where
  pub entry : KitAndConfigId
  pub is_entry : IsEntry db id entry
  pub same_serial : entry.kit_serial ≡ serial
  pub same_kit : c.kit_id ≡ entry.kit_id
  pub same_config : c.config_id ≡ entry.config_id

if_of_kit-IsFor :
    (db : Db) (id : ℕ) (serial : Text) (o : Option KitAndConfigId) (c : KitIdAndConfigId)
    → ((e : KitAndConfigId) → o ≡ some e → IsEntry db id e)
    → if_of_kit serial o ≡ some c
    → IsFor db id serial c
if_of_kit-IsFor db id serial none c f h = cc h
if_of_kit-IsFor db id serial (some e) c f h = elim (Bool-cases (e.kit_serial ≟ serial)) [
  | inl same ↦
      let is_c : record { kit_id = e.kit_id; config_id = e.config_id } ≡ c = cc (rw same at h) in
      record {
        entry = e;
        is_entry = f e refl;
        same_serial = (≟_iff e.kit_serial serial).0 same;
        same_kit = ap (λ d. d.kit_id) (sym is_c);
        same_config = ap (λ d. d.config_id) (sym is_c);
      }
  | inr other ↦ absurd (cc (rw other at h))
]

module _ {Date : Type 0} where
  is_accepted-IsAttributed :
      {V : Type 0} (s : Store Date) (rows : List (Row V)) (row : Row V) (serial : Text)
      (c : KitIdAndConfigId)
      → is_accepted s rows row ≡ true
      → IsFor s.tables row.peripheral_id serial c
      → row.kit_id ≡ c.kit_id
      → row.kit_configuration_id ≡ c.config_id
      → IsAttributed s.tables row
        × ((k : Kit) × (kit_by_id s.tables row.kit_id ≡ some k) × (k.serial ≡ serial))
  is_accepted-IsAttributed s rows row serial c h f same_kit same_config =
      elim (Option-cases (peripheral_by_id s.tables row.peripheral_id)) [
        | inl gone ↦ absurd (ground (arith, h, gone))
        | inr (p, found) ↦ elim (Option-cases (kit_by_id s.tables row.kit_id)) [
          | inl gone ↦ absurd (ground (arith, h, gone))
          | inr (k, kit_found) ↦
              let (kit, config) = f.is_entry.of_peripheral p found in
              (
                (
                  p,
                  found,
                  kit ∙ sym f.same_kit ∙ sym same_kit,
                  config ∙ sym f.same_config ∙ sym same_config,
                ),
                (
                  k,
                  kit_found,
                  f.is_entry.of_kit k (
                        subst (λ i. kit_by_id s.tables i ≡ some k) (same_kit ∙ f.same_kit)
                          kit_found)
                      ∙ f.same_serial,
                ),
              )
        ]
      ]

  config_and_kit-IsSound :
      (s : Store Date) (id : ℕ) (serial : Text)
      → IsSound s
      → IsSound (config_and_kit s id serial).1
        × ((c : KitIdAndConfigId)
            → (config_and_kit s id serial).0 ≡ some c
            → IsFor s.tables id serial c)
  unfolding config_and_kit
  config_and_kit-IsSound s id serial sound =
      let entries = filled-Entries s.tables s.config_cache id sound.keys sound.entries in
      (
        record {
          keys = sound.keys;
          entries = entries;
          raw = sound.raw;
          aggregates = sound.aggregates;
        },
        λ c h. if_of_kit-IsFor s.tables id serial _ c (entries id) h,
      )

  store_raw-IsSound :
      (s : Store Date) (now : ℕ) (raw : RawMeasurement Date) (config : Option KitIdAndConfigId)
      → IsSound s
      → ((c : KitIdAndConfigId) → config ≡ some c → IsFor s.tables raw.peripheral raw.kit_serial c)
      → IsSound (store_raw s now raw config).1
  store_raw-IsSound s now raw none sound f = sound
  store_raw-IsSound s now raw (some c) sound f =
      elim (Bool-cases (is_accepted s s.raw_measurements (raw_row raw c))) [
        | inr refused ↦ rw refused sound
        | inl good ↦
            let (attributed, kit) =
              is_accepted-IsAttributed s s.raw_measurements (raw_row raw c) raw.kit_serial c good
                (f c refl) refl refl in
            rw good (record {
              keys = sound.keys;
              entries = sound.entries;
              raw =
                  All-append (IsAttributed s.tables) s.raw_measurements _ sound.raw
                    (attributed, tt);
              aggregates = sound.aggregates;
            })
      ]

  store_aggregate-IsSound :
      (s : Store Date) (now : ℕ) (raw : KitAggregate Date) (config : Option KitIdAndConfigId)
      → IsSound s
      → ((c : KitIdAndConfigId) → config ≡ some c → IsFor s.tables raw.peripheral raw.kit_serial c)
      → IsSound (store_aggregate s now raw config).1
  store_aggregate-IsSound s now raw none sound f = sound
  store_aggregate-IsSound s now raw (some c) sound f =
      elim (Bool-cases (is_accepted s s.aggregate_measurements (aggregate_row raw c))) [
        | inr refused ↦ rw refused sound
        | inl good ↦
            let (attributed, kit) =
              is_accepted-IsAttributed s s.aggregate_measurements (aggregate_row raw c)
                raw.kit_serial c good (f c refl) refl refl in
            rw good (record {
              keys = sound.keys;
              entries = sound.entries;
              raw = sound.raw;
              aggregates =
                  All-append (IsAttributed s.tables) s.aggregate_measurements _ sound.aggregates
                    (attributed, tt);
            })
      ]

  ingest-IsSound :
      (s : Store Date) (now : ℕ) (m : Message Date) → IsSound s → IsSound (ingest s now m)
  unfolding ingest insert_raw insert_aggregate config_and_kit
  ingest-IsSound s now (of_raw raw) sound =
      let (filled_sound, f) = config_and_kit-IsSound s raw.peripheral raw.kit_serial sound in
      store_raw-IsSound (config_and_kit s raw.peripheral raw.kit_serial).1 now raw _ filled_sound f
  ingest-IsSound s now (of_aggregate raw) sound =
      let (filled_sound, f) = config_and_kit-IsSound s raw.peripheral raw.kit_serial sound in
      store_aggregate-IsSound (config_and_kit s raw.peripheral raw.kit_serial).1 now raw _
        filled_sound f
  ingest-IsSound s now (of_media media) sound = sound

Evolves-IsEntry :
    (db db' : Db) (id : ℕ) (e : KitAndConfigId)
    → Evolves db db'
    → IsEntry db id e
    → IsEntry db' id e
Evolves-IsEntry db db' id e ev old = record {
  peripheral_key = omega (arith, old.peripheral_key, ev.next);
  kit_key = omega (arith, old.kit_key, ev.next_kit);
  of_peripheral = λ p found.
      let (q, before, same_kit, same_config) = ev.peripherals id p old.peripheral_key found in
      let (kit, config) = old.of_peripheral q before in
      (sym same_kit ∙ kit, sym same_config ∙ config);
  of_kit = λ k found.
      let (l, before, same) = ev.kits e.kit_id k old.kit_key found in
      sym same ∙ old.of_kit l before;
}

kept-IsAttributed :
    {V : Type 0} (db db' : Db) (rows : List (Row V))
    → HasKeys db
    → Evolves db db'
    → All (IsAttributed db) rows
    → All (IsAttributed db') (keep (λ r. not (is_none (peripheral_by_id db' r.peripheral_id))) rows)
kept-IsAttributed db db' [] keys ev h = tt
kept-IsAttributed db db' (r ∷ rows) keys ev h =
    elim (Option-cases (peripheral_by_id db' r.peripheral_id)) [
      | inl gone ↦ rw gone (kept-IsAttributed db db' rows keys ev h.1)
      | inr (p, there) ↦
          let (q, before, same_kit, same_config) = h.0 in
          let (q', before', kit, config) =
            ev.peripherals r.peripheral_id p (keys.peripheral_key r.peripheral_id q before) there in
          let same = some_same (peripheral_by_id db r.peripheral_id) before' before in
          subst (All (IsAttributed db'))
            (ap
              (λ o.
                if not (is_none o)
                then r ∷ keep (λ r. not (is_none (peripheral_by_id db' r.peripheral_id))) rows
                else keep (λ r. not (is_none (peripheral_by_id db' r.peripheral_id))) rows)
              (sym there))
            (
              (
                p,
                there,
                sym kit ∙ ap (λ a. a.kit_id) same ∙ same_kit,
                sym config ∙ ap (λ a. a.kit_configuration_id) same ∙ same_config,
              ),
              kept-IsAttributed db db' rows keys ev h.1,
            )
    ]

module _ {Date : Type 0} where
  Step-IsSound : {s t : Store Date} → Step s t → IsSound s → IsSound t
  Step-IsSound (ingests s now m) sound = ingest-IsSound s now m sound
  Step-IsSound (evolves s db ev) sound = record {
    keys = ev.keys;
    entries = λ id e h. Evolves-IsEntry s.tables db id e ev (sound.entries id e h);
    raw = kept-IsAttributed s.tables db s.raw_measurements sound.keys ev sound.raw;
    aggregates =
        kept-IsAttributed s.tables db s.aggregate_measurements sound.keys ev sound.aggregates;
  }

  IsSound-Steps : {s t : Store Date} → Steps s t → IsSound s → IsSound t
  IsSound-Steps (done s) sound = sound
  IsSound-Steps (after_step s u t first_step rest) sound =
      IsSound-Steps rest (Step-IsSound first_step sound)

  -- The server is started with an empty cache, tables in which the ids of peripherals and of their kits
  -- were drawn from their sequences, and rows of measurements, if any, that have the kit and the
  -- configuration of their peripherals. Then whatever messages arrive, and however the API changes
  -- the tables in between, if it keeps the kit and the configuration of a peripheral and the serial
  -- of a kit, gives no id away twice, and draws the ids from the sequences: every stored measurement
  -- has the kit and the configuration of its peripheral, which is there, and the cache is right about
  -- every peripheral and kit that is there.
  pub Steps-IsSound : {s t : Store Date} → Steps s t → IsStart s → IsSound t
  Steps-IsSound steps start = IsSound-Steps steps (IsStart-IsSound _ start)

  -- The cache cannot be noticed. The server is started with an empty cache, tables in which the ids of
  -- peripherals and of their kits were drawn from their sequences, and rows of measurements, if any, that
  -- have the kit and the configuration of their peripherals. Since then messages were ingested, and the
  -- API changed the tables, keeping the kit and the configuration of a peripheral and the serial of a
  -- kit, and giving no id away twice (Evolves). Then, whatever the cache remembers: if the peripheral of a
  -- message and its kit are there, a measurement is stored exactly if the kit is the one that sent it
  -- and the database accepts the row, and then with the kit and the configuration that the tables
  -- have for the peripheral at that time.
  pub insert_raw_lem :
      {s t : Store Date} (now : ℕ) (raw : RawMeasurement Date) (p : Peripheral) (k : Kit)
      → IsStart s
      → Steps s t
      → peripheral_by_id t.tables raw.peripheral ≡ some p
      → kit_by_id t.tables p.kit_id ≡ some k
      → (insert_raw t now raw).1.raw_measurements ≡ (
          let row =
            raw_row raw (record { kit_id = p.kit_id; config_id = p.kit_configuration_id }) in
          if k.serial ≟ raw.kit_serial && is_accepted t t.raw_measurements row
          then t.raw_measurements ++ row ∷ []
          else t.raw_measurements)
  unfolding insert_raw config_and_kit
  insert_raw_lem {s} {t} now raw p k start steps found kit_found =
      let sound = Steps-IsSound steps start in
      rw
        (get-filled t.tables t.config_cache raw.peripheral p k sound.keys sound.entries found
          kit_found)
        (elim (Bool-cases (k.serial ≟ raw.kit_serial)) [
          | inr stranger ↦ rw stranger refl
          | inl own ↦
              rw own
                (elim (Bool-cases (
                  is_accepted t t.raw_measurements (
                    raw_row raw
                      (record { kit_id = p.kit_id; config_id = p.kit_configuration_id })))) [
                        | inl good ↦ rw good refl
                        | inr refused ↦ rw refused refl
                      ])
        ])
