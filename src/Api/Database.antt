-- ===== src/Api/Database.antt =====
-- The database as the handlers see it: the tables as lists of rows in the order of insertion, and
-- the next value of each `serial` column. A handler that fails rolls its transaction back, so a
-- step returns either a problem, or a value with the new state.
use astroplant_api.Prelude.{ℕ, ◌≡◌, refl, List, Result, ok, err}
use astroplant_api.Api.Problem.{Problem}
use astroplant_api.Api.Models.{
  User, Kit, KitMembership, KitConfiguration, Peripheral, PeripheralDefinition, Media,
  QueueMediaPendingDeletion,
}

pub record Db : Type 0 where
  pub users : List User
  pub kits : List Kit
  pub kit_memberships : List KitMembership
  pub kit_configurations : List KitConfiguration
  pub peripherals : List Peripheral
  pub peripheral_definitions : List PeripheralDefinition
  pub media : List Media
  pub queue_media_pending_deletion : List QueueMediaPendingDeletion
  pub next_user_id : ℕ
  pub next_kit_id : ℕ
  pub next_membership_id : ℕ
  pub next_configuration_id : ℕ
  pub next_peripheral_id : ℕ

abbrev pub Tx : Type 0 → Type 0
Tx A = Result Problem (A × Db)

-- The state after a transaction: as before if it was rolled back.
abbrev pub after : {A : Type 0} → Db → Tx A → Db
after db (ok (a, db')) = db'
after db (err e) = db

-- What holds before a transaction and after each of its successes holds after it.
pub after_ok :
    {A : Type 0} (P : Db → Type 0) (db : Db) (r : Tx A)
    → P db
    → ((a : A) (db' : Db) → r ≡ ok (a, db') → P db')
    → P (after db r)
after_ok P db (ok (a, db')) h f = f a db' refl
after_ok P db (err e) h f = h
