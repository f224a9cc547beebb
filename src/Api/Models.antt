-- ===== src/Api/Models.antt =====
-- astroplant-api/src/models: the rows of the tables, and the values that insert and update them.
-- A JSON document, a UUID and a decimal are carried as texts: the code stores and compares them and
-- never looks inside. A date and time is a number, and an `i32` id a natural number.
use astroplant_api.Prelude.{ℕ, Text, Option, Bool}

abbrev pub Json : Type 0
Json = Text

abbrev pub Decimal : Type 0
Decimal = Text

abbrev pub Uuid : Type 0
Uuid = Text

pub record User : Type 0 where
  pub id : ℕ
  pub username : Text
  pub display_name : Text
  pub password_hash : Text
  pub email_address : Text
  pub use_email_address_for_gravatar : Bool
  pub gravatar_alternative : Text
  pub created_at : ℕ
  pub updated_at : ℕ

pub record Kit : Type 0 where
  pub id : ℕ
  pub serial : Text
  pub password_hash : Text
  pub name : Option Text
  pub description : Option Text
  pub latitude : Option Decimal
  pub longitude : Option Decimal
  pub privacy_public_dashboard : Bool
  pub privacy_show_on_map : Bool
  pub created_at : ℕ
  pub updated_at : ℕ

pub record NewKit : Type 0 where
  pub serial : Text
  pub password_hash : Text
  pub name : Option Text
  pub description : Option Text
  pub latitude : Option Decimal
  pub longitude : Option Decimal
  pub privacy_public_dashboard : Bool
  pub privacy_show_on_map : Bool

pub record KitMembership : Type 0 where
  pub id : ℕ
  pub user_id : ℕ
  pub kit_id : ℕ
  pub datetime_linked : ℕ
  pub access_super : Bool
  pub access_configure : Bool

-- `never_used` is a column that the database generates: `first_activated_at IS NULL`.
pub record KitConfiguration : Type 0 where
  pub id : ℕ
  pub kit_id : ℕ
  pub description : Option Text
  pub controller_symbol_location : Text
  pub controller_symbol : Text
  pub control_rules : Json
  pub active : Bool
  pub first_activated_at : Option ℕ
  pub never_used : Bool
  pub created_at : ℕ
  pub updated_at : ℕ

pub record Peripheral : Type 0 where
  pub id : ℕ
  pub kit_id : ℕ
  pub kit_configuration_id : ℕ
  pub peripheral_definition_id : ℕ
  pub name : Text
  pub configuration : Json

pub record PeripheralDefinition : Type 0 where
  pub id : ℕ
  pub configuration_schema : Json

pub record Media : Type 0 where
  pub id : Uuid
  pub peripheral_id : ℕ
  pub kit_id : ℕ
  pub kit_configuration_id : ℕ
  pub datetime : ℕ
  pub name : Text
  pub media_type : Text
  pub metadata : Json
  pub size : ℕ

pub record QueueMediaPendingDeletion : Type 0 where
  pub media_id : Uuid
  pub media_datetime : ℕ
  pub media_size : ℕ
