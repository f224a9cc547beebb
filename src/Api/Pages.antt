-- ===== src/Api/Pages.antt =====
-- astroplant-api/src/models/measurement.rs and cursors.rs: the pages of the aggregate measurements
-- of a kit. A page is a query with an order and a limit; its cursor is the date and time and the id
-- of the last row of the page before. A UUID is the number of its bits, as the database compares it.
use astroplant_api.Prelude.{
  ℕ, zero, suc, ◌+◌, Bool, true, false, ◌&&◌, ◌||◌, Option, none, some, List, [], ◌∷◌, ◌++◌, ◌==◌,
  ltb, leb, if◌then◌else◌, keep, take, length,
}
use astroplant_api.Api.Models.{Json}
pub mod Order
pub mod Visits
mod Examples

pub record AggregateMeasurement : Type 0 where
  pub id : ℕ
  pub peripheral_id : ℕ
  pub kit_id : ℕ
  pub kit_configuration_id : ℕ
  pub quantity_type_id : ℕ
  pub datetime_start : ℕ
  pub datetime_end : ℕ
  pub values : Json

pub record Cursor : Type 0 where
  pub datetime : ℕ
  pub id : ℕ

-- The cursor that a row gives.
abbrev pub cursor_of : AggregateMeasurement → Cursor
cursor_of m = record { datetime = m.datetime_start; id = m.id }

-- `datetime_start < datetime OR (datetime_start = datetime AND id < id)`
abbrev pub is_below : Cursor → AggregateMeasurement → Bool
is_below c m = ltb m.datetime_start c.datetime || m.datetime_start == c.datetime && ltb m.id c.id

-- ORDER BY datetime_start DESC, id DESC
abbrev pub insert_desc :
    AggregateMeasurement → List AggregateMeasurement → List AggregateMeasurement
insert_desc m [] = m ∷ []
insert_desc m (n ∷ ns) =
    let rest = insert_desc m ns in if is_below (cursor_of m) n then m ∷ n ∷ ns else n ∷ rest

abbrev pub order_desc : List AggregateMeasurement → List AggregateMeasurement
order_desc [] = []
order_desc (m ∷ ms) = insert_desc m (order_desc ms)

-- The filters that the query of the route may give.
pub record Filters : Type 0 where
  pub configuration : Option ℕ
  pub peripheral : Option ℕ
  pub quantity_type : Option ℕ

abbrev pub meets : Option ℕ → ℕ → Bool
meets none id = true
meets (some wanted) id = id == wanted

abbrev pub selected : ℕ → Filters → AggregateMeasurement → Bool
selected kit_id f m =
    m.kit_id == kit_id
    && meets f.configuration m.kit_configuration_id
    && meets f.peripheral m.peripheral_id
    && meets f.quantity_type m.quantity_type_id

abbrev pub after_cursor : Option Cursor → List AggregateMeasurement → List AggregateMeasurement
after_cursor none ms = ms
after_cursor (some c) ms = keep (is_below c) ms

abbrev pub per_page : ℕ
per_page = 50

-- AggregateMeasurement::page
unfoldable pub page :
    List AggregateMeasurement → (kit_id : ℕ) → Filters → Option Cursor → List AggregateMeasurement
page table kit_id f cursor =
    take per_page (order_desc (after_cursor cursor (keep (selected kit_id f) table)))

abbrev pub last : List AggregateMeasurement → Option AggregateMeasurement
last [] = none
last (m ∷ []) = some m
last (m ∷ n ∷ ms) = last (n ∷ ms)

abbrev pub cursor_of_last : Option AggregateMeasurement → Option Cursor
cursor_of_last none = none
cursor_of_last (some m) = some (cursor_of m)

-- cursors::AggregateMeasurements::next_from_page
unfoldable pub next_from_page : List AggregateMeasurement → Option Cursor
next_from_page p = if leb per_page (length p) then cursor_of_last (last p) else none

abbrev pub if_more :
    (Cursor → List AggregateMeasurement) → Option Cursor → List AggregateMeasurement
if_more rest none = []
if_more rest (some c) = rest c

-- What a client sees that follows the links to the next page, up to a number of pages.
unfoldable pub follow :
    ℕ
    → List AggregateMeasurement
    → (kit_id : ℕ) → Filters
    → Option Cursor
    → List AggregateMeasurement
unfolding page next_from_page
follow zero table kit_id f cursor = []
follow (suc n) table kit_id f cursor =
    let p = page table kit_id f cursor in
    p ++ if_more (λ c. follow n table kit_id f (some c)) (next_from_page p)
