-- ===== src/Api/Pages/Examples.antt =====
-- Sixty measurements of a kit, in two pages.
use astroplant_api.Prelude.{
  ℕ, zero, suc, ◌≤◌, ◌≡◌, ◌≢◌, none, some, List, [], ◌∷◌, keep, All, arith, codes,
}
use astroplant_api.Api.Pages.{AggregateMeasurement, Filters, selected, order_desc, follow}
use astroplant_api.Api.Pages.Order.{HasKey, Descends}
use astroplant_api.Api.Pages.Visits.{follow-visits}

abbrev measurement : ℕ → AggregateMeasurement
measurement n = record {
  id = n;
  peripheral_id = 0;
  kit_id = 0;
  kit_configuration_id = 0;
  quantity_type_id = 2;
  datetime_start = 100;
  datetime_end = 200;
  values = codes "{}";
}

abbrev measurements : ℕ → List AggregateMeasurement
measurements zero = []
measurements (suc n) = measurement n ∷ measurements n

abbrev no_filter : Filters
no_filter = record { configuration = none; peripheral = none; quantity_type = some 2 }

others : (k n : ℕ) → n ≤ k → All (λ m. m.id ≢ k) (keep (selected 0 no_filter) (measurements n))
others k zero h = tt
others k (suc n) h = (omega (arith, h), others k n (omega (arith, h)))

measurements-HasKey : (n : ℕ) → HasKey (keep (selected 0 no_filter) (measurements n))
measurements-HasKey zero = tt
measurements-HasKey (suc n) = (others n n (omega arith), measurements-HasKey n)

follow-visits_example :
    (follow 62 (measurements 60) 0 no_filter none
      ≡ order_desc (keep (selected 0 no_filter) (measurements 60)))
    × Descends (follow 62 (measurements 60) 0 no_filter none)
follow-visits_example =
    follow-visits (measurements 60) 0 no_filter (measurements-HasKey 60) 61 (omega arith)
