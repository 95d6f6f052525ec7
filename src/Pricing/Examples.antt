-- ===== src/Pricing/Examples.antt =====
-- Fares and tariffs on small tables, and the theorems at inputs that meet their hypotheses.
use kilo_backend.Prelude.{[], arith, none, refl, some, true, ℕ_discrete, ◌∷◌, ◌≡◌, ◌≤◌}
use kilo_backend.Prelude.Action.{ok}
use kilo_backend.Prelude.Decimal.{Decimal, of_kobo, to_kobo}
use kilo_backend.Prelude.Int.{pos}
use kilo_backend.Pricing.Cache.{get_active_tariff_current, serve, serve_all}
use kilo_backend.Pricing.Choice.{Chosen, resolve_tariff-Resolved}
use kilo_backend.Pricing.Fares.{
  Adds, build_fare_breakdown, build_fare_breakdown-Adds, calculate_fare, calculate_fare_bounds,
}
use kilo_backend.Pricing.Tariffs.{
  PricingStore, Tariff, TariffServiceType-discrete, is_candidate, resolve_tariff, ride, score,
}
use kilo_backend.Pricing.Unique.{
  IsUnambiguous, after_tariff_calls, calls-IsUnambiguous, tariff_created, tariff_deactivated,
}
use kilo_backend.Pricing.Cache
use kilo_backend.Pricing.Tariffs
use kilo_backend.Pricing.Admin

-- 500.00 and 120.00 a kilometre and 30.00 a minute, at least 800.00.
abbrev economy : Tariff
economy = record {
  vehicle_type = 1;
  service_area = none;
  service_type = none;
  base_fare = of_kobo 50000;
  per_km_rate = of_kobo 12000;
  per_minute_rate = of_kobo 3000;
  minimum_fare = of_kobo 80000;
  cancellation_fee = of_kobo 50000;
  sort_order = pos 0;
  duration_multiplier = of_kobo 100;
  is_active = true;
}

abbrev lagos_rides : Tariff
lagos_rides = record economy { service_area = some 7; service_type = some ride }

abbrev opening : PricingStore
opening = record { tariffs = []; rules = []; tariffs_cache = none; rules_cache = none }

abbrev kilometres : Decimal
kilometres = record { mantissa = 125; scale = 1 }

abbrev minutes : Decimal
minutes = of_kobo 2000

abbrev vat : Decimal
vat = record { mantissa = 75; scale = 3 }

breakdown_sample :
    build_fare_breakdown vat (of_kobo 260000) (of_kobo 60000)
    ≡ record { subtotal = 260000; promo_discount = 60000; tax = 15000; total = 215000 }
unfolding build_fare_breakdown to_kobo
breakdown_sample = refl

build_fare_breakdown-Adds_example :
    Adds
      (build_fare_breakdown vat (of_kobo 260000) (of_kobo 60000))
      vat
      (of_kobo 260000)
      (of_kobo 60000)
build_fare_breakdown-Adds_example = build_fare_breakdown-Adds vat (of_kobo 260000) (of_kobo 60000)

calculate_fare_bounds_example :
    (80000 ≤ (calculate_fare economy kilometres minutes).mantissa)
    × ((calculate_fare economy kilometres minutes).mantissa
        ≤ (calculate_fare economy minutes minutes).mantissa)
unfolding calculate_fare to_kobo
calculate_fare_bounds_example =
    calculate_fare_bounds economy kilometres minutes minutes minutes (ground arith) (ground arith)

resolve_tariff-Resolved_example :
    Chosen (economy ∷ lagos_rides ∷ []) 1 (some 7) (some ride) lagos_rides
unfolding resolve_tariff is_candidate score TariffServiceType-discrete ℕ_discrete
resolve_tariff-Resolved_example =
    resolve_tariff-Resolved (economy ∷ lagos_rides ∷ []) 1 (some 7) (some ride)

-- The second tariff is seen although the first one was cached before it was made.
get_active_tariff_current_example :
    (Tariffs.get_active_tariff 1 (some 7) (some ride) (
      serve_all
        (Cache.create_tariff 1 economy
          ∷ Cache.get_active_tariff 1 (some 7) (some ride)
          ∷ Cache.create_tariff 2 lagos_rides
          ∷ [])
        opening)).0
    ≡ ok lagos_rides
unfolding serve_all serve resolve_tariff is_candidate score TariffServiceType-discrete ℕ_discrete
    Admin.create_tariff Admin.clashes Admin.invalidate_tariff_cache Tariffs.get_active_tariff
    Tariffs.get_active_tariffs
get_active_tariff_current_example =
    get_active_tariff_current
      (Cache.create_tariff 1 economy
        ∷ Cache.get_active_tariff 1 (some 7) (some ride)
        ∷ Cache.create_tariff 2 lagos_rides
        ∷ [])
      opening 1 (some 7) (some ride) (record { tariffs_fresh = tt; rules_fresh = tt })

opening-IsUnambiguous : IsUnambiguous opening.tariffs
unfolding IsUnambiguous
opening-IsUnambiguous i j a b at _ _ _ = absurd (ground (arith, at))

-- Created, refused as a second one, deactivated, and created again.
calls-IsUnambiguous_example :
    IsUnambiguous
      (after_tariff_calls
        (tariff_created 1 economy
          ∷ tariff_created 2 economy
          ∷ tariff_deactivated 1
          ∷ tariff_created 3 economy
          ∷ [])
        opening).tariffs
calls-IsUnambiguous_example =
    calls-IsUnambiguous
      (tariff_created 1 economy
        ∷ tariff_created 2 economy
        ∷ tariff_deactivated 1
        ∷ tariff_created 3 economy
        ∷ [])
      opening opening-IsUnambiguous
