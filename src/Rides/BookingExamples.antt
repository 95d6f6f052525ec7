-- ===== src/Rides/BookingExamples.antt =====
-- Rider 1 books a ride with promo code 9 (src/rides/rides.service.ts).
use kilo_backend.Prelude.{[], none, refl, some, true, ℕ_discrete, ◌∷◌}
use kilo_backend.Prelude.Decimal.{of_kobo, to_kobo}
use kilo_backend.Prelude.Int.{pos}
use kilo_backend.Prelude.Table.{number_key}
use kilo_backend.Pricing.Fares.{FareBreakdown}
use kilo_backend.Pricing.Tariffs.{get_active_tariff}
use kilo_backend.Promo.Codes.{PromoApplicableService-discrete, flat, for_rides}
use kilo_backend.Rides.Booked.{Booked, create_ride_books}
use kilo_backend.Rides.Booking.{RideRequest, booked_ride, create_ride}
use kilo_backend.Rides.Store.{Rides, cash}
use kilo_backend.Wallet.History.{seeded}

-- A kilometre costs 100.00, a minute 10.00; code 9 takes 50.00 off, once for each rider.
abbrev open_town : Rides
open_town = record {
  books = seeded;
  pricing = record {
    tariffs =
        (
          1,
          record {
            vehicle_type = 3;
            service_area = none;
            service_type = none;
            base_fare = of_kobo 50000;
            per_km_rate = of_kobo 10000;
            per_minute_rate = of_kobo 1000;
            minimum_fare = of_kobo 60000;
            cancellation_fee = of_kobo 30000;
            sort_order = pos 0;
            duration_multiplier = of_kobo 100;
            is_active = true;
          },
        )
        ∷ [];
    rules = [];
    tariffs_cache = none;
    rules_cache = none;
  };
  promos = record {
    promos =
        (
          9,
          record {
            type = flat;
            value = of_kobo 5000;
            max_discount = none;
            usage_limit_total = none;
            usage_limit_per_user = some 1;
            valid_from = 0;
            valid_until = 100;
            applicable_services = for_rides ∷ [];
            is_active = true;
          },
        )
        ∷ [];
    redemptions = [];
  };
  ride_rows = [];
  offers = [];
  ratings = [];
}

abbrev request : RideRequest
request = record { vehicle_type = 3; payment_method = cash; promo_code = some 9 }

-- 5 km in 12 minutes: 1120.00 less 50.00, and 7.5 % of tax.
abbrev town_fare : FareBreakdown
town_fare = record { subtotal = 112000; promo_discount = 5000; tax = 8025; total = 115025 }

abbrev after_booking : Rides
after_booking =
    (create_ride 50 (record { mantissa = 75; scale = 3 }) (some 4) (of_kobo 500) (of_kobo 1200) 1 8
      request open_town).1

create_ride_books_example :
    Booked 1 8 request
      (record { mantissa = 75; scale = 3 })
      (booked_ride 1 4 request town_fare)
      open_town
      after_booking
unfolding create_ride get_active_tariff ℕ_discrete PromoApplicableService-discrete to_kobo
create_ride_books_example =
    create_ride_books 50 (record { mantissa = 75; scale = 3 }) (some 4) (of_kobo 500) (of_kobo 1200)
      1 8 request open_town refl
