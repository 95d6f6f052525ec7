-- ===== src/Rides/Booking.antt =====
-- `createRide` and `rateRide` of RidesService (src/rides/rides.service.ts). Where the pickup lies, the
-- road distance with its duration, the tax rate and the id of the new row are arguments; the
-- dispatch that a booking starts is a call of its own.
use kilo_backend.Prelude.{Bool, Option, false, none, not, some, true, ℕ, ◌==◌}
use kilo_backend.Prelude.Action.{
  Action, bad_request, forbidden, gets, modify, not_found, or_throw, pure, skip, throw_if, ◌>>=◌,
  ◌>>◌,
}
use kilo_backend.Prelude.Decimal.{Decimal, of_kobo}
use kilo_backend.Prelude.Table.{find, number_key, put}
use kilo_backend.Pricing.Fares.{FareBreakdown, build_fare_breakdown, calculate_fare}
use kilo_backend.Pricing.Tariffs.{get_active_tariff, ride}
use kilo_backend.Promo.Codes.{Promos, for_rides, record_redemption, validate}
use kilo_backend.Rides.Store.{
  Ride, RidePaymentMethod, Rides, business_invoice, on_pricing, on_promos, requested,
  ride_completed,
}
use kilo_backend.Rides.Trips.{has_status}

pub record RideRequest : Type 0 where
  pub vehicle_type : ℕ
  pub payment_method : RidePaymentMethod
  pub promo_code : Option ℕ

abbrev pub is_invoice : RidePaymentMethod → Bool
is_invoice business_invoice = true
is_invoice _ = false

-- The discount of the code, where one is given.
unfoldable pub discount_for : ℕ → Decimal → ℕ → Option ℕ → Action Promos Decimal
unfolding validate
discount_for now subtotal rider none = pure (of_kobo 0)
discount_for now subtotal rider (some code) = validate now code for_rides subtotal rider

unfoldable pub redeem_for : ℕ → ℕ → Option ℕ → Action Promos (Unit {0})
unfolding record_redemption
redeem_for rider discount none = skip
redeem_for rider discount (some code) = record_redemption code rider for_rides (of_kobo discount)

abbrev pub booked_ride : ℕ → ℕ → RideRequest → FareBreakdown → Ride
booked_ride rider area dto fare = record {
  rider = rider;
  driver = none;
  status = requested;
  vehicle_type = dto.vehicle_type;
  payment_method = dto.payment_method;
  service_area = some area;
  subtotal_fare = fare.subtotal;
  promo_discount = fare.promo_discount;
  estimated_fare = fare.total;
  tax_amount = some fare.tax;
  final_fare = none;
  commission_amount = none;
  transaction_id = none;
  cancelled_by = none;
  cancellation_fee = none;
}

-- `ride.create`
abbrev pub insert_ride : ℕ → Ride → Action Rides (Unit {0})
insert_ride id r = modify (λ s. record s { ride_rows = put id r s.ride_rows })

unfoldable pub create_ride :
    ℕ → Decimal → Option ℕ → Decimal → Decimal → ℕ → ℕ → RideRequest → Action Rides Ride
unfolding discount_for redeem_for calculate_fare build_fare_breakdown
create_ride now rate place distance minutes rider id dto = do
  throw_if (is_invoice dto.payment_method) bad_request
  area ← or_throw bad_request place
  tariff ← on_pricing (get_active_tariff dto.vehicle_type (some area) (some ride))
  let subtotal = calculate_fare tariff distance minutes
  discount ← on_promos (discount_for now subtotal rider dto.promo_code)
  let fare = build_fare_breakdown rate subtotal discount
  insert_ride id (booked_ride rider area dto fare)
  on_promos (redeem_for rider fare.promo_discount dto.promo_code)
  pure (booked_ride rider area dto fare)

-- `rideRating.upsert` after the guards
unfoldable pub rate_ride : ℕ → ℕ → ℕ → Action Rides (Unit {0})
rate_ride rider id rating = do
  found ← gets (λ s. find id s.ride_rows)
  r ← or_throw not_found found
  throw_if (not (r.rider == rider)) forbidden
  throw_if (not (has_status ride_completed r)) bad_request
  modify (λ s. record s { ratings = put id rating s.ratings })
