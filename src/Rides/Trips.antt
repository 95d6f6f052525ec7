-- ===== src/Rides/Trips.antt =====
-- TripService (src/rides/trip.service.ts) and `setDriverStatus` of DispatchService
-- (src/rides/dispatch.service.ts). Positions, addresses, time stamps, messages and the receipt's mail are
-- left out. The fare of a ride is set when it is booked, and its tax is part of the fare.
use kilo_backend.Prelude.{Bool, Option, false, holds, none, not, some, ℕ, ◌+◌, ◌-◌, ◌==◌, ◌||◌}
use kilo_backend.Prelude.Action.{
  Action, bad_request, forbidden, gets, modify, not_found, or_throw, pure, row_missing, throw_if,
  ◌>>=◌, ◌>>◌,
}
use kilo_backend.Prelude.Decimal.{mul, of_kobo, to_kobo}
use kilo_backend.Prelude.Int.{pos}
use kilo_backend.Prelude.Table.{find, number_key, put}
use kilo_backend.Pricing.Admin.{given}
use kilo_backend.Pricing.Tariffs.{CommissionRule, get_active_commission_rate, or_else}
use kilo_backend.Rides.Store.{
  Ride, RidePaymentMethod, RideStatus, Rides, accepted, arrived, business_invoice, cash,
  in_progress, on_ledger, on_pricing, ride_completed, wallet,
}
use kilo_backend.Wallet.Ledger.{
  Books, DriverAvailability, DriverServiceMode, DriverStatus, Reference, commission_of, for_ride,
  online, rides,
}
use kilo_backend.Wallet.Service.{pay_for_ride, record_cash_ride_commission}

abbrev pub is_driven_by : ℕ → Option ℕ → Bool
is_driven_by driver none = false
is_driven_by driver (some d) = d == driver

unfoldable pub RideStatus-discrete : Discrete RideStatus
RideStatus-discrete = hlevel

abbrev pub has_status : RideStatus → Ride → Bool
has_status status r = holds (RideStatus-discrete r.status status)

-- `ride.update` of a row that is there
unfoldable pub update_ride : ℕ → (Ride → Ride) → Action Rides Ride
update_ride id f = do
  found ← gets (λ s. find id s.ride_rows)
  r ← or_throw row_missing found
  modify (λ s. record s { ride_rows = put id (f r) s.ride_rows })
  pure (f r)

-- The ride, where this driver drives it and it has this status.
unfoldable pub driven_ride : ℕ → ℕ → RideStatus → Action Rides Ride
driven_ride driver id status = do
  found ← gets (λ s. find id s.ride_rows)
  r ← or_throw not_found found
  throw_if (not (is_driven_by driver r.driver)) forbidden
  throw_if (not (has_status status r)) bad_request
  pure r

abbrev pub with_status : RideStatus → Ride → Ride
with_status status r = record r { status = status }

unfoldable pub transition_as_driver : ℕ → ℕ → RideStatus → RideStatus → Action Rides Ride
unfolding driven_ride update_ride
transition_as_driver driver id from to = do
  driven_ride driver id from
  update_ride id (with_status to)

unfoldable pub mark_arrived : ℕ → ℕ → Action Rides Ride
unfolding transition_as_driver
mark_arrived driver id = transition_as_driver driver id accepted arrived

unfoldable pub start_trip : ℕ → ℕ → Action Rides Ride
unfolding transition_as_driver
start_trip driver id = transition_as_driver driver id arrived in_progress

-- `driverStatus.upsert`: a column that is not given stays as it is
abbrev pub available :
    DriverAvailability → Option ℕ → Option DriverServiceMode → Option DriverStatus → DriverStatus
available a vehicle mode none = record {
  availability = a;
  service_mode = given mode rides;
  vehicle_type = vehicle;
  unsettled_cash_ride_count = 0;
}
available a vehicle mode (some d) = record d {
  availability = a;
  vehicle_type = or_else vehicle d.vehicle_type;
  service_mode = given mode d.service_mode;
}

unfoldable pub set_driver_status :
    ℕ → DriverAvailability → Option ℕ → Option DriverServiceMode → Action Books (Unit {0})
set_driver_status driver a vehicle mode = modify (λ s. record s {
  drivers = put driver (available a vehicle mode (find driver s.drivers)) s.drivers;
})

-- `taxAmount ?? 0`
abbrev pub tax_of : Ride → ℕ
tax_of r = elim r.tax_amount [ none ↦ 0 | some t ↦ t ]

-- The platform's cut of the fare without its tax.
unfoldable pub commission_of_fare : Ride → CommissionRule → ℕ
commission_of_fare r rule = to_kobo (mul (of_kobo (r.estimated_fare - tax_of r)) rule.rate)

unfoldable pub record_cash : ℕ → ℕ → ℕ → ℕ → Action Books (Option Reference)
record_cash id driver commission tax = do
  record_cash_ride_commission driver (pos (commission + tax)) (commission_of (for_ride id))
  pure none

unfoldable pub settle_trip : RidePaymentMethod → ℕ → ℕ → Ride → ℕ → Action Books (Option Reference)
unfolding record_cash
settle_trip wallet id driver r commission = do
  tx ←
      pay_for_ride r.rider driver (pos r.estimated_fare) (pos commission) (for_ride id)
        (pos (tax_of r))
  pure (some tx.0)
settle_trip cash id driver r commission = record_cash id driver commission (tax_of r)
settle_trip business_invoice id driver r commission = record_cash id driver commission (tax_of r)

-- The row of a completed ride; `transactionId: undefined` leaves the column as it is.
abbrev pub complete_with_fare : ℕ → Option Reference → Ride → Ride
complete_with_fare commission tx r = record r {
  status = ride_completed;
  final_fare = some r.estimated_fare;
  commission_amount = some commission;
  transaction_id = or_else tx r.transaction_id;
}

-- The service type 'RIDE' of commission rules.
abbrev pub ride_service : ℕ
ride_service = 0

unfoldable pub complete_trip : ℕ → ℕ → Action Rides Ride
unfolding driven_ride settle_trip update_ride commission_of_fare
complete_trip driver id = do
  r ← driven_ride driver id in_progress
  rule ← on_pricing (get_active_commission_rate ride_service (some r.vehicle_type))
  tx ← on_ledger (settle_trip r.payment_method id driver r (commission_of_fare r rule))
  done ← update_ride id (complete_with_fare (commission_of_fare r rule) tx)
  on_ledger (set_driver_status driver online none none)
  pure done

-- The guards of `getReceipt`; what it shows is the ride.
unfoldable pub get_receipt : ℕ → ℕ → Action Rides Ride
get_receipt user id = do
  found ← gets (λ s. find id s.ride_rows)
  r ← or_throw not_found found
  throw_if (not ((r.rider == user) || is_driven_by user r.driver)) forbidden
  throw_if (not (has_status ride_completed r)) bad_request
  pure r
