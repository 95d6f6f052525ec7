-- ===== src/Rides/Examples.antt =====
-- A trip on small tables, and the theorem at an input that meets its hypothesis.
use kilo_backend.Prelude.{[], arith, none, refl, some, true, ℕ_discrete, ◌∷◌, ◌≡◌}
use kilo_backend.Prelude.Action.{Result, bad_request, err}
use kilo_backend.Prelude.Decimal.{of_kobo, to_kobo}
use kilo_backend.Prelude.Int.{pos, ◌+ℤ◌, ◌-ℤ◌}
use kilo_backend.Prelude.Table.{number_key}
use kilo_backend.Pricing.Tariffs.{
  CommissionRule, get_active_commission_rate, get_active_commission_rules, resolve_rule,
}
use kilo_backend.Rides.Cancellation.{fee_commission, pay_fee, post_rounded, post_unless_known}
use kilo_backend.Rides.FeePaid.{FeePaid, pay_fee_shares}
use kilo_backend.Rides.Once.{TripDone, complete_trip_once}
use kilo_backend.Rides.Store.{Ride, Rides, in_progress, ride_completed, wallet}
use kilo_backend.Rides.Trips.{
  RideStatus-discrete, commission_of_fare, complete_trip, driven_ride, ride_service,
  set_driver_status, settle_trip, update_ride,
}
use kilo_backend.Wallet.History.{seeded}
use kilo_backend.Wallet.Ledger.{
  AccountId-discrete, AccountType-discrete, Books, Reference, Reference-discrete, Transaction,
  account_key, balance_of, driver_wallet, for_ride, owned, reference_key, rider_wallet,
}
use kilo_backend.Wallet.Posting.{
  collides, create_transaction, new_transaction, post_all, post_entry, post_new, post_transaction,
  post_transaction_entries, sum_amounts,
}
use kilo_backend.Wallet.Service

-- Rider 1 has 500.00; the commission of rides is 18 %.
abbrev before_trip : Rides
before_trip = record {
  books = record seeded { accounts = (owned 1 rider_wallet, pos 50000) ∷ seeded.accounts };
  pricing = record {
    tariffs = [];
    rules =
        (
          1,
          record {
            service_type = ride_service;
            vehicle_type = none;
            rate = of_kobo 18;
            is_active = true;
          },
        )
        ∷ [];
    tariffs_cache = none;
    rules_cache = none;
  };
  promos = record { promos = []; redemptions = [] };
  offers = [];
  ratings = [];
  ride_rows =
      (
        7,
        record {
          rider = 1;
          driver = some 2;
          status = in_progress;
          vehicle_type = 3;
          payment_method = wallet;
          service_area = none;
          subtotal_fare = 20000;
          promo_discount = 0;
          estimated_fare = 21500;
          tax_amount = some 1500;
          final_fare = none;
          commission_amount = none;
          transaction_id = none;
          cancelled_by = none;
          cancellation_fee = none;
        },
      )
      ∷ [];
}

abbrev after_trip : Rides
after_trip = (complete_trip 2 7 before_trip).1

abbrev trip_row : Ride
trip_row = record {
  rider = 1;
  driver = some 2;
  status = ride_completed;
  vehicle_type = 3;
  payment_method = wallet;
  service_area = none;
  subtotal_fare = 20000;
  promo_discount = 0;
  estimated_fare = 21500;
  tax_amount = some 1500;
  final_fare = some 21500;
  commission_amount = some 3600;
  transaction_id = some (for_ride 7);
  cancelled_by = none;
  cancellation_fee = none;
}

-- Unfolding this opens what a trip calls.
unfoldable opened_trips : Unit {0}
unfolding complete_trip driven_ride RideStatus-discrete settle_trip update_ride commission_of_fare
    to_kobo set_driver_status get_active_commission_rate get_active_commission_rules resolve_rule
    Service.pay_for_ride Service.pay_fare Service.get_or_create_user_account
    Service.get_platform_account Service.tax_entries post_transaction post_transaction_entries
    post_new post_all post_entry create_transaction new_transaction sum_amounts collides
    AccountId-discrete AccountType-discrete Reference-discrete ℕ_discrete ◌+ℤ◌ ◌-ℤ◌
opened_trips = tt

complete_trip_once_example :
    TripDone 2 7 trip_row before_trip after_trip
    × (complete_trip 2 7 after_trip ≡ (err bad_request, after_trip))
unfolding opened_trips
complete_trip_once_example = complete_trip_once 2 7 before_trip refl

-- The driver has the fare less 36.00 of commission and 15.00 of tax.
trip_sample : balance_of (owned 2 driver_wallet) after_trip.books.accounts ≡ pos 16400
unfolding opened_trips
trip_sample = refl

-- A tenth of a fee is the platform's.
abbrev tenth : CommissionRule
tenth = record { service_type = 0; vehicle_type = none; rate = of_kobo 10; is_active = true }

abbrev fee_taken : Result (Reference × Transaction) × Books
fee_taken = pay_fee 1 2 (of_kobo 30005) (fee_commission (of_kobo 30005) tenth) 9 before_trip.books

pay_fee_shares_example : FeePaid 1 2 30005 tenth before_trip.books fee_taken.1
unfolding opened_trips pay_fee post_rounded post_unless_known
pay_fee_shares_example = pay_fee_shares 1 2 30005 9 tenth before_trip.books (ground arith) refl refl

-- Of a fee of 300.05 the driver has 270.05, rounded up, and the platform 30.01.
fee_sample :
    (balance_of (owned 1 rider_wallet) fee_taken.1.accounts ≡ pos 19995)
    × (balance_of (owned 2 driver_wallet) fee_taken.1.accounts ≡ pos 27005)
unfolding opened_trips pay_fee post_rounded post_unless_known
fee_sample = (refl, refl)
