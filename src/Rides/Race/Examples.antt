-- ===== src/Rides/Race/Examples.antt =====
-- Two drivers that accept one ride (src/rides/dispatch.service.ts), on small tables.
use kilo_backend.Prelude.{[], arith, none, refl, some, ℕ, ℕ_discrete, ◌+◌, ◌∷◌, ◌≡◌}
use kilo_backend.Prelude.Action.{bad_request, err}
use kilo_backend.Prelude.Decimal.{mul, of_kobo, to_kobo}
use kilo_backend.Prelude.Table.{find, number_key, put}
use kilo_backend.Rides.Cancellation.{cancel, close_ride, free_driver, minus, take_fee}
use kilo_backend.Rides.Cancelled.{Cancelled, cancel_once}
use kilo_backend.Rides.Dispatch.{
  claim_ride, expire_round_if_unresolved, find_nearby_drivers, insert_offers, is_eligible,
  set_offer,
}
use kilo_backend.Rides.Eligible.{FairRound, find_nearby_drivers-FairRound}
use kilo_backend.Rides.Race.{
  IsFairRace, Reach, System, claim_lost, claim_won, closed, followed_by, holder, offered, started,
  took,
}
use kilo_backend.Rides.Race.Calls.{after_call_reached}
use kilo_backend.Rides.Race.Sequences.{accept_offer_call, after_call}
use kilo_backend.Rides.Race.Winner.{accepted_once}
use kilo_backend.Rides.Rounds.{RoundOver, expire_round-RoundOver}
use kilo_backend.Rides.Store.{
  Pair-discrete, Ride, cancelled, cash, dispatching, offer_accepted, offer_expired, pair_key,
  wallet,
}
use kilo_backend.Rides.Trips.{RideStatus-discrete, update_ride}
use kilo_backend.Wallet.History.{seeded}
use kilo_backend.Wallet.Ledger.{Books, DriverAvailability, DriverStatus, on_trip, online, rides}

-- Ride 7 looks for a driver.
abbrev one_ride : System
one_ride = record {
  won = [];
  store = record {
    books = seeded;
    pricing = record { tariffs = []; rules = []; tariffs_cache = none; rules_cache = none };
    promos = record { promos = []; redemptions = [] };
    offers = [];
    ratings = [];
    ride_rows =
        (
          7,
          record {
            rider = 1;
            driver = none;
            status = dispatching;
            vehicle_type = 3;
            payment_method = wallet;
            service_area = none;
            subtotal_fare = 20000;
            promo_discount = 0;
            estimated_fare = 21500;
            tax_amount = some 1500;
            final_fare = none;
            commission_amount = none;
            transaction_id = none;
            cancelled_by = none;
            cancellation_fee = none;
          },
        )
        ∷ [];
  };
}

one_ride-IsFairRace : IsFairRace one_ride
one_ride-IsFairRace = record {
  winner = λ i d h. absurd (ground (arith, h));
  accepted_won = λ i d h. absurd (ground (arith, h));
}

abbrev offers_made : System
offers_made = record one_ride { store = (insert_offers 7 15000 (2 ∷ 3 ∷ []) one_ride.store).1 }

abbrev first_claim : System
first_claim = record {
  store = (claim_ride 2 7 offers_made.store).1;
  won = put (7, 2) tt offers_made.won;
}

abbrev second_claim : System
second_claim = record first_claim { store = (claim_ride 3 7 first_claim.store).1 }

-- Driver 2 claims the ride, driver 3 finds it claimed, and then both offers are closed.
abbrev both_done : System
both_done =
    let s : System = record second_claim {
      store = (set_offer 7 3 offer_expired second_claim.store).1;
    } in
    record s { store = (set_offer 7 2 offer_accepted s.store).1 }

both_done-Reach : Reach one_ride both_done
unfolding claim_ride Pair-discrete ℕ_discrete RideStatus-discrete
both_done-Reach =
    followed_by
      (followed_by
        (followed_by
          (followed_by (followed_by started (offered 7 15000 (2 ∷ 3 ∷ []))) (claim_won 2 7 refl))
          (claim_lost 3 7 refl))
        (closed 3 7 offer_expired (λ e. ground (arith, e))))
      (took 2 7 refl)

accepted_once_example : (holder (find 7 both_done.store.ride_rows) ≡ some 2) × (◌≡◌ {A = ℕ} 2 2)
unfolding claim_ride Pair-discrete ℕ_discrete RideStatus-discrete
accepted_once_example = accepted_once 7 2 2 one_ride-IsFairRace both_done-Reach refl refl

abbrev standing : DriverAvailability → ℕ → DriverStatus
standing availability count = record {
  availability = availability;
  vehicle_type = none;
  service_mode = rides;
  unsettled_cash_ride_count = count;
}

-- Driver 2 may serve, driver 3 has too many unsettled cash rides, and driver 9 is on a trip.
abbrev three_drivers : Books
three_drivers = record seeded {
  drivers = (2, standing online 0) ∷ (3, standing online 3) ∷ (9, standing on_trip 0) ∷ [];
}

find_nearby_drivers-FairRound_example : FairRound (9 ∷ 3 ∷ 2 ∷ []) 3 5 cash 3 three_drivers (2 ∷ [])
unfolding find_nearby_drivers is_eligible ℕ_discrete
find_nearby_drivers-FairRound_example =
    find_nearby_drivers-FairRound (9 ∷ 3 ∷ 2 ∷ []) 3 5 cash 3 three_drivers

after_call_reached_example :
    (y : System) × Reach offers_made y
    × (y.store ≡ after_call (accept_offer_call 10 3 2 7) offers_made.store)
after_call_reached_example = after_call_reached (accept_offer_call 10 3 2 7) offers_made

-- The rider leaves while the ride is offered to two drivers.
abbrev left_early : Ride
left_early = record {
  rider = 1;
  driver = none;
  status = cancelled;
  vehicle_type = 3;
  payment_method = wallet;
  service_area = none;
  subtotal_fare = 20000;
  promo_discount = 0;
  estimated_fare = 21500;
  tax_amount = some 1500;
  final_fare = none;
  commission_amount = none;
  transaction_id = none;
  cancelled_by = some 1;
  cancellation_fee = some 0;
}

cancel_once_example :
    Cancelled 1 7 left_early offers_made.store (cancel 1 7 offers_made.store).1
    × (cancel 1 7 (cancel 1 7 offers_made.store).1
        ≡ (err bad_request, (cancel 1 7 offers_made.store).1))
unfolding cancel take_fee close_ride free_driver update_ride RideStatus-discrete ℕ_discrete
    Pair-discrete
cancel_once_example = cancel_once 1 7 offers_made.store refl

-- Of a fee of 500.05 at a rate of 0.10, the driver and the platform get 500.06 together.
fee_rounding_sample :
    to_kobo (minus (of_kobo 50005) (mul (of_kobo 50005) (of_kobo 10)))
      + to_kobo (mul (of_kobo 50005) (of_kobo 10))
    ≡ 50006
unfolding to_kobo
fee_rounding_sample = refl

expire_round-RoundOver_example :
    RoundOver 7 one_ride.store (expire_round_if_unresolved 7 one_ride.store).1
expire_round-RoundOver_example = expire_round-RoundOver 7 one_ride.store
