-- ===== src/Rides/Once.antt =====
-- A trip is completed once (src/rides/trip.service.ts).
use kilo_backend.Prelude.{
  Option, ap, arith, false, holds, none, not, refl, some, sym, true, ℕ, ◌-◌, ◌≡◌, ◌≢◌,
}
use kilo_backend.Prelude.Action.{
  Action, Ensures, Ensures-bind, Ensures-ok, Ensures-or_throw, Ensures-throw_if, bad_request, err,
  forbidden, go_on, not_found, ok, or_throw, pure, ◌>>=◌, ◌>>◌,
}
use kilo_backend.Prelude.Decimal.{mul, of_kobo, to_kobo}
use kilo_backend.Prelude.Table.{find, find-put_ne, find-put_self, number_key, put}
use kilo_backend.Pricing.Tariffs.{CommissionRule, get_active_commission_rate, or_else}
use kilo_backend.Rides.Earned.{Earned, IsFreed, cash-Earned, paid-Earned}
use kilo_backend.Rides.Frame.{Ensures-on_ledger_with, Ensures-on_pricing_run, has_status_sound}
use kilo_backend.Rides.Store.{
  Ride, RidePaymentMethod, RideStatus, Rides, business_invoice, cash, in_progress, on_ledger,
  on_pricing, ride_completed, wallet,
}
use kilo_backend.Rides.Trips.{
  RideStatus-discrete, available, commission_of_fare, complete_trip, complete_with_fare,
  driven_ride, has_status, is_driven_by, record_cash, ride_service, set_driver_status, settle_trip,
  tax_of, update_ride,
}
use kilo_backend.Wallet.Ledger.{
  Books, DriverStatus, Reference, for_ride, online, ride_payment_cash, ride_payment_wallet,
}
use kilo_backend.Wallet.Service.{pay_for_ride, record_cash_ride_commission}
use mathlib.Core.Path.{subst}

pub record TripDone (driver id : ℕ) (r : Ride) (s s' : Rides) : Type 0 where
  pub before : Ride
  pub was_there : find id s.ride_rows ≡ some before
  pub was_in_progress : before.status ≡ in_progress
  pub was_driven : is_driven_by driver before.driver ≡ true
  pub completed_row : find id s'.ride_rows ≡ some r
  pub is_completed : r.status ≡ ride_completed
  pub same_fare : r.estimated_fare ≡ before.estimated_fare
  pub fare_kept : r.final_fare ≡ some before.estimated_fare
  pub still_driven : is_driven_by driver r.driver ≡ true
  pub others : (j : ℕ) → j ≢ id → find j s'.ride_rows ≡ find j s.ride_rows
  pub rule : CommissionRule
  pub rule_in_force :
      get_active_commission_rate ride_service (some before.vehicle_type) s.pricing
      ≡ (ok rule, s'.pricing)
  pub cut : ℕ
  pub cut_of_fare : cut ≡ to_kobo (mul (of_kobo (before.estimated_fare - tax_of before)) rule.rate)
  pub commission : r.commission_amount ≡ some cut
  pub paid :
      (tx : Option Reference) × (b : Books) × Earned before.payment_method before.rider driver
        before.estimated_fare cut
        (tax_of before)
        (for_ride id)
        s.books
        tx
        b
      × (r.transaction_id ≡ or_else tx before.transaction_id)
      × IsFreed driver b s'.books

Driven : ℕ → ℕ → RideStatus → Rides → Ride → Rides → Type 0
Driven driver id status s r u =
    (u ≡ s)
    × (find id s.ride_rows ≡ some r)
    × (has_status status r ≡ true)
    × (is_driven_by driver r.driver ≡ true)

driven_ride_lem :
    (driver id : ℕ) (status : RideStatus) (s : Rides)
    → Ensures (Driven driver id status s) (driven_ride driver id status s)
unfolding driven_ride Driven
driven_ride_lem driver id status s =
    Ensures-or_throw (Driven driver id status s) not_found (find id s.ride_rows) _ s (λ r e.
      Ensures-throw_if (Driven driver id status s) (not (is_driven_by driver r.driver)) forbidden _
        s
        (λ mine.
          Ensures-throw_if (Driven driver id status s) (not (has_status status r)) bad_request _ s
            (λ right. (refl, e, ground (arith, right), ground (arith, mine)))))

-- The settlement of a trip, by its way of payment.
settle_trip_lem :
    (m : RidePaymentMethod) (id driver : ℕ) (r : Ride) (cut : ℕ) (s : Books)
    → Ensures
        (Earned m r.rider driver r.estimated_fare cut (tax_of r) (for_ride id) s)
        (settle_trip m id driver r cut s)
unfolding settle_trip record_cash pay_for_ride record_cash_ride_commission
settle_trip_lem wallet id driver r cut s =
    paid-Earned ride_payment_wallet r.rider driver r.estimated_fare cut (tax_of r) (for_ride id) s
settle_trip_lem cash id driver r cut s =
    cash-Earned ride_payment_cash r.rider driver r.estimated_fare cut (tax_of r) (for_ride id) s
settle_trip_lem business_invoice id driver r cut s =
    cash-Earned ride_payment_cash r.rider driver r.estimated_fare cut (tax_of r) (for_ride id) s

online_now : (o : Option DriverStatus) → (available online none none o).availability ≡ online
online_now none = refl
online_now (some d) = refl

freed_run :
    (driver : ℕ) (b : Books)
    → Ensures (λ _ b'. IsFreed driver b b') (set_driver_status driver online none none b)
unfolding set_driver_status IsFreed
freed_run driver b = (
  refl,
  refl,
  available online none none (find driver b.drivers),
  find-put_self driver _ b.drivers,
  online_now (find driver b.drivers),
)

-- The rest of `completeTrip` once the driver and the status are right.
complete_rest : ℕ → ℕ → Ride → Action Rides Ride
complete_rest driver id r = do
  rule ← on_pricing (get_active_commission_rate ride_service (some r.vehicle_type))
  tx ← on_ledger (settle_trip r.payment_method id driver r (commission_of_fare r rule))
  done ← update_ride id (complete_with_fare (commission_of_fare r rule) tx)
  on_ledger (set_driver_status driver online none none)
  pure done

rest_lem :
    (driver id : ℕ) (r : Ride) (s : Rides)
    → find id s.ride_rows ≡ some r
    → r.status ≡ in_progress
    → is_driven_by driver r.driver ≡ true
    → Ensures (λ r' s'. TripDone driver id r' s s') (complete_rest driver id r s)
unfolding complete_rest update_ride commission_of_fare
rest_lem driver id r s at going mine =
    let Q : Ride → Rides → Type 0 = λ r' s'. TripDone driver id r' s s' in
    Ensures-on_pricing_run Q (get_active_commission_rate ride_service (some r.vehicle_type)) _ s
      (λ rule p in_force.
        let cut : ℕ = to_kobo (mul (of_kobo (r.estimated_fare - tax_of r)) rule.rate) in
        Ensures-on_ledger_with Q
          (Earned r.payment_method r.rider driver r.estimated_fare cut (tax_of r) (for_ride id)
            s.books)
          (settle_trip r.payment_method id driver r cut) _ (record s { pricing = p })
          (settle_trip_lem r.payment_method id driver r cut s.books)
          (λ tx b earned.
            let f : Ride → Ride = complete_with_fare cut tx in
            rw at (
              Ensures-on_ledger_with Q (λ _ b'. IsFreed driver b b')
                (set_driver_status driver online none none) (λ _. pure (f r))
                (record s { pricing = p; books = b; ride_rows = put id (f r) s.ride_rows })
                (freed_run driver b)
                (λ _ b' free. record {
                  before = r;
                  was_there = at;
                  was_in_progress = going;
                  was_driven = mine;
                  completed_row = find-put_self id (f r) s.ride_rows;
                  is_completed = refl;
                  same_fare = refl;
                  fare_kept = refl;
                  still_driven = mine;
                  others = λ j apart. find-put_ne j id (f r) s.ride_rows apart;
                  rule = rule;
                  rule_in_force = in_force;
                  cut = cut;
                  cut_of_fare = refl;
                  commission = refl;
                  paid = (tx, b, earned, refl, free);
                }))))

complete_trip_lem :
    (driver id : ℕ) (s : Rides)
    → Ensures (λ r s'. TripDone driver id r s s') (complete_trip driver id s)
unfolding complete_trip complete_rest Driven
complete_trip_lem driver id s =
    Ensures-bind (Driven driver id in_progress s) (λ r s'. TripDone driver id r s s')
      (driven_ride driver id in_progress) (complete_rest driver id) s
      (driven_ride_lem driver id in_progress s)
      (λ r u d.
        subst (λ w. Ensures (λ r' s'. TripDone driver id r' s s') (complete_rest driver id r w))
          (sym d.0) (rest_lem driver id r s d.1 (has_status_sound in_progress r d.2) d.3))

over_now : (r : Ride) → r.status ≡ ride_completed → has_status in_progress r ≡ false
unfolding RideStatus-discrete
over_now r e = ap (λ x. holds (RideStatus-discrete x in_progress)) e

refused :
    (driver id : ℕ) (r : Ride) (s : Rides)
    → find id s.ride_rows ≡ some r
    → is_driven_by driver r.driver ≡ true
    → r.status ≡ ride_completed
    → complete_trip driver id s ≡ (err bad_request, s)
unfolding complete_trip driven_ride
refused driver id r s found mine over = rw (found, or_throw, go_on, mine, over_now r over) refl

-- Where `completeTrip` returns: the ride was in progress and driven by this driver, it is completed now
-- at the fare of its booking, which has not changed, with the commission of the rule in force, and
-- no other ride has changed. If it is paid from the wallet, the row names the payment, which has
-- moved fare, commission and tax under a new reference, or no balance under a known one; else the
-- row's link stays as it was and the driver owes commission and tax, again only under a new
-- reference. The driver is online, and completing it again is a bad request that changes nothing.
pub complete_trip_once :
    (driver id : ℕ) (s : Rides) {r : Ride} {s' : Rides}
    → complete_trip driver id s ≡ (ok r, s')
    → TripDone driver id r s s' × (complete_trip driver id s' ≡ (err bad_request, s'))
complete_trip_once driver id s {r} {s'} e =
    let done : TripDone driver id r s s' =
      Ensures-ok (λ x u. TripDone driver id x s u) (complete_trip_lem driver id s) e in
    (done, refused driver id r s' done.completed_row done.still_driven done.is_completed)
