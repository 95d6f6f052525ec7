-- ===== src/Rides/Cancellation.antt =====
-- `cancel` of CancellationService (src/rides/cancellation.service.ts). The commission on the fee is
-- not rounded there, so the entries balance as decimals and the money columns round each of them.
use kilo_backend.Prelude.{
  Bool, Option, [], false, if◌then◌else◌, none, not, some, true, ℕ, ◌&&◌, ◌+◌, ◌-◌, ◌==◌, ◌||◌, ◌∷◌,
}
use kilo_backend.Prelude.Action.{
  Action, bad_request, forbidden, gets, not_found, or_throw, pure, skip, throw_if, transaction,
  ◌>>=◌, ◌>>◌,
}
use kilo_backend.Prelude.Decimal.{Decimal, at_scale, mul, to_kobo}
use kilo_backend.Prelude.Int.{pos}
use kilo_backend.Prelude.Table.{find, number_key}
use kilo_backend.Pricing.Tariffs.{
  CommissionRule, get_active_commission_rate, get_active_tariff, ride,
}
use kilo_backend.Rides.Dispatch.{expire_pending}
use kilo_backend.Rides.Store.{
  Ride, RideStatus, Rides, accepted, arrived, cancelled, dispatching, no_drivers_found, on_ledger,
  on_pricing, requested,
}
use kilo_backend.Rides.Trips.{
  has_status, is_driven_by, ride_service, set_driver_status, update_ride,
}
use kilo_backend.Wallet.Ledger.{
  Books, Reference, Transaction, account_key, cancellation_of, credit, debit, driver_wallet,
  for_ride, online, platform_revenue, reference_key, ride_payment_wallet, rider_wallet,
}
use kilo_backend.Wallet.Posting.{PostTransactionParams, create_transaction, post_all}
use kilo_backend.Wallet.Service.{entry, get_or_create_user_account, get_platform_account, params}

-- `post_transaction` for entries that balance before they are rounded.
unfoldable pub post_unless_known :
    PostTransactionParams → Option Transaction → Action Books (Reference × Transaction)
post_unless_known p (some t) = pure (p.reference, t)
post_unless_known p none = do after ← post_all p.entries []; create_transaction p after

unfoldable pub post_rounded : PostTransactionParams → Action Books (Reference × Transaction)
unfolding post_unless_known
post_rounded p =
    transaction
      (do existing ← gets (λ s. find p.reference s.transactions); post_unless_known p existing)

abbrev pub minus : Decimal → Decimal → Decimal
minus a b = record { mantissa = at_scale a b.scale - at_scale b a.scale; scale = a.scale + b.scale }

-- `tariff.cancellationFee.mul(commissionRule.rate)`
abbrev pub fee_commission : Decimal → CommissionRule → Decimal
fee_commission fee rule = mul fee rule.rate

-- `payForRide` of a cancellation fee.
unfoldable pub pay_fee : ℕ → ℕ → Decimal → Decimal → ℕ → Action Books (Reference × Transaction)
unfolding post_rounded
pay_fee rider driver fee commission id = do
  payer ← get_or_create_user_account rider rider_wallet
  payee ← get_or_create_user_account driver driver_wallet
  revenue ← get_platform_account platform_revenue
  post_rounded (
      params ride_payment_wallet (cancellation_of (for_ride id)) (pos (to_kobo fee)) (
        entry payer.0 debit (pos (to_kobo fee))
        ∷ entry payee.0 credit (pos (to_kobo (minus fee commission)))
        ∷ entry revenue.0 credit (pos (to_kobo commission))
        ∷ []))

abbrev pub is_participant : ℕ → Ride → Bool
is_participant user r = (r.rider == user) || is_driven_by user r.driver

-- `cancellableStatuses.includes(ride.status)`
abbrev pub is_cancellable : RideStatus → Bool
is_cancellable requested = true
is_cancellable dispatching = true
is_cancellable no_drivers_found = true
is_cancellable accepted = true
is_cancellable arrived = true
is_cancellable _ = false

abbrev pub is_committed : RideStatus → Bool
is_committed accepted = true
is_committed arrived = true
is_committed _ = false

unfoldable pub charge_fee : ℕ → ℕ → Ride → Action Rides ℕ
unfolding pay_fee
charge_fee driver id r = do
  tariff ← on_pricing (get_active_tariff r.vehicle_type r.service_area (some ride))
  rule ← on_pricing (get_active_commission_rate ride_service (some r.vehicle_type))
  on_ledger (
      pay_fee r.rider driver tariff.cancellation_fee (fee_commission tariff.cancellation_fee rule)
        id)
  pure (to_kobo tariff.cancellation_fee)

-- The fee: a rider pays it to a driver that has committed to the ride.
unfoldable pub take_fee : ℕ → ℕ → Ride → Option ℕ → Action Rides ℕ
unfolding charge_fee
take_fee user id r none = pure 0
take_fee user id r (some driver) =
    if is_committed r.status && (r.rider == user) then charge_fee driver id r else pure 0

abbrev pub void_offers : ℕ → Ride → Action Rides (Unit {0})
void_offers id r = if has_status dispatching r then expire_pending id else skip

unfoldable pub free_driver : Option ℕ → Action Rides (Unit {0})
free_driver none = skip
free_driver (some d) = on_ledger (set_driver_status d online none none)

abbrev pub cancelled_ride : ℕ → ℕ → Ride → Ride
cancelled_ride user fee r = record r {
  status = cancelled;
  cancelled_by = some user;
  cancellation_fee = some fee;
}

unfoldable pub close_ride : ℕ → ℕ → Ride → ℕ → Action Rides Ride
unfolding free_driver
close_ride user id r fee = do
  void_offers id r
  free_driver r.driver
  update_ride id (cancelled_ride user fee)

unfoldable pub cancel : ℕ → ℕ → Action Rides Ride
unfolding take_fee close_ride
cancel user id = do
  found ← gets (λ s. find id s.ride_rows)
  r ← or_throw not_found found
  throw_if (not (is_participant user r)) forbidden
  throw_if (not (is_cancellable r.status)) bad_request
  fee ← take_fee user id r r.driver
  close_ride user id r fee
