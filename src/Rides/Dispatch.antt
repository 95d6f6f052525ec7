-- ===== src/Rides/Dispatch.antt =====
-- DispatchService (src/rides/dispatch.service.ts). What Redis finds near a pickup is a list of drivers,
-- nearest first; the messages to drivers and riders are left out, and the timer of a round is a call
-- of its own.
use kilo_backend.Prelude.{
  Bool, List, Option, [], false, holds, if◌then◌else◌, is_some, leb, ltb, none, not, some, suc,
  true, zero, ℕ, ◌&&◌, ◌+◌, ◌==◌, ◌||◌, ◌∷◌,
}
use kilo_backend.Prelude.Action.{
  Action, conflict, forbidden, gets, modify, not_found, ok, or_throw, row_missing, skip, throw,
  throw_if, unique_violation, ◌>>=◌, ◌>>◌,
}
use kilo_backend.Prelude.Lists.{keep, some_of}
use kilo_backend.Prelude.Table.{Table, find, number_key, put, same?, update_where}
use kilo_backend.Rides.Store.{
  Ride, RideOffer, RideOfferStatus, RidePaymentMethod, Rides, accepted, cash, dispatching,
  no_drivers_found, offer_accepted, offer_declined, offer_expired, offer_pending, on_ledger,
  pair_key, requested,
}
use kilo_backend.Rides.Trips.{has_status, set_driver_status, update_ride, with_status}
use kilo_backend.Wallet.Ledger.{
  Books, DriverAvailability, DriverServiceMode, DriverStatus, on_trip, online, rides,
}

abbrev pub is_pending_offer : RideOffer → Bool
is_pending_offer o = elim o.status [ offer_pending ↦ true | _ ↦ false ]

abbrev pub offer_with : RideOfferStatus → RideOffer → RideOffer
offer_with status o = record o { status = status }

-- `xs.slice(0, n)`
abbrev pub take {ℓ} : {A : Type ℓ} → ℕ → List A → List A
take zero xs = []
take (suc n) [] = []
take (suc n) (x ∷ xs) = x ∷ take n xs

abbrev pub max_candidates : ℕ
max_candidates = 5

abbrev pub is_cash : RidePaymentMethod → Bool
is_cash cash = true
is_cash _ = false

abbrev pub is_online : DriverAvailability → Bool
is_online online = true
is_online _ = false

abbrev pub is_rides : DriverServiceMode → Bool
is_rides rides = true
is_rides _ = false

-- `OR: [{ vehicleType }, { vehicleType: null }]`
abbrev pub may_serve : ℕ → Option ℕ → Bool
may_serve vehicle none = true
may_serve vehicle (some v) = v == vehicle

-- The test of the query for drivers that may have an offer.
unfoldable pub is_eligible : ℕ → RidePaymentMethod → ℕ → DriverStatus → Bool
is_eligible vehicle method cap d =
    is_online d.availability
    && is_rides d.service_mode
    && may_serve vehicle d.vehicle_type
    && (not (is_cash method) || ltb d.unsettled_cash_ride_count cap)

abbrev pub eligible_row : ℕ → RidePaymentMethod → ℕ → Option DriverStatus → Bool
eligible_row vehicle method cap none = false
eligible_row vehicle method cap (some d) = is_eligible vehicle method cap d

unfoldable pub find_nearby_drivers : List ℕ → ℕ → ℕ → RidePaymentMethod → ℕ → Books → List ℕ
unfolding is_eligible
find_nearby_drivers near vehicle limit method cap b =
    take limit (keep (λ id. eligible_row vehicle method cap (find id b.drivers)) near)

-- `ride.updateMany` on one ride that has one of the statuses
abbrev pub update_rides : ℕ → (Ride → Bool) → (Ride → Ride) → Action Rides (Unit {0})
update_rides id p f =
    modify
      (λ s. record s { ride_rows = update_where (λ k r. holds (same? id k) && p r) f s.ride_rows })

abbrev pub is_open : Ride → Bool
is_open r = elim r.status [ requested ↦ true | dispatching ↦ true | _ ↦ false ]

unfoldable pub resolve_no_drivers : ℕ → Action Rides (Unit {0})
resolve_no_drivers id = update_rides id is_open (with_status no_drivers_found)

abbrev pub add_offers : ℕ → ℕ → List ℕ → Table (ℕ × ℕ) RideOffer → Table (ℕ × ℕ) RideOffer
add_offers id expiry [] t = t
add_offers id expiry (d ∷ ds) t =
    add_offers id expiry ds (put (id, d) (record { status = offer_pending; expires_at = expiry }) t)

abbrev pub insert_offers : ℕ → ℕ → List ℕ → Action Rides (Unit {0})
insert_offers id expiry ds = modify (λ s. record s { offers = add_offers id expiry ds s.offers })

abbrev pub has_offer : ℕ → List ℕ → Table (ℕ × ℕ) RideOffer → Bool
has_offer id ds t = some_of (λ d. is_some (find (id, d) t)) ds

-- `rideOffer.createMany`, whose pairs of a ride and a driver are unique
abbrev pub create_offers : ℕ → ℕ → List ℕ → Action Rides (Unit {0})
create_offers id expiry ds = do
  taken ← gets (λ s. has_offer id ds s.offers)
  throw_if taken unique_violation
  insert_offers id expiry ds

abbrev pub offer_ttl : ℕ
offer_ttl = 15000

unfoldable pub offer_or_resolve : ℕ → ℕ → List ℕ → Action Rides (Unit {0})
unfolding resolve_no_drivers
offer_or_resolve id expiry [] = resolve_no_drivers id
offer_or_resolve id expiry (d ∷ ds) = create_offers id expiry (d ∷ ds)

-- The part of `startDispatch` for a ride that was only requested so far.
unfoldable pub dispatch_ride : ℕ → List ℕ → ℕ → ℕ → Ride → Action Rides (Unit {0})
unfolding update_ride find_nearby_drivers offer_or_resolve
dispatch_ride now near cap id r = do
  update_ride id (with_status dispatching)
  candidates ←
      gets
        (λ s. find_nearby_drivers near r.vehicle_type max_candidates r.payment_method cap s.books)
  offer_or_resolve id (now + offer_ttl) candidates

unfoldable pub dispatch_found : ℕ → List ℕ → ℕ → ℕ → Option Ride → Action Rides (Unit {0})
unfolding dispatch_ride
dispatch_found now near cap id none = skip
dispatch_found now near cap id (some r) =
    if has_status requested r then dispatch_ride now near cap id r else skip

unfoldable pub start_dispatch : ℕ → List ℕ → ℕ → ℕ → Action Rides (Unit {0})
unfolding dispatch_found
start_dispatch now near cap id = do
  found ← gets (λ s. find id s.ride_rows)
  dispatch_found now near cap id found

-- `rideOffer.update` of the offer to one driver
abbrev pub set_offer : ℕ → ℕ → RideOfferStatus → Action Rides (Unit {0})
set_offer id driver status = modify (λ s. record s {
  offers = update_where (λ k _. holds (same? (id, driver) k)) (offer_with status) s.offers;
})

-- `rideOffer.updateMany` on the pending offers of a ride, to all drivers but one
abbrev pub expire_others : ℕ → ℕ → Action Rides (Unit {0})
expire_others id driver = modify (λ s. record s {
  offers =
      update_where (λ k o. (k.0 == id) && not (k.1 == driver) && is_pending_offer o)
        (offer_with offer_expired) s.offers;
})

abbrev pub expire_pending : ℕ → Action Rides (Unit {0})
expire_pending id = modify (λ s. record s {
  offers =
      update_where (λ k o. (k.0 == id) && is_pending_offer o) (offer_with offer_expired) s.offers;
})

abbrev pub unclaimed : Ride → Bool
unclaimed r = has_status dispatching r && not (is_some r.driver)

abbrev pub claimed_by : ℕ → Ride → Ride
claimed_by driver r = record r { status = accepted; driver = some driver }

abbrev pub can_claim : Option Ride → Bool
can_claim none = false
can_claim (some r) = unclaimed r

-- The guarded `ride.updateMany` of `acceptOffer`: whether it has changed a row.
unfoldable pub claim_ride : ℕ → ℕ → Action Rides Bool
claim_ride driver id s = (
  ok (can_claim (find id s.ride_rows)),
  record s {
    ride_rows =
        update_where (λ k r. holds (same? id k) && unclaimed r) (claimed_by driver) s.ride_rows;
  },
)

abbrev pub cash_count : Option DriverStatus → ℕ
cash_count none = 0
cash_count (some d) = d.unsettled_cash_ride_count

abbrev pub is_capped : ℕ → ℕ → Ride → Books → Bool
is_capped cap driver r b = is_cash r.payment_method && leb cap (cash_count (find driver b.drivers))

-- What `acceptOffer` writes once the ride is claimed, and where it is not.
unfoldable pub finish_accept : ℕ → ℕ → Action Rides Ride
finish_accept driver id = do
  set_offer id driver offer_accepted
  expire_others id driver
  on_ledger (set_driver_status driver on_trip none none)
  found ← gets (λ s. find id s.ride_rows)
  or_throw row_missing found

unfoldable pub lose_offer : ℕ → ℕ → Action Rides Ride
lose_offer driver id = do set_offer id driver offer_expired; throw conflict

unfoldable pub after_claim : ℕ → ℕ → Bool → Action Rides Ride
unfolding finish_accept lose_offer
after_claim driver id true = finish_accept driver id
after_claim driver id false = lose_offer driver id

unfoldable pub accept_offer : ℕ → ℕ → ℕ → ℕ → Action Rides Ride
unfolding claim_ride after_claim
accept_offer now cap driver id = do
  found ← gets (λ s. find (id, driver) s.offers)
  offer ← or_throw not_found found
  throw_if (not (is_pending_offer offer) || ltb offer.expires_at now) conflict
  row ← gets (λ s. find id s.ride_rows)
  preview ← or_throw row_missing row
  capped ← gets (λ s. is_capped cap driver preview s.books)
  throw_if capped forbidden
  got_it ← claim_ride driver id
  after_claim driver id got_it

-- Offers of the ride that are still pending.
abbrev pub some_pending : ℕ → Table (ℕ × ℕ) RideOffer → Bool
some_pending id t = some_of (λ x. (x.0.0 == id) && is_pending_offer x.1) t

abbrev pub is_dispatching : Option Ride → Bool
is_dispatching none = false
is_dispatching (some r) = has_status dispatching r

unfoldable pub resolve_if_all_resolved : ℕ → Action Rides (Unit {0})
unfolding resolve_no_drivers
resolve_if_all_resolved id = do
  found ← gets (λ s. find id s.ride_rows)
  waiting ← gets (λ s. some_pending id s.offers)
  if is_dispatching found && not waiting then resolve_no_drivers id else skip

unfoldable pub decline_pending : ℕ → ℕ → Action Rides (Unit {0})
unfolding resolve_if_all_resolved
decline_pending driver id = do set_offer id driver offer_declined; resolve_if_all_resolved id

unfoldable pub decline_offer : ℕ → ℕ → Action Rides (Unit {0})
unfolding decline_pending
decline_offer driver id = do
  found ← gets (λ s. find (id, driver) s.offers)
  offer ← or_throw not_found found
  if is_pending_offer offer then decline_pending driver id else skip

unfoldable pub expire_round : ℕ → Action Rides (Unit {0})
unfolding resolve_no_drivers
expire_round id = do expire_pending id; resolve_no_drivers id

-- What the timer of a round calls.
unfoldable pub expire_round_if_unresolved : ℕ → Action Rides (Unit {0})
unfolding expire_round
expire_round_if_unresolved id = do
  found ← gets (λ s. find id s.ride_rows)
  if is_dispatching found then expire_round id else skip
