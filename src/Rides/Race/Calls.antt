-- ===== src/Rides/Race/Calls.antt =====
-- The methods of DispatchService (src/rides/dispatch.service.ts) as sequences of the statements.
use kilo_backend.Prelude.{
  Bool, List, Option, [], ap, arith, false, if◌then◌else◌, is_some, ltb, none, not, refl, some,
  true, ℕ, ◌&&◌, ◌+◌, ◌||◌, ◌∷◌, ◌≡◌,
}
use kilo_backend.Prelude.Action.{
  Action, Result, conflict, err, forbidden, gets, not_found, ok, or_throw, row_missing, skip,
  throw_if, unique_violation, ◌>>=◌, ◌>>◌,
}
use kilo_backend.Prelude.Table.{find, find-put_self, number_key, put}
use kilo_backend.Rides.Dispatch.{
  accept_offer, after_claim, can_claim, claim_ride, decline_offer, decline_pending, dispatch_found,
  dispatch_ride, expire_others, expire_pending, expire_round, expire_round_if_unresolved,
  find_nearby_drivers, finish_accept, has_offer, insert_offers, is_capped, is_dispatching, is_open,
  is_pending_offer, max_candidates, offer_or_resolve, offer_ttl, resolve_if_all_resolved,
  resolve_no_drivers, set_offer, some_pending, start_dispatch,
}
use kilo_backend.Rides.Race.{
  Reach, System, claim_lost, claim_won, closed, elsewhere, expired, expired_others, moved, offered,
  took, written,
}
use kilo_backend.Rides.Race.Sequences.{
  DispatchCall, Runs, Runs-if, Runs-or_throw, Runs-throw_if, Runs-read, accept_offer_call,
  after_call, after_step, decline_offer_call, expire_round_call, start_dispatch_call, stop,
}
use kilo_backend.Rides.Store.{
  Ride, RideOffer, Rides, dispatching, no_drivers_found, offer_accepted, offer_declined,
  offer_expired, on_ledger, pair_key, requested,
}
use kilo_backend.Rides.Trips.{has_status, set_driver_status, update_ride, with_status}
use kilo_backend.Wallet.Ledger.{on_trip}

finish-Runs :
    (driver id : ℕ) (x : System)
    → is_some (find (id, driver) x.won) ≡ true
    → Runs x (finish_accept driver id x.store)
unfolding finish_accept set_driver_status
finish-Runs driver id x mine =
    let taken : System = record x { store = (set_offer id driver offer_accepted x.store).1 } in
    let alone : System = record taken { store = (expire_others id driver taken.store).1 } in
    let busy : System = record alone {
      store = (on_ledger (set_driver_status driver on_trip none none) alone.store).1;
    } in
    after_step (finish_accept driver id x.store) (took driver id mine) (
      after_step (finish_accept driver id x.store) (expired_others driver id) (
        after_step (finish_accept driver id x.store)
          (elsewhere busy.store.books x.store.pricing x.store.promos x.store.ratings)
          (Runs-read busy row_missing (find id busy.store.ride_rows))))

after_claim-Runs :
    (driver id : ℕ) (x : System) (b : Bool)
    → (claim_ride driver id x.store).0 ≡ ok b
    → Runs x (after_claim driver id b (claim_ride driver id x.store).1)
unfolding after_claim
after_claim-Runs driver id x true e =
    let r : Result Ride × Rides = after_claim driver id true (claim_ride driver id x.store).1 in
    after_step r (claim_won driver id e) (
      finish-Runs driver id
        (record { store = (claim_ride driver id x.store).1; won = put (id, driver) tt x.won })
        (ap is_some (find-put_self (id, driver) tt x.won)))
after_claim-Runs driver id x false e =
    let r : Result Ride × Rides = after_claim driver id false (claim_ride driver id x.store).1 in
    let kept : System = record x { store = (claim_ride driver id x.store).1 } in
    after_step r (claim_lost driver id e) (
      after_step r (closed driver id offer_expired (λ c. ground (arith, c))) (
        stop (record kept { store = (set_offer id driver offer_expired kept.store).1 })
          (err conflict)))

claim-Runs :
    (driver id : ℕ) (x : System) → Runs x ((claim_ride driver id >>= after_claim driver id) x.store)
unfolding claim_ride
claim-Runs driver id x = after_claim-Runs driver id x (can_claim (find id x.store.ride_rows)) refl

accept_offer-Runs :
    (now cash_cap driver id : ℕ) (x : System) → Runs x (accept_offer now cash_cap driver id x.store)
unfolding accept_offer
accept_offer-Runs now cash_cap driver id x =
    Runs-or_throw x not_found (find (id, driver) x.store.offers) with_offer (λ offer.
      Runs-throw_if x (not (is_pending_offer offer) || ltb offer.expires_at now) conflict with_row (
        Runs-or_throw x row_missing (find id x.store.ride_rows) with_preview (λ preview.
          Runs-throw_if x (is_capped cash_cap driver preview x.store.books) forbidden
            (claim_ride driver id >>= after_claim driver id) (claim-Runs driver id x))))
  where
    with_preview : Ride → Action Rides Ride
    with_preview preview = do
      capped ← gets (λ s. is_capped cash_cap driver preview s.books)
      throw_if capped forbidden
      claim_ride driver id >>= after_claim driver id

    with_row : Action Rides Ride
    with_row = do
      row ← gets (λ s. find id s.ride_rows)
      preview ← or_throw row_missing row
      with_preview preview

    with_offer : RideOffer → Action Rides Ride
    with_offer offer = do
      throw_if (not (is_pending_offer offer) || ltb offer.expires_at now) conflict
      with_row

-- The change of a ride without drivers leaves its driver as it is.
resolve-Runs : (id : ℕ) (x : System) → Runs x (resolve_no_drivers id x.store)
unfolding resolve_no_drivers
resolve-Runs id x =
    after_step (resolve_no_drivers id x.store)
      (moved id is_open (with_status no_drivers_found) (λ r. refl))
      (stop (record x { store = (resolve_no_drivers id x.store).1 }) (ok tt))

resolve_if-Runs : (id : ℕ) (x : System) → Runs x (resolve_if_all_resolved id x.store)
unfolding resolve_if_all_resolved
resolve_if-Runs id x =
    Runs-if x (is_dispatching (find id x.store.ride_rows) && not (some_pending id x.store.offers))
      (resolve_no_drivers id) skip (resolve-Runs id x) (stop x (ok tt))

decline_offer-Runs : (driver id : ℕ) (x : System) → Runs x (decline_offer driver id x.store)
unfolding decline_offer decline_pending
decline_offer-Runs driver id x =
    Runs-or_throw x not_found (find (id, driver) x.store.offers)
      (λ offer. if is_pending_offer offer then decline_pending driver id else skip)
      (λ offer.
        Runs-if x (is_pending_offer offer) (decline_pending driver id) skip
          (after_step (decline_pending driver id x.store)
            (closed driver id offer_declined (λ c. ground (arith, c)))
            (resolve_if-Runs id
              (record x { store = (set_offer id driver offer_declined x.store).1 })))
          (stop x (ok tt)))

expire_round-Runs : (id : ℕ) (x : System) → Runs x (expire_round_if_unresolved id x.store)
unfolding expire_round_if_unresolved expire_round
expire_round-Runs id x =
    Runs-if x (is_dispatching (find id x.store.ride_rows)) (expire_round id) skip
      (after_step (expire_round id x.store) (expired id)
        (resolve-Runs id (record x { store = (expire_pending id x.store).1 })))
      (stop x (ok tt))

offer-Runs :
    (id expiry : ℕ) (ds : List ℕ) (x : System) → Runs x (offer_or_resolve id expiry ds x.store)
unfolding offer_or_resolve
offer-Runs id expiry [] x = resolve-Runs id x
offer-Runs id expiry (d ∷ ds) x =
    Runs-throw_if x (has_offer id (d ∷ ds) x.store.offers) unique_violation
      (insert_offers id expiry (d ∷ ds))
      (after_step (insert_offers id expiry (d ∷ ds) x.store) (offered id expiry (d ∷ ds))
        (stop (record x { store = (insert_offers id expiry (d ∷ ds) x.store).1 }) (ok tt)))

dispatch_ride-Runs :
    (now : ℕ) (near : List ℕ) (cash_cap id : ℕ) (r : Ride) (x : System)
    → find id x.store.ride_rows ≡ some r
    → Runs x (dispatch_ride now near cash_cap id r x.store)
unfolding dispatch_ride update_ride
dispatch_ride-Runs now near cash_cap id r x at = rw at (
    after_step (offer_or_resolve id (now + offer_ttl) candidates dispatched.store)
      (written id (with_status dispatching) r at refl)
      (offer-Runs id (now + offer_ttl) candidates dispatched))
  where
    dispatched : System
    dispatched = record x {
      store = record (x.store) { ride_rows = put id (with_status dispatching r) x.store.ride_rows };
    }

    candidates : List ℕ
    candidates =
        find_nearby_drivers near r.vehicle_type max_candidates r.payment_method cash_cap
          x.store.books

found-Runs :
    (now : ℕ) (near : List ℕ) (cash_cap id : ℕ) (o : Option Ride) (x : System)
    → find id x.store.ride_rows ≡ o
    → Runs x (dispatch_found now near cash_cap id o x.store)
unfolding dispatch_found
found-Runs now near cash_cap id none x at = stop x (ok tt)
found-Runs now near cash_cap id (some r) x at =
    Runs-if x (has_status requested r) (dispatch_ride now near cash_cap id r) skip
      (dispatch_ride-Runs now near cash_cap id r x at) (stop x (ok tt))

-- Whatever a call of the service leaves, with any other requests' statements before it, is what
-- single statements leave that start from the same tables: the race of the requests covers
-- `startDispatch`, `acceptOffer`, `declineOffer` and the end of a round on each of their branches.
pub after_call_reached :
    (c : DispatchCall) (x : System) → (y : System) × Reach x y × (y.store ≡ after_call c x.store)
unfolding after_call start_dispatch Runs
after_call_reached (start_dispatch_call now near cash_cap id) x =
    found-Runs now near cash_cap id (find id x.store.ride_rows) x refl
after_call_reached (accept_offer_call now cash_cap driver id) x =
    accept_offer-Runs now cash_cap driver id x
after_call_reached (decline_offer_call driver id) x = decline_offer-Runs driver id x
after_call_reached (expire_round_call id) x = expire_round-Runs id x
