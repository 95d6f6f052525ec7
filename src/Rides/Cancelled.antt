-- ===== src/Rides/Cancelled.antt =====
-- A ride is cancelled once, and what that leaves (src/rides/cancellation.service.ts).
use kilo_backend.Prelude.{
  Bool, Bool-cases, Option, [], ap, arith, false, holds, inl, inr, none, not, refl, some, true, ℕ,
  ◌&&◌, ◌==◌, ◌||◌, ◌∙◌, ◌∷◌, ◌≡◌, ◌≢◌,
}
use kilo_backend.Prelude.Action.{
  Ensures, Ensures-bind, Ensures-if, Ensures-ok, Ensures-or_throw, Ensures-throw_if, Ensures-weaken,
  bad_request, err, forbidden, go_on, not_found, ok, or_throw, pure, ◌>>◌,
}
use kilo_backend.Prelude.Table.{
  Table, find, find-put_ne, find-put_self, number_key, put, update_where,
}
use kilo_backend.Pricing.Tariffs.{
  PricingStore, get_active_commission_rate, get_active_tariff, ride, rows,
}
use kilo_backend.Rides.Cancellation.{
  cancel, cancelled_ride, charge_fee, close_ride, fee_commission, free_driver, is_cancellable,
  is_committed, is_participant, pay_fee, take_fee,
}
use kilo_backend.Rides.Dispatch.{is_pending_offer, offer_with, some_pending}
use kilo_backend.Rides.Frame.{Ensures-on_ledger, Ensures-on_pricing}
use kilo_backend.Rides.Store.{Ride, RideOffer, Rides, cancelled, dispatching, offer_expired}
use kilo_backend.Rides.Trips.{
  RideStatus-discrete, has_status, is_driven_by, ride_service, set_driver_status, update_ride,
}
use kilo_backend.Wallet.Ledger.{Books, online}

pub record Cancelled (user id : ℕ) (r : Ride) (s s' : Rides) : Type 0 where
  pub before : Ride
  pub was_there : find id s.ride_rows ≡ some before
  pub was_open : is_cancellable before.status ≡ true
  pub is_theirs : is_participant user before ≡ true
  pub after : find id s'.ride_rows ≡ some r
  pub is_cancelled : r.status ≡ cancelled
  pub by_user : r.cancelled_by ≡ some user
  pub same_parties : (r.rider ≡ before.rider) × (r.driver ≡ before.driver)
  pub free_for_others :
      is_committed before.status && (before.rider == user) ≡ false
      → (r.cancellation_fee ≡ some 0) × (s'.books.accounts ≡ s.books.accounts)
  pub others : (j : ℕ) → j ≢ id → find j s'.ride_rows ≡ find j s.ride_rows
  pub no_offers : before.status ≡ dispatching → some_pending id s'.offers ≡ false

-- Nothing but money has changed, and that only where a fee is due.
OnlyMoney : Bool → Rides → ℕ → Rides → Type 0
OnlyMoney due s fee u =
    (b : Books) × (p : PricingStore) × (u ≡ record s { books = b; pricing = p })
    × (due ≡ false → (fee ≡ 0) × (b.accounts ≡ s.books.accounts))

take_fee_lem :
    (user id : ℕ) (r : Ride) (d : Option ℕ) (s : Rides)
    → Ensures (OnlyMoney (is_committed r.status && (r.rider == user)) s) (take_fee user id r d s)
unfolding take_fee charge_fee OnlyMoney
take_fee_lem user id r none s = (s.books, s.pricing, refl, λ _. (refl, refl))
take_fee_lem user id r (some driver) s =
    let due : Bool = is_committed r.status && (r.rider == user) in
    Ensures-if (OnlyMoney due s) due (charge_fee driver id r) (pure 0) s
      (λ e.
        Ensures-on_pricing (OnlyMoney due s)
          (get_active_tariff r.vehicle_type r.service_area (some ride)) _ s
          (λ tariff p.
            Ensures-on_pricing (OnlyMoney due s)
              (get_active_commission_rate ride_service (some r.vehicle_type)) _
              (record s { pricing = p })
              (λ rule q.
                Ensures-on_ledger (OnlyMoney due s)
                  (pay_fee r.rider driver tariff.cancellation_fee
                    (fee_commission tariff.cancellation_fee rule) id)
                  _ (record s { pricing = q })
                  (λ _ b. (b, q, refl, λ free. absurd (ground (arith, e, free)))))))
      (λ e. (s.books, s.pricing, refl, λ _. (refl, refl)))

-- Once the pending offers of a ride are expired, none is pending.
pub none_pending :
    (id : ℕ) (t : Table (ℕ × ℕ) RideOffer)
    → some_pending id
        (update_where (λ k o. (k.0 == id) && is_pending_offer o) (offer_with offer_expired) t)
      ≡ false
none_pending id [] = refl
none_pending id ((k, o) ∷ t) = ground (arith, none_pending id t)

Closed : ℕ → ℕ → Ride → ℕ → Rides → Ride → Rides → Type 0
Closed user id r fee u r' s' =
    (r' ≡ cancelled_ride user fee r)
    × (s'.ride_rows ≡ put id r' u.ride_rows)
    × (s'.books.accounts ≡ u.books.accounts)
    × (has_status dispatching r ≡ true → some_pending id s'.offers ≡ false)

-- The last write, once the offers are void and the driver is free.
update_lem :
    (user id fee : ℕ) (r : Ride) (u v : Rides)
    → find id u.ride_rows ≡ some r
    → v.ride_rows ≡ u.ride_rows
    → v.books.accounts ≡ u.books.accounts
    → (has_status dispatching r ≡ true → some_pending id v.offers ≡ false)
    → Ensures (Closed user id r fee u) (update_ride id (cancelled_ride user fee) v)
unfolding update_ride Closed
update_lem user id fee r u v at rows money void = rw (rows, at) (refl, refl, money, void)

free_lem :
    (user id fee : ℕ) (r : Ride) (d : Option ℕ) (u v : Rides)
    → find id u.ride_rows ≡ some r
    → v.ride_rows ≡ u.ride_rows
    → v.books.accounts ≡ u.books.accounts
    → (has_status dispatching r ≡ true → some_pending id v.offers ≡ false)
    → Ensures
        (Closed user id r fee u)
        ((free_driver d >> update_ride id (cancelled_ride user fee)) v)
unfolding free_driver set_driver_status
free_lem user id fee r none u v at rows money void = update_lem user id fee r u v at rows money void
free_lem user id fee r (some d) u v at rows money void =
    update_lem user id fee r u
      (record v { books = (set_driver_status d online none none v.books).1 }) at rows money void

close_lem :
    (user id fee : ℕ) (r : Ride) (u : Rides)
    → find id u.ride_rows ≡ some r
    → Ensures (Closed user id r fee u) (close_ride user id r fee u)
unfolding close_ride
close_lem user id fee r u at = elim (Bool-cases (has_status dispatching r)) [
  | inl e ↦ rw e (
      free_lem user id fee r r.driver u
        (record u {
          offers =
              update_where (λ k o. (k.0 == id) && is_pending_offer o) (offer_with offer_expired)
                u.offers;
        })
        at refl refl (λ _. none_pending id u.offers))
  | inr e ↦
      rw e (free_lem user id fee r r.driver u u at refl refl (λ f. absurd (ground (arith, e, f))))
]

dispatching_self : holds (RideStatus-discrete dispatching dispatching) ≡ true
unfolding RideStatus-discrete
dispatching_self = refl

cancel_lem :
    (user id : ℕ) (s : Rides) → Ensures (λ r s'. Cancelled user id r s s') (cancel user id s)
unfolding cancel OnlyMoney Closed
cancel_lem user id s =
    let Q : Ride → Rides → Type 0 = λ r s'. Cancelled user id r s s' in
    Ensures-or_throw Q not_found (find id s.ride_rows) _ s (λ r at.
      Ensures-throw_if Q (not (is_participant user r)) forbidden _ s (λ mine.
        Ensures-throw_if Q (not (is_cancellable r.status)) bad_request _ s (λ still.
          let due : Bool = is_committed r.status && (r.rider == user) in
          Ensures-bind (OnlyMoney due s) Q (take_fee user id r r.driver) (close_ride user id r) s
            (take_fee_lem user id r r.driver s)
            (λ fee u paid.
              Ensures-weaken (Closed user id r fee u) Q (close_ride user id r fee u)
                (λ r' s' c. record {
                  before = r;
                  was_there = at;
                  was_open = ground (arith, still);
                  is_theirs = ground (arith, mine);
                  after = ap (find id) c.1 ∙ find-put_self id r' u.ride_rows;
                  is_cancelled = ap (λ x. x.status) c.0;
                  by_user = ap (λ x. x.cancelled_by) c.0;
                  same_parties = (ap (λ x. x.rider) c.0, ap (λ x. x.driver) c.0);
                  free_for_others = λ e. (
                    ap (λ x. x.cancellation_fee) c.0 ∙ ap some (paid.3 e).0,
                    c.2 ∙ ap (λ x. x.books.accounts) paid.2 ∙ (paid.3 e).1,
                  );
                  others = λ j apart.
                      ap (find j) c.1
                      ∙ find-put_ne j id r' u.ride_rows apart
                      ∙ ap (λ x. find j x.ride_rows) paid.2;
                  no_offers = λ e.
                      c.3
                        (ap (λ x. holds (RideStatus-discrete x dispatching)) e ∙ dispatching_self);
                })
                (close_lem user id fee r u (ap (λ x. find id x.ride_rows) paid.2 ∙ at))))))

refused :
    (user id : ℕ) (r : Ride) (s : Rides)
    → find id s.ride_rows ≡ some r
    → is_participant user r ≡ true
    → r.status ≡ cancelled
    → cancel user id s ≡ (err bad_request, s)
unfolding cancel
refused user id r s found mine over = rw (found, or_throw, go_on, mine, over) refl

-- Where `cancel` returns: the ride was open still and the user is its rider or its driver, the ride is
-- cancelled now by this user and its parties are kept, no balance has changed and the fee is 0
-- unless a rider leaves a driver that had committed, no other ride has changed, no offer of a ride
-- in dispatch is pending any more, and cancelling it again is a bad request that changes nothing.
pub cancel_once :
    (user id : ℕ) (s : Rides) {r : Ride} {s' : Rides}
    → cancel user id s ≡ (ok r, s')
    → Cancelled user id r s s' × (cancel user id s' ≡ (err bad_request, s'))
cancel_once user id s {r} {s'} e =
    let done : Cancelled user id r s s' =
      Ensures-ok (λ x u. Cancelled user id x s u) (cancel_lem user id s) e in
    (
      done,
      refused user id r s' done.after
          (ap (λ o. (o == user) || is_driven_by user r.driver) done.same_parties.0
            ∙ ap (λ o. (done.before.rider == user) || is_driven_by user o) done.same_parties.1
            ∙ done.is_theirs)
          done.is_cancelled,
    )
