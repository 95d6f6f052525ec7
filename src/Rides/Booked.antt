-- ===== src/Rides/Booked.antt =====
-- What a booking leaves (src/rides/rides.service.ts).
use kilo_backend.Prelude.{
  List, Option, ap, arith, false, none, refl, some, suc, true, ℕ, ◌+◌, ◌-◌, ◌∙◌, ◌∷◌, ◌≡◌, ◌≢◌, ◌≤◌,
}
use kilo_backend.Prelude.Action.{
  Ensures, Ensures-ok, Ensures-or_throw, Ensures-throw_if, bad_request, ok,
}
use kilo_backend.Prelude.Decimal.{Decimal, mul, of_kobo, to_kobo, to_kobo-of_kobo}
use kilo_backend.Prelude.Table.{find, find-put_ne, find-put_self, number_key, put}
use kilo_backend.Pricing.Fares.{
  Adds, FareBreakdown, build_fare_breakdown, build_fare_breakdown-Adds, calculate_fare,
}
use kilo_backend.Pricing.Tariffs.{get_active_tariff, ride}
use kilo_backend.Promo.Codes.{
  Granted, PromoCode, PromoRedemption, Promos, applies_to, for_rides, reached, record_redemption,
  redeemed, redeemed_by, validate-Granted,
}
use kilo_backend.Rides.Booking.{
  RideRequest, booked_ride, create_ride, discount_for, is_invoice, redeem_for,
}
use kilo_backend.Rides.Frame.{Ensures-on_pricing, Ensures-on_promos}
use kilo_backend.Rides.Store.{Ride, Rides, requested}

-- What the promos hold after a booking with this code, or with none.
pub Redeemed : Option ℕ → ℕ → Ride → Promos → Promos → Type 0
Redeemed none rider r p p' = (p' ≡ p) × (r.promo_discount ≡ 0)
Redeemed (some code) rider r p p' =
    ((promo : PromoCode) × (find code p.promos ≡ some promo)
      × (promo.is_active ≡ true)
      × (applies_to for_rides promo.applicable_services ≡ true)
      × (reached promo.usage_limit_per_user (redeemed_by code rider p.redemptions) ≡ false)
      × (reached promo.usage_limit_total (redeemed code p.redemptions) ≡ false))
    × (redeemed_by code rider p'.redemptions ≡ suc (redeemed_by code rider p.redemptions))
    × (redeemed code p'.redemptions ≡ suc (redeemed code p.redemptions))

pub record Booked (rider id : ℕ) (dto : RideRequest) (rate : Decimal) (r : Ride) (s s' : Rides)
    : Type 0 where
  pub row : find id s'.ride_rows ≡ some r
  pub others : (j : ℕ) → j ≢ id → find j s'.ride_rows ≡ find j s.ride_rows
  pub is_theirs : r.rider ≡ rider
  pub is_requested : (r.status ≡ requested) × (r.driver ≡ none)
  pub not_invoiced : is_invoice r.payment_method ≡ false
  pub adds_up :
      (t : ℕ) × (r.tax_amount ≡ some t)
      × (r.estimated_fare + r.promo_discount ≡ r.subtotal_fare + t)
      × (t ≡ to_kobo (mul (of_kobo (r.subtotal_fare - r.promo_discount)) rate))
  pub discount_fits : r.promo_discount ≤ r.subtotal_fare
  pub unpaid : s'.books ≡ s.books
  pub promo : Redeemed dto.promo_code rider r s.promos s'.promos

Promised : ℕ → ℕ → Decimal → Option ℕ → Promos → Decimal → Promos → Type 0
Promised now rider fare none p d p' = (p' ≡ p) × (d ≡ of_kobo 0)
Promised now rider fare (some code) p d p' = Granted now code rider for_rides fare d p p'

discount_lem :
    (now rider : ℕ) (fare : Decimal) (o : Option ℕ) (p : Promos)
    → Ensures (Promised now rider fare o p) (discount_for now fare rider o p)
unfolding discount_for Promised
discount_lem now rider fare none p = (refl, refl)
discount_lem now rider fare (some code) p = validate-Granted now code rider for_rides fare p

counted :
    (code : ℕ) (x : PromoRedemption) (l : List PromoRedemption)
    → x.promo ≡ code
    → redeemed code (x ∷ l) ≡ suc (redeemed code l)
counted code x l e = ground (arith, e)

counted_by :
    (code user : ℕ) (x : PromoRedemption) (l : List PromoRedemption)
    → x.promo ≡ code
    → x.user ≡ user
    → redeemed_by code user (x ∷ l) ≡ suc (redeemed_by code user l)
counted_by code user x l e e' = ground (arith, e, e')

redeem_lem :
    (now rider : ℕ) (fare d : Decimal) (o : Option ℕ) (r : Ride) (p p' : Promos)
    → Promised now rider fare o p d p'
    → r.promo_discount ≤ to_kobo d
    → Ensures (λ _ p''. Redeemed o rider r p p'') (redeem_for rider r.promo_discount o p')
unfolding redeem_for Promised Redeemed record_redemption
redeem_lem now rider fare d none r p p' h few =
    (h.0, omega (arith, few, ap to_kobo h.1 ∙ to_kobo-of_kobo 0))
redeem_lem now rider fare d (some code) r p p' h few = (
  (h.promo, h.known, h.active, h.served, h.user_left, h.total_left),
  ap (λ x. redeemed_by code rider (used ∷ x.redemptions)) h.unchanged
      ∙ counted_by code rider used p.redemptions refl refl,
  ap (λ x. redeemed code (used ∷ x.redemptions)) h.unchanged ∙ counted code used p.redemptions refl,
)
  where
    used : PromoRedemption
    used = record {
      promo = code;
      user = rider;
      service = for_rides;
      discount_amount = of_kobo r.promo_discount;
    }

create_ride_lem :
    (now : ℕ) (rate : Decimal) (place : Option ℕ) (distance minutes : Decimal) (rider id : ℕ)
    (dto : RideRequest) (s : Rides)
    → Ensures
        (λ r s'. Booked rider id dto rate r s s')
        (create_ride now rate place distance minutes rider id dto s)
unfolding create_ride
create_ride_lem now rate place distance minutes rider id dto s =
    let Q : Ride → Rides → Type 0 = λ r s'. Booked rider id dto rate r s s' in
    Ensures-throw_if Q (is_invoice dto.payment_method) bad_request _ s (λ paid_now.
      Ensures-or_throw Q bad_request place _ s (λ area at.
        Ensures-on_pricing Q (get_active_tariff dto.vehicle_type (some area) (some ride)) _ s
          (λ tariff p.
            let fare : Decimal = calculate_fare tariff distance minutes in
            Ensures-on_promos Q (Promised now rider fare dto.promo_code s.promos)
              (discount_for now fare rider dto.promo_code) _ (record s { pricing = p })
              (discount_lem now rider fare dto.promo_code s.promos)
              (λ d q granted.
                let b : FareBreakdown = build_fare_breakdown rate fare d in
                let r : Ride = booked_ride rider area dto b in
                let sums : Adds b rate fare d = build_fare_breakdown-Adds rate fare d in
                Ensures-on_promos Q (λ _ p'. Redeemed dto.promo_code rider r s.promos p')
                  (redeem_for rider b.promo_discount dto.promo_code) _
                  (record s { pricing = p; promos = q; ride_rows = put id r s.ride_rows })
                  (redeem_lem now rider fare d dto.promo_code r s.promos q granted
                    sums.discount_given)
                  (λ _ q' used. record {
                    row = find-put_self id r s.ride_rows;
                    others = λ j apart. find-put_ne j id r s.ride_rows apart;
                    is_theirs = refl;
                    is_requested = (refl, refl);
                    not_invoiced = paid_now;
                    adds_up = (b.tax, refl, sums.adds_up, sums.tax_of_rest);
                    discount_fits = sums.discount_fits;
                    unpaid = refl;
                    promo = used;
                  })))))

-- Where `createRide` returns: the ride is there under its id, requested, without a driver and not on
-- an invoice, no other ride has changed, its fare and its discount are its subtotal and its tax
-- together, the tax is that of the subtotal less the discount, the discount is at most the
-- subtotal, and no balance has changed; without a code there is no discount and the promos are as
-- before, and with one the promo is active, serves rides and has not reached a limit, and it is
-- redeemed once more, by this rider.
pub create_ride_books :
    (now : ℕ) (rate : Decimal) (place : Option ℕ) (distance minutes : Decimal) (rider id : ℕ)
    (dto : RideRequest) (s : Rides) {r : Ride} {s' : Rides}
    → create_ride now rate place distance minutes rider id dto s ≡ (ok r, s')
    → Booked rider id dto rate r s s'
create_ride_books now rate place distance minutes rider id dto s e =
    Ensures-ok (λ r u. Booked rider id dto rate r s u)
      (create_ride_lem now rate place distance minutes rider id dto s) e
