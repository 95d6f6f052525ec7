-- ===== src/Rides/Race/Claims.antt =====
-- Lemmas on the statements of a race (src/rides/dispatch.service.ts): what each does to the
-- holder of a ride and to accepted offers.
use kilo_backend.Prelude.{
  Bool, Bool-cases, List, Option, [], ap, arith, false, holds, if◌then◌else◌, inl, inr, is_some,
  none, refl, some, sym, true, ℕ, ◌&&◌, ◌∙◌, ◌∷◌, ◌≡◌, ◌≢◌, ◌⊎◌,
}
use kilo_backend.Prelude.Action.{ok}
use kilo_backend.Prelude.Table.{
  Table, find, find-put, find-update_any, find-update_where, number_key, put, same?, update_where,
}
use kilo_backend.Rides.Dispatch.{
  add_offers, can_claim, claim_ride, claimed_by, offer_with, unclaimed, update_rides,
}
use kilo_backend.Rides.Race.{IsFairRace, System, has_accepted, holder}
use kilo_backend.Rides.Store.{
  Ride, RideOffer, RideOfferStatus, Rides, offer_accepted, offer_pending, pair_key,
}
use mathlib.Core.Option
use mathlib.Core.Path.{subst}
use mathlib.Core.Option.{some-injective}

holder_kept :
    (p : Ride → Bool) (f : Ride → Ride)
    → ((r : Ride) → (f r).driver ≡ r.driver)
    → (o : Option Ride) → holder (Option.map (λ r. if p r then f r else r) o) ≡ holder o
holder_kept p f keeps none = refl
holder_kept p f keeps (some r) = elim (Bool-cases (p r)) [
  | inl e ↦ rw e (keeps r)
  | inr e ↦ rw e refl
]

pub moved_holder :
    (id : ℕ) (p : Ride → Bool) (f : Ride → Ride) (s : Rides)
    → ((r : Ride) → (f r).driver ≡ r.driver)
    → (j : ℕ) → holder (find j (update_rides id p f s).1.ride_rows) ≡ holder (find j s.ride_rows)
moved_holder id p f s keeps j =
    ap holder (find-update_any j (λ k r. holds (same? id k) && p r) f s.ride_rows)
    ∙ holder_kept (λ r. holds (same? id j) && p r) f keeps (find j s.ride_rows)

-- A claim gives the ride to the driver where it changes a row, and otherwise changes nothing.
claim_map : ℕ → Bool → Option Ride → Option Ride
claim_map driver here? o =
    Option.map (λ r. if here? && unclaimed r then claimed_by driver r else r) o

claim_lem :
    (driver : ℕ) (o : Option Ride)
    → ((can_claim o ≡ true) × (holder o ≡ none) × (holder (claim_map driver true o) ≡ some driver))
      ⊎ ((can_claim o ≡ false) × (holder (claim_map driver true o) ≡ holder o))
unfolding claim_map
claim_lem driver none = inr (refl, refl)
claim_lem driver (some r) = ground arith

claim_elsewhere : (driver : ℕ) (o : Option Ride) → holder (claim_map driver false o) ≡ holder o
unfolding claim_map
claim_elsewhere driver none = refl
claim_elsewhere driver (some r) = refl

claim_holder :
    (driver id j : ℕ) (s : Rides)
    → find j (claim_ride driver id s).1.ride_rows
      ≡ claim_map driver (holds (same? id j)) (find j s.ride_rows)
unfolding claim_ride claim_map
claim_holder driver id j s =
    find-update_any j (λ k r. holds (same? id k) && unclaimed r) (claimed_by driver) s.ride_rows

claim_result :
    (driver id : ℕ) (s : Rides) (b : Bool)
    → (claim_ride driver id s).0 ≡ ok b
    → can_claim (find id s.ride_rows) ≡ b
unfolding claim_ride
claim_result driver id s b h = ground (arith, h)

-- An offer that is not closed as accepted was accepted before.
still_accepted :
    (p : RideOffer → Bool) (status : RideOfferStatus) (o : Option RideOffer)
    → status ≢ offer_accepted
    → has_accepted (Option.map (λ x. if p x then offer_with status x else x) o) ≡ true
    → has_accepted o ≡ true
still_accepted p status none fresh h = h
still_accepted p status (some o) fresh h = ground arith

pub update_accepted :
    (p : ℕ × ℕ → RideOffer → Bool) (status : RideOfferStatus) (k : ℕ × ℕ)
    (t : Table (ℕ × ℕ) RideOffer)
    → status ≢ offer_accepted
    → has_accepted (find k (update_where p (offer_with status) t)) ≡ true
    → has_accepted (find k t) ≡ true
update_accepted p status k t fresh h =
    still_accepted (p k) status (find k t) fresh
      (sym (ap has_accepted (find-update_any k p (offer_with status) t)) ∙ h)

pub add_accepted :
    (id expiry : ℕ) (ds : List ℕ) (k : ℕ × ℕ) (t : Table (ℕ × ℕ) RideOffer)
    → has_accepted (find k (add_offers id expiry ds t)) ≡ true
    → has_accepted (find k t) ≡ true
add_accepted id expiry [] k t h = h
add_accepted id expiry (d ∷ ds) k t h =
    let o : RideOffer = record { status = offer_pending; expires_at = expiry } in
    let rest : has_accepted (find k (put (id, d) o t)) ≡ true =
      add_accepted id expiry ds k (put (id, d) o t) h in
    ground (arith, rest, find-put k (id, d) o t)

-- Taking an offer accepts no other one.
pub take_accepted :
    (k offer : ℕ × ℕ) (t : Table (ℕ × ℕ) RideOffer)
    → has_accepted
        (find k (update_where (λ j _. holds (same? offer j)) (offer_with offer_accepted) t))
      ≡ true
    → (k ≡ offer) ⊎ (has_accepted (find k t) ≡ true)
take_accepted k offer t h =
    ground (arith, h, find-update_where k offer (offer_with offer_accepted) t)

in_put :
    (k new : ℕ × ℕ) (t : Table (ℕ × ℕ) (Unit {0}))
    → is_some (find k (put new tt t)) ≡ true
    → (k ≡ new) ⊎ (is_some (find k t) ≡ true)
in_put k new t h = ground (arith, h, find-put k new tt t)

pub kept_won :
    (k new : ℕ × ℕ) (t : Table (ℕ × ℕ) (Unit {0}))
    → is_some (find k t) ≡ true
    → is_some (find k (put new tt t)) ≡ true
kept_won k new t h = ground (arith, h, find-put k new tt t)

pub claim_keeps_winners :
    (driver id : ℕ) (x : System)
    → IsFairRace x
    → (claim_ride driver id x.store).0 ≡ ok true
    → (i d : ℕ) → is_some (find (i, d) (put (id, driver) tt x.won)) ≡ true
    → holder (find i (claim_ride driver id x.store).1.ride_rows) ≡ some d
claim_keeps_winners driver id x v took_it i d h =
    ap holder (claim_holder driver id i x.store)
    ∙ go (same? id i) (in_put (i, d) (id, driver) x.won h)
  where
    here :
        (holder (find id x.store.ride_rows) ≡ none)
        × (holder (claim_map driver true (find id x.store.ride_rows)) ≡ some driver)
    here = elim (claim_lem driver (find id x.store.ride_rows)) [
      | inl c ↦ (c.1, c.2)
      | inr c ↦ absurd (ground (arith, c.0, claim_result driver id x.store true took_it))
    ]

    go :
        (e : Dec (id ≡ i))
        → (◌≡◌ {A = ℕ × ℕ} (i, d) (id, driver)) ⊎ (is_some (find (i, d) x.won) ≡ true)
        → holder (claim_map driver (holds e) (find i x.store.ride_rows)) ≡ some d
    go (yes e) (inl k) =
        subst (λ j. holder (claim_map driver true (find j x.store.ride_rows)) ≡ some d) e
          (here.1 ∙ ap some (sym (ap (λ q. q.1) k)))
    go (yes e) (inr k) =
        let free : holder (find i x.store.ride_rows) ≡ none =
          subst (λ j. holder (find j x.store.ride_rows) ≡ none) e here.0 in
        let won : holder (find i x.store.ride_rows) ≡ some d = v.winner i d k in
        absurd (ground (arith, free, won))
    go (no n) (inl k) = absurd (n (sym (ap (λ q. q.0) k)))
    go (no n) (inr k) = claim_elsewhere driver (find i x.store.ride_rows) ∙ v.winner i d k

pub lost_keeps :
    (driver id : ℕ) (s : Rides)
    → (claim_ride driver id s).0 ≡ ok false
    → (i : ℕ) → holder (find i (claim_ride driver id s).1.ride_rows) ≡ holder (find i s.ride_rows)
lost_keeps driver id s missed i = ap holder (claim_holder driver id i s) ∙ go (same? id i)
  where
    here : holder (claim_map driver true (find id s.ride_rows)) ≡ holder (find id s.ride_rows)
    here = elim (claim_lem driver (find id s.ride_rows)) [
      | inl c ↦ absurd (ground (arith, c.0, claim_result driver id s false missed))
      | inr c ↦ c.1
    ]

    go :
        (e : Dec (id ≡ i))
        → holder (claim_map driver (holds e) (find i s.ride_rows)) ≡ holder (find i s.ride_rows)
    go (yes e) =
        subst
          (λ j. holder (claim_map driver true (find j s.ride_rows)) ≡ holder (find j s.ride_rows)) e
          here
    go (no n) = claim_elsewhere driver (find i s.ride_rows)

pub booked_holder :
    (id i d : ℕ) (r : Ride) (t : Table ℕ Ride)
    → find id t ≡ none
    → holder (find i t) ≡ some d
    → holder (find i (put id r t)) ≡ some d
booked_holder id i d r t new h = ground (arith, find-put i id r t, new, h)
