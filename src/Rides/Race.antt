-- ===== src/Rides/Race.antt =====
-- Drivers that race for one ride (src/rides/dispatch.service.ts, src/rides/trip.service.ts,
-- src/rides/cancellation.service.ts): the statements that the methods send to the database, in any
-- order and for any number of requests at once.
pub mod Claims
pub mod Winner
pub mod Sequences
pub mod Calls
mod Examples
use kilo_backend.Prelude.{Bool, List, Option, false, is_some, none, some, true, ℕ, ◌≡◌, ◌≢◌}
use kilo_backend.Prelude.Action.{ok}
use kilo_backend.Prelude.Table.{Table, find, number_key, put}
use kilo_backend.Pricing.Tariffs.{PricingStore}
use kilo_backend.Promo.Codes.{Promos}
use kilo_backend.Rides.Dispatch.{
  claim_ride, expire_others, expire_pending, insert_offers, set_offer, update_rides,
}
use kilo_backend.Rides.Store.{Ride, RideOffer, RideOfferStatus, Rides, offer_accepted, pair_key}
use kilo_backend.Wallet.Ledger.{Books}

-- The tables, and the requests whose claim of a ride has changed a row.
pub record System : Type 0 where
  pub store : Rides
  pub won : Table (ℕ × ℕ) (Unit {0})

-- One statement. A status is set without a look at the driver (`startDispatch`, the trip, a
-- cancellation, a round without drivers); an offer is accepted by a request that has won.
pub data Step (x : System) : System → Type 0 where
  booked :
      (id : ℕ) (r : Ride)
      → find id x.store.ride_rows ≡ none
      → r.driver ≡ none
      → Step x (record x { store = record (x.store) { ride_rows = put id r x.store.ride_rows } })
  moved :
      (id : ℕ) (p : Ride → Bool) (f : Ride → Ride)
      → ((r : Ride) → (f r).driver ≡ r.driver)
      → Step x (record x { store = (update_rides id p f x.store).1 })
  written :
      (id : ℕ) (f : Ride → Ride) (r : Ride)
      → find id x.store.ride_rows ≡ some r
      → (f r).driver ≡ r.driver
      → Step x
          (record x { store = record (x.store) { ride_rows = put id (f r) x.store.ride_rows } })
  offered :
      (id expiry : ℕ) (ds : List ℕ)
      → Step x (record x { store = (insert_offers id expiry ds x.store).1 })
  claim_won :
      (driver id : ℕ)
      → (claim_ride driver id x.store).0 ≡ ok true
      → Step x
          (record { store = (claim_ride driver id x.store).1; won = put (id, driver) tt x.won })
  claim_lost :
      (driver id : ℕ)
      → (claim_ride driver id x.store).0 ≡ ok false
      → Step x (record x { store = (claim_ride driver id x.store).1 })
  took :
      (driver id : ℕ)
      → is_some (find (id, driver) x.won) ≡ true
      → Step x (record x { store = (set_offer id driver offer_accepted x.store).1 })
  closed :
      (driver id : ℕ) (status : RideOfferStatus)
      → status ≢ offer_accepted
      → Step x (record x { store = (set_offer id driver status x.store).1 })
  expired : (id : ℕ) → Step x (record x { store = (expire_pending id x.store).1 })
  expired_others :
      (driver id : ℕ) → Step x (record x { store = (expire_others id driver x.store).1 })
  elsewhere :
      (b : Books) (p : PricingStore) (q : Promos) (ratings : Table ℕ ℕ)
      → Step x (record x {
        store = record (x.store) { books = b; pricing = p; promos = q; ratings = ratings };
      })

pub data Reach (x : System) : System → Type 0 where
  started : Reach x x
  followed_by : {y z : System} → Reach x y → Step y z → Reach x z

abbrev pub holder : Option Ride → Option ℕ
holder none = none
holder (some r) = r.driver

abbrev pub has_accepted : Option RideOffer → Bool
has_accepted none = false
has_accepted (some o) = elim o.status [ offer_accepted ↦ true | _ ↦ false ]

-- Who has won a ride holds it, and only who has won has an accepted offer.
pub record IsFairRace (x : System) : Type 0 where
  pub winner :
      (id d : ℕ) → is_some (find (id, d) x.won) ≡ true → holder (find id x.store.ride_rows) ≡ some d
  pub accepted_won :
      (id d : ℕ)
      → has_accepted (find (id, d) x.store.offers) ≡ true
      → is_some (find (id, d) x.won) ≡ true
