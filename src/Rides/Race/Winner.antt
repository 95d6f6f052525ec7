-- ===== src/Rides/Race/Winner.antt =====
-- At most one driver wins a ride (src/rides/dispatch.service.ts), in any order of the statements.
use kilo_backend.Prelude.{
  ap, arith, holds, inl, inr, is_some, not, some, sym, true, ℕ, ◌&&◌, ◌==◌, ◌∙◌, ◌≡◌,
}
use kilo_backend.Prelude.Table.{Table, find, find-put, number_key, put, same?}
use kilo_backend.Rides.Dispatch.{claim_ride, is_pending_offer}
use kilo_backend.Rides.Race.{
  IsFairRace, Reach, Step, System, booked, claim_lost, claim_won, closed, elsewhere, expired,
  expired_others, followed_by, has_accepted, holder, moved, offered, started, took, written,
}
use kilo_backend.Rides.Race.Claims.{
  add_accepted, booked_holder, claim_keeps_winners, kept_won, lost_keeps, moved_holder,
  take_accepted, update_accepted,
}
use kilo_backend.Rides.Store.{Ride, offer_expired, pair_key}
use mathlib.Core.Option.{some-injective}

written_holder :
    (id i : ℕ) (r r' : Ride) (t : Table ℕ Ride)
    → find id t ≡ some r
    → r'.driver ≡ r.driver
    → holder (find i (put id r' t)) ≡ holder (find i t)
written_holder id i r r' t at h = ground (arith, find-put i id r' t, at, h)

-- Each statement keeps the race fair.
pub Step-IsFairRace : {x y : System} → Step x y → IsFairRace x → IsFairRace y
unfolding claim_ride
Step-IsFairRace {x} (booked id r new free) v = record {
  winner = λ i d h. booked_holder id i d r x.store.ride_rows new (v.winner i d h);
  accepted_won = v.accepted_won;
}
Step-IsFairRace {x} (moved id p f keeps) v = record {
  winner = λ i d h. moved_holder id p f x.store keeps i ∙ v.winner i d h;
  accepted_won = v.accepted_won;
}
Step-IsFairRace {x} (written id f r at keeps) v = record {
  winner = λ i d h. written_holder id i r (f r) x.store.ride_rows at keeps ∙ v.winner i d h;
  accepted_won = v.accepted_won;
}
Step-IsFairRace {x} (offered id expiry ds) v = record {
  winner = v.winner;
  accepted_won = λ i d h. v.accepted_won i d (add_accepted id expiry ds (i, d) x.store.offers h);
}
Step-IsFairRace {x} (claim_won driver id took_it) v = record {
  winner = claim_keeps_winners driver id x v took_it;
  accepted_won = λ i d h. kept_won (i, d) (id, driver) x.won (v.accepted_won i d h);
}
Step-IsFairRace {x} (claim_lost driver id missed) v = record {
  winner = λ i d h. lost_keeps driver id x.store missed i ∙ v.winner i d h;
  accepted_won = λ i d h. v.accepted_won i d h;
}
Step-IsFairRace {x} (took driver id mine) v = record {
  winner = v.winner;
  accepted_won = λ i d h. elim (take_accepted (i, d) (id, driver) x.store.offers h) [
    | inl e ↦ ap (λ k. is_some (find k x.won)) e ∙ mine
    | inr k ↦ v.accepted_won i d k
  ];
}
Step-IsFairRace {x} (closed driver id status fresh) v = record {
  winner = v.winner;
  accepted_won = λ i d h.
      v.accepted_won i d (
        update_accepted (λ k _. holds (same? (id, driver) k)) status (i, d) x.store.offers fresh h);
}
Step-IsFairRace {x} (expired id) v = record {
  winner = v.winner;
  accepted_won = λ i d h. v.accepted_won i d (
      update_accepted (λ k o. (k.0 == id) && is_pending_offer o) offer_expired (i, d) x.store.offers
        (λ e. ground arith) h);
}
Step-IsFairRace {x} (expired_others driver id) v = record {
  winner = v.winner;
  accepted_won = λ i d h. v.accepted_won i d (
      update_accepted (λ k o. (k.0 == id) && not (k.1 == driver) && is_pending_offer o)
        offer_expired (i, d) x.store.offers (λ e. ground arith) h);
}
Step-IsFairRace (elsewhere b p q ratings) v = record {
  winner = v.winner;
  accepted_won = v.accepted_won;
}

pub Reach-IsFairRace : {x y : System} → IsFairRace x → Reach x y → IsFairRace y
Reach-IsFairRace v started = v
Reach-IsFairRace v (followed_by r st) = Step-IsFairRace st (Reach-IsFairRace v r)

-- From a fair start, whatever statements of whatever requests run in whatever order: a driver with
-- an accepted offer for a ride is the driver that the ride's row names, and two drivers with
-- accepted offers for one ride are the same driver.
pub accepted_once :
    {x y : System} (id d e : ℕ)
    → IsFairRace x
    → Reach x y
    → has_accepted (find (id, d) y.store.offers) ≡ true
    → has_accepted (find (id, e) y.store.offers) ≡ true
    → (holder (find id y.store.ride_rows) ≡ some d) × (d ≡ e)
accepted_once {x} {y} id d e v r h k =
    let w : IsFairRace y = Reach-IsFairRace v r in
    let first : holder (find id y.store.ride_rows) ≡ some d =
      w.winner id d (w.accepted_won id d h) in
    let second : holder (find id y.store.ride_rows) ≡ some e =
      w.winner id e (w.accepted_won id e k) in
    (first, some-injective d e (sym first ∙ second))
