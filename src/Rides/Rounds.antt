-- ===== src/Rides/Rounds.antt =====
-- A round of offers comes to an end (src/rides/dispatch.service.ts).
use kilo_backend.Prelude.{
  Bool-cases, Option-cases, ap, arith, false, holds, inl, inr, none, refl, some, sym, true, ℕ, ◌&&◌,
  ◌∙◌, ◌≡◌, ◌⊎◌,
}
use kilo_backend.Prelude.Table.{find, find-update_any, number_key, same?}
use kilo_backend.Rides.Cancelled.{none_pending}
use kilo_backend.Rides.Dispatch.{
  expire_pending, expire_round, expire_round_if_unresolved, is_dispatching, is_open,
  resolve_no_drivers, some_pending,
}
use kilo_backend.Rides.Frame.{has_status_sound}
use kilo_backend.Rides.Store.{Ride, Rides, dispatching, no_drivers_found}
use kilo_backend.Rides.Trips.{RideStatus-discrete, has_status, with_status}

-- The status of the ride once its round is resolved without a driver.
find-resolve_no_drivers :
    (id : ℕ) (r : Ride) (s : Rides)
    → find id s.ride_rows ≡ some r
    → is_open r ≡ true
    → find id (resolve_no_drivers id s).1.ride_rows ≡ some (with_status no_drivers_found r)
unfolding resolve_no_drivers
find-resolve_no_drivers id r s at still =
    find-update_any id (λ k x. holds (same? id k) && is_open x) (with_status no_drivers_found)
      s.ride_rows
    ∙ rw at (ground (arith, still))

dispatching_open : (r : Ride) → has_status dispatching r ≡ true → is_open r ≡ true
dispatching_open r h = rw (has_status_sound dispatching r h) refl

resolved : (r : Ride) → has_status dispatching (with_status no_drivers_found r) ≡ false
unfolding RideStatus-discrete
resolved r = refl

-- What the end of a round leaves.
pub record RoundOver (id : ℕ) (s s' : Rides) : Type 0 where
  pub ended : is_dispatching (find id s'.ride_rows) ≡ false
  pub untouched : is_dispatching (find id s.ride_rows) ≡ false → s' ≡ s
  pub unserved :
      is_dispatching (find id s.ride_rows) ≡ true
      → (r : Ride) × (find id s.ride_rows ≡ some r)
        × (find id s'.ride_rows ≡ some (with_status no_drivers_found r))
        × (some_pending id s'.offers ≡ false)

-- When the timer of a round has fired, the ride is in dispatch no more: one that a driver had taken or
-- that was cancelled is left alone with all its offers, and one that was still in dispatch has found
-- no drivers, keeps its booking, and has no pending offer.
pub expire_round-RoundOver :
    (id : ℕ) (s : Rides) → RoundOver id s (expire_round_if_unresolved id s).1
unfolding expire_round_if_unresolved expire_round
expire_round-RoundOver id s = elim (Bool-cases (is_dispatching (find id s.ride_rows))) [
  | inr e ↦
      rw e
        (record { ended = e; untouched = λ _. refl; unserved = λ h. absurd (ground (arith, e, h)) })
  | inl e ↦ rw e (waiting e (Option-cases (find id s.ride_rows)))
]
  where
    waiting :
        is_dispatching (find id s.ride_rows) ≡ true
        → (find id s.ride_rows ≡ none) ⊎ ((r : Ride) × (find id s.ride_rows ≡ some r))
        → RoundOver id s (resolve_no_drivers id (expire_pending id s).1).1
    waiting e (inl gone) = absurd (ground (arith, e, gone))
    waiting e (inr (r, at)) =
        let searching : has_status dispatching r ≡ true = sym (ap is_dispatching at) ∙ e in
        let after : find id (resolve_no_drivers id (expire_pending id s).1).1.ride_rows
            ≡ some (with_status no_drivers_found r) =
          find-resolve_no_drivers id r (expire_pending id s).1 at (dispatching_open r searching) in
        record {
          ended = ap is_dispatching after ∙ resolved r;
          untouched = λ h. absurd (ground (arith, e, h));
          unserved = λ _. (r, at, after, none_pending id s.offers);
        }
