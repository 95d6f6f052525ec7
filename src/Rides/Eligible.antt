-- ===== src/Rides/Eligible.antt =====
-- Which drivers a round offers a ride to (`findNearbyDrivers` of src/rides/dispatch.service.ts).
use kilo_backend.Prelude.{
  Bool, List, Option, Option-cases, [], ap, arith, inl, inr, none, refl, some, suc, true, zero, ℕ,
  ◌<◌, ◌∷◌, ◌≡◌, ◌≤◌, ◌⊎◌,
}
use kilo_backend.Prelude.Lists.{All, All-Mem, All-keep, All-map, keep, keep-All, length}
use kilo_backend.Prelude.Table.{find, number_key}
use kilo_backend.Rides.Dispatch.{eligible_row, find_nearby_drivers, is_eligible, may_serve, take}
use kilo_backend.Rides.Store.{RidePaymentMethod, cash}
use kilo_backend.Wallet.Ledger.{Books, DriverStatus, online, rides}
use mathlib.Core.List.{Mem}

module _ {A : Type 0} where
  length-take : (n : ℕ) (xs : List A) → length (take n xs) ≤ n
  length-take zero xs = omega arith
  length-take (suc n) [] = omega arith
  length-take (suc n) (x ∷ xs) = ground (arith, length-take n xs)

  -- All slots are taken, or all items are.
  take-full : (n : ℕ) (xs : List A) → (length (take n xs) ≡ n) ⊎ (take n xs ≡ xs)
  take-full zero xs = inl refl
  take-full (suc n) [] = inr refl
  take-full (suc n) (x ∷ xs) = elim (take-full n xs) [
    | inl e ↦ inl (ap suc e)
    | inr e ↦ inr (ap (λ ys. x ∷ ys) e)
  ]

  All-take : (P : A → Type 0) (n : ℕ) (xs : List A) → All P xs → All P (take n xs)
  All-take P zero xs h = tt
  All-take P (suc n) [] h = tt
  All-take P (suc n) (x ∷ xs) h = (h.0, All-take P n xs h.1)

-- What a driver with an offer is.
pub record MayServe (vehicle : ℕ) (method : RidePaymentMethod) (cash_cap : ℕ) (d : DriverStatus)
    : Type 0 where
  pub is_free : d.availability ≡ online
  pub in_mode : d.service_mode ≡ rides
  pub fits : (d.vehicle_type ≡ none) ⊎ (d.vehicle_type ≡ some vehicle)
  pub may_take_cash : method ≡ cash → d.unsettled_cash_ride_count < cash_cap

pub Serves : ℕ → RidePaymentMethod → ℕ → Books → ℕ → Type 0
Serves vehicle method cash_cap b id =
    (d : DriverStatus) × (find id b.drivers ≡ some d) × MayServe vehicle method cash_cap d

fits_lem :
    (vehicle : ℕ) (o : Option ℕ) → may_serve vehicle o ≡ true → (o ≡ none) ⊎ (o ≡ some vehicle)
fits_lem vehicle none h = inl refl
fits_lem vehicle (some v) h = inr (ground (arith, h))

is_eligible_lem :
    (vehicle : ℕ) (method : RidePaymentMethod) (cash_cap : ℕ) (d : DriverStatus)
    → is_eligible vehicle method cash_cap d ≡ true
    → MayServe vehicle method cash_cap d
unfolding is_eligible
is_eligible_lem vehicle method cash_cap d h = record {
  is_free = ground (arith, h);
  in_mode = ground (arith, h);
  fits = fits_lem vehicle d.vehicle_type (ground (arith, h));
  may_take_cash = λ e. ground (arith, h, e);
}

Serves_lem :
    (vehicle : ℕ) (method : RidePaymentMethod) (cash_cap : ℕ) (b : Books) (id : ℕ)
    → eligible_row vehicle method cash_cap (find id b.drivers) ≡ true
    → Serves vehicle method cash_cap b id
unfolding Serves
Serves_lem vehicle method cash_cap b id h = elim (Option-cases (find id b.drivers)) [
  | inl e ↦ absurd (ground (arith, h, e))
  | inr d ↦ (d.0, d.1, is_eligible_lem vehicle method cash_cap d.0 (ground (arith, h, d.1)))
]

-- Who gets an offer in a round.
pub record FairRound (near : List ℕ) (vehicle limit : ℕ) (method : RidePaymentMethod) (cash_cap : ℕ)
    (b : Books) (chosen : List ℕ) : Type 0 where
  pub few : length chosen ≤ limit
  pub serve : All (Serves vehicle method cash_cap b) chosen
  pub full_or_all :
      (length chosen ≡ limit)
      ⊎ All
          (λ id. eligible_row vehicle method cash_cap (find id b.drivers) ≡ true → Mem id chosen)
          near

-- The drivers that get an offer are at most as many as the limit; each is online, in the mode for
-- rides, of the wanted vehicle type or of none, and under the cap of unsettled cash rides where the
-- ride is paid in cash; and where fewer than the limit get one, every driver near that passes the
-- test gets one.
pub find_nearby_drivers-FairRound :
    (near : List ℕ) (vehicle limit : ℕ) (method : RidePaymentMethod) (cash_cap : ℕ) (b : Books)
    → FairRound near vehicle limit method cash_cap b
        (find_nearby_drivers near vehicle limit method cash_cap b)
unfolding find_nearby_drivers
find_nearby_drivers-FairRound near vehicle limit method cash_cap b = record {
  few = length-take limit able;
  serve = All-take (Serves vehicle method cash_cap b) limit able (
      All-map (λ id. Mem id near × (test id ≡ true)) (Serves vehicle method cash_cap b) able
        (λ id h. Serves_lem vehicle method cash_cap b id h.1)
        (keep-All (λ id. Mem id near) test near (All-Mem near)));
  full_or_all = elim (take-full limit able) [
    | inl e ↦ inl e
    | inr e ↦ inr (rw e (All-keep (λ id. Mem id able) test near (All-Mem able)))
  ];
}
  where
    test : ℕ → Bool
    test id = eligible_row vehicle method cash_cap (find id b.drivers)

    able : List ℕ
    able = keep test near
