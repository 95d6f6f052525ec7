-- ===== src/Kilowatt/Reserved.antt =====
-- A reservation takes one battery, and a failed one gives it back (src/kilowatt/battery-swap.service.ts).
use kilo_backend.Kilowatt.Swaps.{
  Kilowatt, SwapReservation, SwapStation, add_reservation, claim_battery, has_battery, pay_and_hold,
  put_back, release, reserve, take_battery, with_wallet,
}
use kilo_backend.Prelude.{
  Bool-cases, Option, Option-cases, ap, arith, false, holds, if◌then◌else◌, inl, inr, none, refl,
  some, sym, true, ℕ, ◌&&◌, ◌<◌, ◌∙◌, ◌≡◌, ◌≢◌,
}
use kilo_backend.Prelude.Action.{Action, Result, catch, err, go_catch, go_on, ok}
use kilo_backend.Prelude.Int.{pos}
use kilo_backend.Prelude.Table.{
  Table, find, find-put_self, find-update_any, number_key, same?, update_where,
}
use kilo_backend.Wallet.Ledger.{Books, Reference, Transaction}
use kilo_backend.Wallet.Service.{pay_for_kilowatt_service}
use mathlib.Core.Option
use mathlib.Core.Path.{subst}

-- What `reserve` leaves, where it returns and where it throws.
pub Settles : ℕ → ℕ → ℕ → Kilowatt → Result SwapReservation × Kilowatt → Type 0
Settles user id new s (ok r, s') =
    ((x : SwapStation) × (find id s.stations ≡ some x)
      × (x.is_active ≡ true)
      × (0 < x.available_batteries)
      × (find id s'.stations ≡ some (take_battery x))
      × (r.amount ≡ x.price_per_swap))
    × ((j : ℕ) → j ≢ id → find j s'.stations ≡ find j s.stations)
    × (find new s'.reservations ≡ some r)
    × (find new s.reservations ≡ none)
    × (r.user ≡ user)
    × (r.station ≡ id)
Settles user id new s (err e, s') =
    ((j : ℕ) → find j s'.stations ≡ find j s.stations) × (s'.reservations ≡ s.reservations)

-- The stations while the battery is held.
held : ℕ → Table ℕ SwapStation → Table ℕ SwapStation
held id t = update_where (λ k x. holds (same? id k) && has_battery x) take_battery t

find-held_self :
    (id : ℕ) (x : SwapStation) (t : Table ℕ SwapStation)
    → find id t ≡ some x
    → has_battery x ≡ true
    → find id (held id t) ≡ some (take_battery x)
unfolding held
find-held_self id x t at full =
    find-update_any id (λ k y. holds (same? id k) && has_battery y) take_battery t
    ∙ rw at (ground (arith, full))

find-held_ne : (id j : ℕ) (t : Table ℕ SwapStation) → j ≢ id → find j (held id t) ≡ find j t
unfolding held
find-held_ne id j t apart =
    find-update_any j (λ k y. holds (same? id k) && has_battery y) take_battery t
    ∙ kept (find j t) (same? id j)
  where
    kept :
        (o : Option SwapStation) (e : Dec (id ≡ j))
        → Option.map (λ x. if holds e && has_battery x then take_battery x else x) o ≡ o
    kept o (yes e) = absurd (apart (sym e))
    kept none (no _) = refl
    kept (some x) (no _) = refl

-- Putting a battery back undoes taking one.
put-take : (x : SwapStation) → has_battery x ≡ true → put_back (take_battery x) ≡ x
put-take x full = ap (λ n. record x { available_batteries = n }) (ground (arith, full))

map_same : (o : Option SwapStation) → Option.map (λ x. x) o ≡ o
map_same none = refl
map_same (some x) = refl

find-released :
    (id j : ℕ) (x : SwapStation) (t : Table ℕ SwapStation)
    → find id t ≡ some x
    → has_battery x ≡ true
    → find j (update_where (λ k y. holds (same? id k) && true) put_back (held id t)) ≡ find j t
unfolding held
find-released id j x t at full =
    find-update_any j (λ k y. holds (same? id k) && true) put_back (held id t) ∙ go (same? id j)
  where
    go :
        (e : Dec (id ≡ j))
        → Option.map (λ y. if holds e && true then put_back y else y) (find j (held id t))
          ≡ find j t
    go (yes e) =
        subst (λ k. Option.map put_back (find k (held id t)) ≡ find k t) e
          (ap (Option.map put_back) (find-held_self id x t at full)
            ∙ ap some (put-take x full)
            ∙ sym at)
    go (no n) = map_same (find j (held id t)) ∙ find-held_ne id j t (λ e. n (sym e))

find-not_held :
    (id j : ℕ) (x : SwapStation) (t : Table ℕ SwapStation)
    → find id t ≡ some x
    → has_battery x ≡ false
    → find j (held id t) ≡ find j t
unfolding held
find-not_held id j x t at empty =
    find-update_any j (λ k y. holds (same? id k) && has_battery y) take_battery t ∙ go (same? id j)
  where
    go :
        (e : Dec (id ≡ j))
        → Option.map (λ y. if holds e && has_battery y then take_battery y else y) (find j t)
          ≡ find j t
    go (yes e) =
        subst
          (λ k. Option.map (λ y. if has_battery y then take_battery y else y) (find k t) ≡ find k t)
          e (rw at (ground (arith, empty)))
    go (no n) = map_same (find j t)

module _ (user id new : ℕ) (reference : Reference) (s : Kilowatt) (x : SwapStation)
    (at : find id s.stations ≡ some x) (live : x.is_active ≡ true)
    (full : has_battery x ≡ true) where
  -- After the payment, the row is added or the battery is given back.
  added :
      (b : Books) (r : SwapReservation)
      → r.user ≡ user
      → r.station ≡ id
      → r.amount ≡ x.price_per_swap
      → Settles user id new s (
          catch
            (add_reservation new r)
            (release id)
            (record s { books = b; stations = held id s.stations }))
  unfolding release Settles held
  added b r mine same_station paid = elim (Option-cases (find new s.reservations)) [
    | inl e ↦ rw e (
      (x, at, live, ground (arith, full), find-held_self id x s.stations at full, paid),
      λ j apart. find-held_ne id j s.stations apart,
      find-put_self new r s.reservations,
      e,
      mine,
      same_station,
    )
    | inr y ↦ rw y.1 (λ j. find-released id j x s.stations at full, refl)
  ]

  rest : Reference × Transaction → Action Kilowatt SwapReservation
  rest tx =
      add_reservation new
        (record { user = user; station = id; amount = x.price_per_swap; transaction_id = tx.0 })

  paid_or_not :
      (m : Result (Reference × Transaction) × Books)
      → Settles user id new s (
          go_catch
            (release id)
            (go_on rest (with_wallet (record s { stations = held id s.stations }) m)))
  unfolding rest release Settles held
  paid_or_not (ok tx, b) =
      added b
        (record { user = user; station = id; amount = x.price_per_swap; transaction_id = tx.0 })
        refl refl refl
  paid_or_not (err e, b) = (λ j. find-released id j x s.stations at full, refl)

-- Where `reserve` returns: the station was active and had a battery, it has one less now, no other
-- station has changed, and the reservation of this user is new and at the station's price. Where
-- it throws, for whatever reason and at whatever point, each station is as before, and so are the
-- reservations: no battery is lost.
pub reserve-Settles :
    (user id new : ℕ) (reference : Reference) (s : Kilowatt)
    → Settles user id new s (reserve user id reference new s)
unfolding reserve claim_battery pay_and_hold Settles rest held
reserve-Settles user id new reference s = elim (Option-cases (find id s.stations)) [
  | inl e ↦ rw e (λ j. refl, refl)
  | inr x ↦ elim (Bool-cases x.0.is_active) [
    | inr dead ↦ rw (x.1, dead) (λ j. refl, refl)
    | inl live ↦ elim (Bool-cases (has_battery x.0)) [
      | inr empty ↦
          rw (x.1, live, x.1, empty) (λ j. find-not_held id j x.0 s.stations x.1 empty, refl)
      | inl full ↦
          rw (x.1, live, x.1, full)
            (paid_or_not user id new reference s x.0 x.1 live full
              (pay_for_kilowatt_service user (pos x.0.price_per_swap) reference s.books))
    ]
  ]
]
