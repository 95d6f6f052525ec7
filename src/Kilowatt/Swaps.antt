-- ===== src/Kilowatt/Swaps.antt =====
-- BatterySwapService (src/kilowatt/battery-swap.service.ts), over the wallet. Names and positions are
-- left out; the reference of a payment, which holds the time, and the id of a new row are arguments.
use kilo_backend.Prelude.{
  Bool, Option, false, holds, is_some, ltb, none, not, some, true, ℕ, ◌&&◌, ◌+◌, ◌-◌, ◌==◌,
}
use kilo_backend.Prelude.Action.{
  Action, Error, Result, catch, conflict, forbidden, gets, modify, not_found, or_throw, pure, throw,
  throw_if, unique_violation, ◌>>=◌, ◌>>◌,
}
use kilo_backend.Prelude.Int.{pos}
use kilo_backend.Prelude.Table.{Table, find, number_key, put, same?, update_where}
use kilo_backend.Pricing.Admin.{given}
use kilo_backend.Rides.Trips.{available}
use kilo_backend.Wallet.Ledger.{Books, Reference}
use kilo_backend.Wallet.Service.{pay_for_kilowatt_service}

-- A row of BatterySwapStation, with its price in kobo.
pub record SwapStation : Type 0 where
  pub available_batteries : ℕ
  pub total_slots : ℕ
  pub price_per_swap : ℕ
  pub is_active : Bool

pub record SwapReservation : Type 0 where
  pub user : ℕ
  pub station : ℕ
  pub amount : ℕ
  pub transaction_id : Reference

pub record Kilowatt : Type 0 where
  pub books : Books
  pub stations : Table ℕ SwapStation
  pub reservations : Table ℕ SwapReservation

module _ {A : Type 0} where
  abbrev pub with_wallet : Kilowatt → Result A × Books → Result A × Kilowatt
  with_wallet s (r, b) = (r, record s { books = b })

  abbrev pub on_wallet : Action Books A → Action Kilowatt A
  on_wallet m s = with_wallet s (m s.books)

abbrev pub update_stations :
    ℕ → (SwapStation → Bool) → (SwapStation → SwapStation) → Action Kilowatt (Unit {0})
update_stations id p f =
    modify
      (λ s. record s { stations = update_where (λ k x. holds (same? id k) && p x) f s.stations })

abbrev pub has_battery : SwapStation → Bool
has_battery x = ltb 0 x.available_batteries

abbrev pub take_battery : SwapStation → SwapStation
take_battery x = record x { available_batteries = x.available_batteries - 1 }

abbrev pub put_back : SwapStation → SwapStation
put_back x = record x { available_batteries = x.available_batteries + 1 }

abbrev pub can_take : Option SwapStation → Bool
can_take none = false
can_take (some x) = has_battery x

-- The guarded `updateMany` of `reserve`: whether it has changed a row.
unfoldable pub claim_battery : ℕ → Action Kilowatt Bool
claim_battery id = do
  got_it ← gets (λ s. can_take (find id s.stations))
  update_stations id has_battery take_battery
  pure got_it

-- `batterySwapReservation.create`
abbrev pub add_reservation : ℕ → SwapReservation → Action Kilowatt SwapReservation
add_reservation id r = do
  taken ← gets (λ s. is_some (find id s.reservations))
  throw_if taken unique_violation
  modify (λ s. record s { reservations = put id r s.reservations })
  pure r

-- The body of `try`.
unfoldable pub pay_and_hold : ℕ → ℕ → SwapStation → Reference → ℕ → Action Kilowatt SwapReservation
pay_and_hold user id x reference new = do
  tx ← on_wallet (pay_for_kilowatt_service user (pos x.price_per_swap) reference)
  add_reservation new
      (record { user = user; station = id; amount = x.price_per_swap; transaction_id = tx.0 })

-- The body of `catch`.
unfoldable pub release : ℕ → Error → Action Kilowatt SwapReservation
release id e = do update_stations id (λ _. true) put_back; throw e

unfoldable pub reserve : ℕ → ℕ → Reference → ℕ → Action Kilowatt SwapReservation
unfolding claim_battery pay_and_hold release
reserve user id reference new = do
  found ← gets (λ s. find id s.stations)
  x ← or_throw not_found found
  throw_if (not x.is_active) not_found
  got_it ← claim_battery id
  throw_if (not got_it) conflict
  catch (pay_and_hold user id x reference new) (release id)

-- The guards of `getReservation`.
unfoldable pub get_reservation : ℕ → ℕ → Action Kilowatt SwapReservation
get_reservation user id = do
  found ← gets (λ s. find id s.reservations)
  r ← or_throw not_found found
  throw_if (not (r.user == user)) forbidden
  pure r

abbrev pub station_of : ℕ → ℕ → ℕ → SwapStation
station_of total available price = record {
  available_batteries = available;
  total_slots = total;
  price_per_swap = price;
  is_active = true;
}

-- `dto.pricePerSwap ?? 0`
abbrev pub given_price : Option ℕ → ℕ
given_price none = 0
given_price (some p) = p

unfoldable pub create_station : ℕ → ℕ → ℕ → Option ℕ → Action Kilowatt SwapStation
create_station new total available price = do
  let x = station_of total available (given_price price)
  modify (λ s. record s { stations = put new x s.stations })
  pure x

unfoldable pub delete_station : ℕ → Action Kilowatt (Unit {0})
delete_station id = do
  found ← gets (λ s. find id s.stations)
  or_throw not_found found
  update_stations id (λ _. true) (λ x. record x { is_active = false })

-- What `updateStation` may change; an absent field stays as it is.
pub record StationChange : Type 0 where
  pub total_slots : Option ℕ
  pub available_batteries : Option ℕ
  pub price_per_swap : Option ℕ
  pub is_active : Option Bool

abbrev pub changed_station : StationChange → SwapStation → SwapStation
changed_station dto x = record {
  available_batteries = given dto.available_batteries x.available_batteries;
  total_slots = given dto.total_slots x.total_slots;
  price_per_swap = given dto.price_per_swap x.price_per_swap;
  is_active = given dto.is_active x.is_active;
}

unfoldable pub update_station : ℕ → StationChange → Action Kilowatt (Unit {0})
update_station id dto = do
  found ← gets (λ s. find id s.stations)
  or_throw not_found found
  update_stations id (λ _. true) (changed_station dto)
