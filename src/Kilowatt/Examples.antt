-- ===== src/Kilowatt/Examples.antt =====
-- User 5 reserves a battery and user 6 cannot pay for one (src/kilowatt/battery-swap.service.ts).
use kilo_backend.Kilowatt.Reserved.{Settles, reserve-Settles}
use kilo_backend.Kilowatt.Swaps.{
  Kilowatt, SwapStation, claim_battery, pay_and_hold, release, reserve,
}
use kilo_backend.Prelude.{[], refl, true, ℕ_discrete, ◌∷◌, ◌≡◌}
use kilo_backend.Prelude.Action.{conflict, err}
use kilo_backend.Prelude.Int.{pos, ◌+ℤ◌, ◌-ℤ◌}
use kilo_backend.Prelude.Table.{number_key}
use kilo_backend.Wallet.History.{seeded}
use kilo_backend.Wallet.Ledger.{
  AccountId-discrete, AccountType-discrete, Reference-discrete, for_other, owned, rider_wallet,
}
use kilo_backend.Wallet.Posting.{
  collides, create_transaction, new_transaction, post_all, post_entry, post_new, post_transaction,
  post_transaction_entries, sum_amounts,
}
use kilo_backend.Wallet.Service

abbrev one_battery : SwapStation
one_battery = record {
  available_batteries = 1;
  total_slots = 4;
  price_per_swap = 30000;
  is_active = true;
}

abbrev corner : Kilowatt
corner = record {
  books = record seeded { accounts = (owned 5 rider_wallet, pos 50000) ∷ seeded.accounts };
  stations = (2, one_battery) ∷ [];
  reservations = [];
}

reserve-Settles_example : Settles 5 2 9 corner (reserve 5 2 (for_other 1) 9 corner)
reserve-Settles_example = reserve-Settles 5 2 9 (for_other 1) corner

-- Unfolding this opens what a reservation calls.
unfoldable opened_swaps : Unit {0}
unfolding reserve claim_battery pay_and_hold release Service.pay_for_kilowatt_service
    Service.get_or_create_user_account Service.or_create Service.get_platform_account
    post_transaction post_transaction_entries post_new post_all post_entry create_transaction
    new_transaction sum_amounts collides AccountId-discrete AccountType-discrete Reference-discrete
    ℕ_discrete ◌+ℤ◌ ◌-ℤ◌
opened_swaps = tt

reserved_sample :
    (reserve 5 2 (for_other 1) 9 corner).1.stations
    ≡ (2, record one_battery { available_batteries = 0 }) ∷ []
unfolding opened_swaps
reserved_sample = refl

unpaid_sample : (reserve 6 2 (for_other 1) 9 corner).0 ≡ err conflict
unfolding opened_swaps
unpaid_sample = refl
