-- ===== src/Wallet/Examples.antt =====
-- Runs of the wallet on small books, and the theorems at inputs that meet their hypotheses.
use kilo_backend.Prelude.{List, [], arith, false, none, refl, ℕ_discrete, ◌∷◌, ◌≡◌}
use kilo_backend.Prelude.Int.{int_laws, pos, ◌+ℤ◌, ◌-ℤ◌}
use kilo_backend.Prelude.Table.{number_key}
use kilo_backend.Wallet.Affordable.{pay_for_ride-Verdict}
use kilo_backend.Wallet.Effect.{total_balance}
use kilo_backend.Wallet.Fares.{FarePaid, pay_for_ride_moves_fare}
use kilo_backend.Wallet.History.{Call, run, run_all, run_all-IsSolvent, run_all-IsSound, seeded}
use kilo_backend.Wallet.Ledger.{
  AccountId, AccountId-discrete, AccountType-discrete, Books, Reference-discrete, account_key,
  balance_of, commission_of, driver_wallet, for_ride, for_topup, for_withdrawal, owned, platform,
  platform_revenue, platform_tax_payable, reference_key, rider_wallet, settle_of,
}
use kilo_backend.Wallet.Posting.{
  collides, create_transaction, new_transaction, post_all, post_entry, post_new, post_transaction,
  post_transaction_entries, sum_amounts,
}
use kilo_backend.Wallet.Repeats.{run_repeat-Quiet}
use kilo_backend.Wallet.Replays.{Quiet}
use kilo_backend.Wallet.Service.{
  pay_for_ride, record_cash_ride_commission, refund, request_withdrawal, settle_commission, top_up,
}
use kilo_backend.Wallet.Solvent.{IsFair, IsSolvent}
use kilo_backend.Wallet.Sound.{IsSound, ledger_net}
use kilo_backend.Wallet.Verdicts.{Verdict}
use kilo_backend.Wallet.Service

-- Unfolding this opens the whole service.
unfoldable pub opened_service : Unit {0}
unfolding run_all run Service.top_up Service.pay_for_ride Service.pay_for_delivery Service.pay_fare
    Service.record_cash_ride_commission Service.record_cash_delivery_commission
    Service.record_cash_commission Service.settle_commission Service.charge_business_for_delivery
    Service.request_withdrawal Service.pay_for_kilowatt_service Service.pay_invoice
    Service.record_referral_accrual Service.pay_referral_payout Service.refund
    Service.get_or_create_user_account Service.get_platform_account Service.tax_entries
    Service.unless_processed Service.update_driver Service.lift_cap Service.pay_both
    post_transaction post_transaction_entries post_new post_all post_entry create_transaction
    new_transaction sum_amounts collides AccountId-discrete AccountType-discrete Reference-discrete
    ℕ_discrete ◌+ℤ◌ ◌-ℤ◌
opened_service = tt

-- User 1 rides with 500.00 in the wallet; user 2 drives.
abbrev pub start : Books
start = run_all (Call.top_up 1 (pos 50000) (for_topup 1) none ∷ []) seeded

abbrev pub paid : Books
paid = run_all (Call.pay_for_ride 1 2 (pos 20000) (pos 3600) (for_ride 7) (pos 1500) ∷ []) start

ride_balances :
    (balance_of (owned 1 rider_wallet) paid.accounts ≡ pos 30000)
    × (balance_of (owned 2 driver_wallet) paid.accounts ≡ pos 14900)
    × (balance_of (platform platform_revenue) paid.accounts ≡ pos 3600)
    × (balance_of (platform platform_tax_payable) paid.accounts ≡ pos 1500)
unfolding opened_service
ride_balances = (refl, refl, refl, refl)

-- A cash ride of the same driver, then a payout that pays the debt first; a refund; a failing call.
abbrev script : List Call
script =
    Call.top_up 1 (pos 50000) (for_topup 1) none
    ∷ Call.pay_for_ride 1 2 (pos 20000) (pos 3600) (for_ride 7) (pos 1500)
    ∷ Call.record_cash_ride_commission 2 (pos 900) (commission_of (for_ride 8))
    ∷ Call.request_withdrawal 2 (pos 99999999) (for_withdrawal 1)
    ∷ Call.settle_commission 2 (pos 900) (settle_of (for_withdrawal 2))
    ∷ Call.refund (for_ride 7)
    ∷ []

seeded-IsSound : IsSound seeded
unfolding total_balance ledger_net opened_service
seeded-IsSound = record { reconciled = λ id. ground arith; zero_sum = refl }

seeded-IsSolvent : IsSolvent seeded
seeded-IsSolvent = record { covered = λ id. covered id; fair = tt }
  where
    covered : (id : AccountId) → IsFair id (balance_of id seeded.accounts)
    covered (owned o t) = ground arith
    covered (platform t) = tt

run_all-IsSound_example : IsSound (run_all script seeded)
run_all-IsSound_example = run_all-IsSound script seeded seeded-IsSound

run_all-IsSolvent_example : IsSolvent (run_all script seeded)
run_all-IsSolvent_example = run_all-IsSolvent script seeded (omega int_laws) seeded-IsSolvent

run_repeat-Quiet_example :
    Quiet paid (run (Call.pay_for_ride 1 3 (pos 99) (pos 9) (for_ride 7) (pos 0)) paid).1
unfolding opened_service
run_repeat-Quiet_example =
    run_repeat-Quiet (Call.pay_for_ride 1 3 (pos 99) (pos 9) (for_ride 7) (pos 0)) paid refl

pay_for_ride_moves_fare_example : FarePaid 1 2 (pos 20000) (pos 3600) (pos 1500) start paid
unfolding opened_service
pay_for_ride_moves_fare_example =
    pay_for_ride_moves_fare 1 2 (pos 20000) (pos 3600) (for_ride 7) (pos 1500) start refl refl

pay_for_ride-Verdict_example :
    Verdict false paid (Service.pay_for_ride 1 2 (pos 30001) (pos 0) (for_ride 9) (pos 0) paid)
unfolding opened_service
pay_for_ride-Verdict_example =
    pay_for_ride-Verdict 1 2 (pos 30001) (pos 0) (for_ride 9) (pos 0) paid refl refl refl
      (omega int_laws)
