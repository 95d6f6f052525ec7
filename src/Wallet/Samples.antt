-- ===== src/Wallet/Samples.antt =====
-- Refunds, cash trips and invoices on small books.
use kilo_backend.Prelude.{[], none, refl, ◌∷◌, ◌≡◌}
use kilo_backend.Prelude.Action.{conflict, err}
use kilo_backend.Prelude.Int.{pos}
use kilo_backend.Prelude.Table.{number_key}
use kilo_backend.Wallet.Cash.{
  CashRecorded, SettlementRecorded, record_cash_ride_counts_once, settle_commission_lifts_cap,
}
use kilo_backend.Wallet.Examples.{opened_service, paid, start}
use kilo_backend.Wallet.History.{seeded}
use kilo_backend.Wallet.Ledger.{
  Books, Transaction, account_key, balance_of, business_wallet, commission_of, completed, credit,
  debit, driver_wallet, for_delivery, for_invoice, for_other, for_ride, for_topup, online, owned,
  platform, platform_revenue, platform_tax_payable, reference_key, ride_payment_wallet,
  rider_wallet, rides, settle_of,
}
use kilo_backend.Wallet.Lifecycle.{InvoiceSettled, charge-pay_invoice}
use kilo_backend.Wallet.Posting.{PostTransactionParams, post_transaction}
use kilo_backend.Wallet.Refunds.{Undone, refund-post, refund_undoes_once}
use kilo_backend.Wallet.Service

abbrev ride_row : Transaction
ride_row = record {
  type = ride_payment_wallet;
  status = completed;
  idempotency_key = none;
  amount = pos 20000;
  reverses = none;
  entries =
      record {
        account = owned 1 rider_wallet;
        direction = debit;
        amount = pos 20000;
        balance_after = pos 30000;
      }
      ∷ record {
        account = owned 2 driver_wallet;
        direction = credit;
        amount = pos 14900;
        balance_after = pos 14900;
      }
      ∷ record {
        account = platform platform_revenue;
        direction = credit;
        amount = pos 3600;
        balance_after = pos 3600;
      }
      ∷ record {
        account = platform platform_tax_payable;
        direction = credit;
        amount = pos 1500;
        balance_after = pos 1500;
      }
      ∷ [];
}

abbrev refunded : Books
refunded = (Service.refund (for_ride 7) paid).1

refund_undoes_once_example :
    Undone (for_ride 7) ride_row paid refunded
    × (Service.refund (for_ride 7) refunded ≡ (err conflict, refunded))
unfolding opened_service
refund_undoes_once_example = refund_undoes_once (for_ride 7) ride_row paid refl refl refl

abbrev loan : PostTransactionParams
loan =
    Service.params ride_payment_wallet (for_other 1) (pos 500)
      (Service.from_to (owned 1 rider_wallet) (platform platform_revenue) (pos 500))

abbrev lent : Books
lent = (post_transaction loan start).1

refund-post_example :
    balance_of (owned 1 rider_wallet) (Service.refund (for_other 1) lent).1.accounts
    ≡ balance_of (owned 1 rider_wallet) start.accounts
unfolding opened_service
refund-post_example = refund-post loan start refl refl refl refl (owned 1 rider_wallet)

-- Business 5 has 400.00 in its wallet.
abbrev funded : Books
funded = record seeded { accounts = (owned 5 business_wallet, pos 40000) ∷ seeded.accounts }

abbrev charged : Books
charged = (Service.charge_business_for_delivery 5 (pos 30000) (for_delivery 3) funded).1

charge-pay_invoice_example :
    InvoiceSettled 5 2
      (pos 30000)
      (pos 5000)
      (pos 2000)
      funded
      (Service.pay_invoice 5 2 (pos 30000) (pos 5000) (for_invoice 4) (pos 2000) charged).1
unfolding opened_service
charge-pay_invoice_example =
    charge-pay_invoice 5 2 (pos 30000) (pos 5000) (for_delivery 3) (for_invoice 4) (pos 2000) funded
      refl refl refl refl refl

-- Driver 2 is on the road, with one cash trip that is not settled.
abbrev driving : Books
driving = record seeded {
  drivers =
      (
        2,
        record {
          availability = online;
          service_mode = rides;
          vehicle_type = none;
          unsettled_cash_ride_count = 1;
        },
      )
      ∷ [];
}

abbrev indebted : Books
indebted = (Service.record_cash_ride_commission 2 (pos 900) (commission_of (for_ride 8)) driving).1

record_cash_ride_counts_once_example :
    CashRecorded 2
      (pos 900)
      (commission_of (for_ride 8))
      driving
      (commission_of (for_ride 8), ride_row)
      indebted
unfolding opened_service
record_cash_ride_counts_once_example =
    record_cash_ride_counts_once 2 (pos 900) (commission_of (for_ride 8)) driving refl

settle_commission_lifts_cap_example :
    SettlementRecorded 2
      (pos 900)
      (settle_of (for_topup 6))
      indebted
      (settle_of (for_topup 6), ride_row)
      (Service.settle_commission 2 (pos 900) (settle_of (for_topup 6)) indebted).1
unfolding opened_service
settle_commission_lifts_cap_example =
    settle_commission_lifts_cap 2 (pos 900) (settle_of (for_topup 6)) indebted refl
