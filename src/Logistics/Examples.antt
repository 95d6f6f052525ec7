-- ===== src/Logistics/Examples.antt =====
-- A delivery of business 8, and its invoice (src/logistics, src/business), on small tables.
use kilo_backend.Logistics.Billed.{Delivered}
use kilo_backend.Logistics.Completed.{complete_delivery_once}
use kilo_backend.Logistics.Invoices.{
  find_invoice_or_throw, paid_invoice, settle_invoice, update_invoice,
}
use kilo_backend.Logistics.Paid.{InvoicePaid, settle_invoice_once}
use kilo_backend.Logistics.Store.{Delivery, Logistics, otp, picked_up}
use kilo_backend.Logistics.Trips.{
  DeliveryStatus-discrete, bill_business, carried_delivery, commission_of_delivery,
  complete_delivery, create_invoice, delivered, delivery_service, finish_delivery, free_courier,
  invoice_for, settle_delivery, update_delivery,
}
use kilo_backend.Prelude.{[], false, none, refl, some, true, ℕ_discrete, ◌∷◌, ◌≡◌}
use kilo_backend.Prelude.Action.{bad_request, err}
use kilo_backend.Prelude.Decimal.{of_kobo, to_kobo}
use kilo_backend.Prelude.Int.{pos, ◌+ℤ◌, ◌-ℤ◌}
use kilo_backend.Prelude.Table.{number_key}
use kilo_backend.Pricing.Tariffs.{
  get_active_commission_rate, get_active_commission_rules, resolve_rule,
}
use kilo_backend.Rides.Store.{business_invoice}
use kilo_backend.Wallet.History.{seeded}
use kilo_backend.Wallet.Ledger.{
  AccountId-discrete, AccountType-discrete, Reference-discrete, balance_of, business_wallet,
  driver_wallet, for_invoice, logistics, on_trip, owned,
}
use kilo_backend.Wallet.Posting.{
  collides, create_transaction, new_transaction, post_all, post_entry, post_new, post_transaction,
  post_transaction_entries, sum_amounts,
}
use kilo_backend.Wallet.Service

abbrev parcel : Delivery
parcel = record {
  sender = 1;
  driver = some 2;
  business = some 8;
  status = picked_up;
  vehicle_type = 3;
  payment_method = business_invoice;
  estimated_fare = 21500;
  tax_amount = some 1500;
  final_fare = none;
  commission_amount = none;
  receiver_otp_hash = some 1234;
  pod_type = some otp;
  arrived_at_pickup = true;
  arrived_at_dropoff = false;
  transaction_id = none;
}

-- Driver 2 carries delivery 7 of 215.00 with 15.00 of tax; business 8 has 1000.00; the commission of
-- deliveries is 18 %.
abbrev on_the_way : Logistics
on_the_way = record {
  books = record seeded {
    accounts = (owned 8 business_wallet, pos 100000) ∷ seeded.accounts;
    drivers =
        (
          2,
          record {
            availability = on_trip;
            service_mode = logistics;
            vehicle_type = none;
            unsettled_cash_ride_count = 0;
          },
        )
        ∷ [];
  };
  pricing = record {
    tariffs = [];
    rules =
        (
          1,
          record {
            service_type = delivery_service;
            vehicle_type = none;
            rate = of_kobo 18;
            is_active = true;
          },
        )
        ∷ [];
    tariffs_cache = none;
    rules_cache = none;
  };
  deliveries = (7, parcel) ∷ [];
  stops = (1, record { delivery = 7; is_done = false }) ∷ [];
  invoices = [];
}

abbrev arrived_parcel : Delivery
arrived_parcel = delivered 3600 none parcel

abbrev after_delivery : Logistics
after_delivery = (complete_delivery 50 2 7 on_the_way).1

-- Unfolding this opens what a completion and a payment call.
unfoldable opened_deliveries : Unit {0}
unfolding complete_delivery carried_delivery settle_delivery finish_delivery free_courier
    commission_of_delivery bill_business create_invoice update_delivery DeliveryStatus-discrete
    to_kobo get_active_commission_rate get_active_commission_rules resolve_rule
    Service.charge_business_for_delivery Service.get_or_create_user_account Service.or_create
    Service.get_platform_account Service.pay_invoice Service.tax_entries Service.pay_both
    settle_invoice find_invoice_or_throw update_invoice post_transaction post_transaction_entries
    post_new post_all post_entry create_transaction new_transaction sum_amounts collides
    AccountId-discrete AccountType-discrete Reference-discrete ℕ_discrete ◌+ℤ◌ ◌-ℤ◌
opened_deliveries = tt

complete_delivery_once_example :
    Delivered 50 2 7 arrived_parcel on_the_way after_delivery
    × (complete_delivery 51 2 7 after_delivery ≡ (err bad_request, after_delivery))
unfolding opened_deliveries
complete_delivery_once_example = complete_delivery_once 50 51 2 7 on_the_way refl

abbrev after_payment : Logistics
after_payment = (settle_invoice 8 true 50 after_delivery).1

settle_invoice_once_example :
    InvoicePaid 8 50
      (paid_invoice (for_invoice 50) (invoice_for 8 7 parcel 3600))
      after_delivery
      after_payment
    × (settle_invoice 8 true 50 after_payment ≡ (err bad_request, after_payment))
unfolding opened_deliveries
settle_invoice_once_example = settle_invoice_once 8 50 true after_delivery refl

-- The driver has the fare less 36.00 of commission and 15.00 of tax, and the business 785.00.
payment_sample :
    (balance_of (owned 2 driver_wallet) after_payment.books.accounts ≡ pos 16400)
    × (balance_of (owned 8 business_wallet) after_payment.books.accounts ≡ pos 78500)
unfolding opened_deliveries
payment_sample = (refl, refl)
