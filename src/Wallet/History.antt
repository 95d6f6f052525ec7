-- ===== src/Wallet/History.antt =====
-- Any history of calls of WalletService (src/wallet/wallet.service.ts), those that throw included.
use kilo_backend.Prelude.{List, Option, [], ℕ, ◌∷◌}
use kilo_backend.Prelude.Action.{Action}
use kilo_backend.Prelude.Int.{pos, ℤ, ◌+ℤ◌, ◌≤ℤ◌}
use kilo_backend.Prelude.Keeps.{Keeps}
use kilo_backend.Prelude.Lists.{All}
use kilo_backend.Wallet.Ledger.{
  AccountType, Books, Reference, Transaction, delivery_payment_cash, delivery_payment_wallet,
  platform, platform_gateway_clearing, platform_promo_liability, platform_referral_payable,
  platform_revenue, platform_tax_payable, ride_payment_cash, ride_payment_wallet,
}
use kilo_backend.Wallet.Solvent.{IsSolvent}
use kilo_backend.Wallet.Sound.{IsSound}
use kilo_backend.Wallet.Service
use kilo_backend.Wallet.Calls
use kilo_backend.Wallet.Guarded

-- The methods of the service that write, with their arguments.
pub data Call : Type 0 where
  top_up : ℕ → ℤ → Reference → Option ℕ → Call
  pay_for_ride pay_for_delivery : ℕ → ℕ → ℤ → ℤ → Reference → ℤ → Call
  record_cash_ride_commission record_cash_delivery_commission : ℕ → ℤ → Reference → Call
  settle_commission charge_business_for_delivery request_withdrawal : ℕ → ℤ → Reference → Call
  pay_for_kilowatt_service : ℕ → ℤ → Reference → Call
  pay_invoice : ℕ → ℕ → ℤ → ℤ → Reference → ℤ → Call
  record_referral_accrual : ℤ → Reference → Call
  pay_referral_payout : ℕ → AccountType → ℤ → Reference → Call
  refund : Reference → Call

unfoldable pub run : Call → Action Books (Reference × Transaction)
run (top_up u x r k) = Service.top_up u x r k
run (pay_for_ride p d f c r t) = Service.pay_for_ride p d f c r t
run (pay_for_delivery p d f c r t) = Service.pay_for_delivery p d f c r t
run (record_cash_ride_commission d x r) = Service.record_cash_ride_commission d x r
run (record_cash_delivery_commission d x r) = Service.record_cash_delivery_commission d x r
run (settle_commission d x r) = Service.settle_commission d x r
run (charge_business_for_delivery b x r) = Service.charge_business_for_delivery b x r
run (request_withdrawal d x r) = Service.request_withdrawal d x r
run (pay_for_kilowatt_service u x r) = Service.pay_for_kilowatt_service u x r
run (pay_invoice b d f c r t) = Service.pay_invoice b d f c r t
run (record_referral_accrual x r) = Service.record_referral_accrual x r
run (pay_referral_payout u a x r) = Service.pay_referral_payout u a x r
run (refund r) = Service.refund r

-- The books after the calls, one after the other. One that throws leaves what it wrote.
unfoldable pub run_all : List Call → Books → Books
run_all [] s = s
run_all (c ∷ cs) s = run_all cs (run c s).1

-- No amount is negative, and commission and tax fit in the fare.
abbrev pub IsSensible : Call → Type 0
IsSensible (top_up u x r k) = pos 0 ≤ℤ x
IsSensible (pay_for_ride p d f c r t) = (pos 0 ≤ℤ f) × (pos 0 ≤ℤ c) × (c +ℤ t ≤ℤ f)
IsSensible (pay_for_delivery p d f c r t) = (pos 0 ≤ℤ f) × (pos 0 ≤ℤ c) × (c +ℤ t ≤ℤ f)
IsSensible (record_cash_ride_commission d x r) = pos 0 ≤ℤ x
IsSensible (record_cash_delivery_commission d x r) = pos 0 ≤ℤ x
IsSensible (settle_commission d x r) = pos 0 ≤ℤ x
IsSensible (charge_business_for_delivery b x r) = pos 0 ≤ℤ x
IsSensible (request_withdrawal d x r) = pos 0 ≤ℤ x
IsSensible (pay_for_kilowatt_service u x r) = pos 0 ≤ℤ x
IsSensible (pay_invoice b d f c r t) = (pos 0 ≤ℤ f) × (pos 0 ≤ℤ c) × (c +ℤ t ≤ℤ f)
IsSensible (record_referral_accrual x r) = pos 0 ≤ℤ x
IsSensible (pay_referral_payout u a x r) = pos 0 ≤ℤ x
IsSensible (refund r) = Unit

pub run-IsSound : (c : Call) → Keeps IsSound (run c)
unfolding run Service.pay_for_ride Service.pay_for_delivery Service.record_cash_ride_commission
    Service.record_cash_delivery_commission
run-IsSound (top_up u x r k) = Calls.top_up-IsSound u x r k
run-IsSound (pay_for_ride p d f c r t) = Calls.pay_fare-IsSound ride_payment_wallet p d f c r t
run-IsSound (pay_for_delivery p d f c r t) =
    Calls.pay_fare-IsSound delivery_payment_wallet p d f c r t
run-IsSound (record_cash_ride_commission d x r) =
    Calls.record_cash_commission-IsSound ride_payment_cash d x r
run-IsSound (record_cash_delivery_commission d x r) =
    Calls.record_cash_commission-IsSound delivery_payment_cash d x r
run-IsSound (settle_commission d x r) = Calls.settle_commission-IsSound d x r
run-IsSound (charge_business_for_delivery b x r) = Calls.charge_business-IsSound b x r
run-IsSound (request_withdrawal d x r) = Calls.request_withdrawal-IsSound d x r
run-IsSound (pay_for_kilowatt_service u x r) = Calls.pay_for_kilowatt_service-IsSound u x r
run-IsSound (pay_invoice b d f c r t) = Calls.pay_invoice-IsSound b d f c r t
run-IsSound (record_referral_accrual x r) = Calls.record_referral_accrual-IsSound x r
run-IsSound (pay_referral_payout u a x r) = Calls.pay_referral_payout-IsSound u a x r
run-IsSound (refund r) = Calls.refund-IsSound r

pub run-IsSolvent : (c : Call) → IsSensible c → Keeps IsSolvent (run c)
unfolding run Service.pay_for_ride Service.pay_for_delivery Service.record_cash_ride_commission
    Service.record_cash_delivery_commission
run-IsSolvent (top_up u x r k) h = Guarded.top_up-IsSolvent u x r k h
run-IsSolvent (pay_for_ride p d f c r t) h =
    Guarded.pay_fare-IsSolvent ride_payment_wallet p d f c r t h.0 h.1 h.2
run-IsSolvent (pay_for_delivery p d f c r t) h =
    Guarded.pay_fare-IsSolvent delivery_payment_wallet p d f c r t h.0 h.1 h.2
run-IsSolvent (record_cash_ride_commission d x r) h =
    Guarded.record_cash_commission-IsSolvent ride_payment_cash d x r h
run-IsSolvent (record_cash_delivery_commission d x r) h =
    Guarded.record_cash_commission-IsSolvent delivery_payment_cash d x r h
run-IsSolvent (settle_commission d x r) h = Guarded.settle_commission-IsSolvent d x r h
run-IsSolvent (charge_business_for_delivery b x r) h = Guarded.charge_business-IsSolvent b x r h
run-IsSolvent (request_withdrawal d x r) h = Guarded.request_withdrawal-IsSolvent d x r h
run-IsSolvent (pay_for_kilowatt_service u x r) h =
    Guarded.pay_for_kilowatt_service-IsSolvent u x r h
run-IsSolvent (pay_invoice b d f c r t) h = Guarded.pay_invoice-IsSolvent b d f c r t h.0 h.1 h.2
run-IsSolvent (record_referral_accrual x r) h = Guarded.record_referral_accrual-IsSolvent x r h
run-IsSolvent (pay_referral_payout u a x r) h = Guarded.pay_referral_payout-IsSolvent u a x r h
run-IsSolvent (refund r) h = Guarded.refund-IsSolvent r

-- From sound books, after any calls with any arguments, those that throw included, every balance is
-- the sum of its ledger entries and all balances together are zero.
pub run_all-IsSound : (cs : List Call) (s : Books) → IsSound s → IsSound (run_all cs s)
unfolding run_all
run_all-IsSound [] s h = h
run_all-IsSound (c ∷ cs) s h = run_all-IsSound cs (run c s).1 ((run-IsSound c).at s h)

-- From solvent books, after any calls whose amounts are not negative and whose commission and tax
-- fit in the fare, those that throw included, no account of a user is below zero.
pub run_all-IsSolvent :
    (cs : List Call) (s : Books) → All IsSensible cs → IsSolvent s → IsSolvent (run_all cs s)
unfolding run_all
run_all-IsSolvent [] s sense h = h
run_all-IsSolvent (c ∷ cs) s sense h =
    run_all-IsSolvent cs (run c s).1 sense.1 ((run-IsSolvent c sense.0).at s h)

-- The platform's accounts as `seed:platform-accounts` creates them, and nothing else.
abbrev pub seeded : Books
seeded = record {
  accounts =
      (platform platform_revenue, pos 0)
      ∷ (platform platform_gateway_clearing, pos 0)
      ∷ (platform platform_promo_liability, pos 0)
      ∷ (platform platform_referral_payable, pos 0)
      ∷ (platform platform_tax_payable, pos 0)
      ∷ [];
  transactions = [];
  drivers = [];
}
