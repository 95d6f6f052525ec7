-- ===== src/Wallet/Service.antt =====
-- The methods of WalletService (src/wallet/wallet.service.ts) that change the ledger.
-- `Promise.all` starts all its calls, so the accounts of users are created before a platform account
-- that is missing makes the method throw.
use kilo_backend.Prelude.{
  Bool, List, Option, [], false, holds, if◌then◌else◌, map, none, not, some, true, ℕ, ◌+◌, ◌∷◌,
}
use kilo_backend.Prelude.Action.{
  Action, conflict, gets, modify, not_found, ok, or_throw, pure, row_missing, skip, throw_if,
  transaction, ◌>>=◌, ◌>>◌,
}
use kilo_backend.Prelude.Int.{leb_ℤ, pos, ℤ, ◌-ℤ◌}
use kilo_backend.Prelude.Table.{find, number_key, put, same?, update_where}
use kilo_backend.Wallet.Ledger.{
  AccountId, AccountType, Books, DriverStatus, LedgerDirection, LedgerEntry, LedgerEntryInput,
  Reference, Transaction, TransactionStatus, TransactionType, account_key, business_credit_payable,
  business_delivery_accrual, business_invoice_payment, business_wallet, commission_settlement,
  completed, credit, debit, delivery_payment_cash, delivery_payment_wallet,
  driver_commission_payable, driver_wallet, kilowatt_payment, owned, platform,
  platform_gateway_clearing, platform_referral_payable, platform_revenue, platform_tax_payable,
  reference_key, referral_payout, refund_of, refund_type, reversed, ride_payment_cash,
  ride_payment_wallet, rider_wallet, settlement_of, wallet_topup, wallet_withdrawal,
}
use kilo_backend.Wallet.Posting.{
  PostTransactionParams, equals, find_account, post_transaction, post_transaction_entries,
}

abbrev pub Account : Type 0
Account = AccountId × ℤ

-- `account.upsert` with an empty update: a new account has balance 0
unfoldable pub or_create : AccountId → Option ℤ → Action Books Account
or_create id (some b) s = (ok (id, b), s)
or_create id none s = (ok (id, pos 0), record s { accounts = put id (pos 0) s.accounts })

unfoldable pub get_or_create_user_account : ℕ → AccountType → Action Books Account
unfolding or_create
get_or_create_user_account owner type s =
    or_create (owned owner type) (find (owned owner type) s.accounts) s

unfoldable pub get_platform_account : AccountType → Action Books Account
get_platform_account type = do
  found ← gets (λ s. find (platform type) s.accounts)
  balance ← or_throw not_found found
  pure (platform type, balance)

abbrev pub entry : AccountId → LedgerDirection → ℤ → LedgerEntryInput
entry id d x = record { account = id; direction = d; amount = x }

-- Parameters with no idempotency key, and of a transaction that reverses none.
abbrev pub params : TransactionType → Reference → ℤ → List LedgerEntryInput → PostTransactionParams
params type reference amount entries = record {
  type = type;
  reference = reference;
  idempotency_key = none;
  amount = amount;
  reverses = none;
  entries = entries;
}

-- The entries of a movement from one account to another.
abbrev pub from_to : AccountId → AccountId → ℤ → List LedgerEntryInput
from_to a b x = entry a debit x ∷ entry b credit x ∷ []

unfoldable pub top_up : ℕ → ℤ → Reference → Option ℕ → Action Books (Reference × Transaction)
top_up user amount reference key = do
  rider ← get_or_create_user_account user rider_wallet
  clearing ← get_platform_account platform_gateway_clearing
  post_transaction (record {
    type = wallet_topup;
    reference = reference;
    idempotency_key = key;
    amount = amount;
    reverses = none;
    entries = from_to clearing.0 rider.0 amount;
  })

-- `taxEntries`: nothing, and no lookup, where there is no tax.
unfoldable pub tax_entries : ℤ → Action Books (List LedgerEntryInput)
unfolding get_platform_account
tax_entries tax = if leb_ℤ tax (pos 0) then pure [] else do
  payable ← get_platform_account platform_tax_payable
  pure (entry payable.0 credit tax ∷ [])

-- The entries of a fare: the driver has what commission and tax leave.
abbrev pub fare_entries :
    AccountId → AccountId → AccountId → ℤ → ℤ → ℤ → List LedgerEntryInput → List LedgerEntryInput
fare_entries payer driver revenue fare commission tax taxes =
    entry payer debit fare
    ∷ entry driver credit (fare -ℤ commission -ℤ tax)
    ∷ entry revenue credit commission
    ∷ taxes

-- The common text of `payForRide` and `payForDelivery`, which differ in the type alone.
unfoldable pub pay_fare :
    TransactionType → ℕ → ℕ → ℤ → ℤ → Reference → ℤ → Action Books (Reference × Transaction)
pay_fare type payer driver fare commission reference tax = do
  payer_account ← get_or_create_user_account payer rider_wallet
  driver_account ← get_or_create_user_account driver driver_wallet
  revenue ← get_platform_account platform_revenue
  taxes ← tax_entries tax
  post_transaction (
      params type reference fare
        (fare_entries payer_account.0 driver_account.0 revenue.0 fare commission tax taxes))

unfoldable pub pay_for_ride : ℕ → ℕ → ℤ → ℤ → Reference → ℤ → Action Books (Reference × Transaction)
unfolding pay_fare
pay_for_ride = pay_fare ride_payment_wallet

unfoldable pub pay_for_delivery :
    ℕ → ℕ → ℤ → ℤ → Reference → ℤ → Action Books (Reference × Transaction)
unfolding pay_fare
pay_for_delivery = pay_fare delivery_payment_wallet

-- `driverStatus.updateMany` on the rows of one driver
unfoldable pub update_driver : ℕ → (DriverStatus → DriverStatus) → Action Books (Unit {0})
update_driver driver f =
    modify (λ s. record s { drivers = update_where (λ k _. holds (same? driver k)) f s.drivers })

abbrev pub count_cash_ride : DriverStatus → DriverStatus
count_cash_ride d = record d { unsettled_cash_ride_count = d.unsettled_cash_ride_count + 1 }

abbrev pub clear_cash_rides : DriverStatus → DriverStatus
clear_cash_rides d = record d { unsettled_cash_ride_count = 0 }

unfoldable pub unless_processed :
    Option Transaction → Action Books (Unit {0}) → Action Books (Unit {0})
unless_processed none m = m
unless_processed (some _) m = skip

-- The common text of `recordCashRideCommission` and `recordCashDeliveryCommission`.
unfoldable pub record_cash_commission :
    TransactionType → ℕ → ℤ → Reference → Action Books (Reference × Transaction)
unfolding unless_processed update_driver
record_cash_commission type driver amount reference = do
  payable ← get_or_create_user_account driver driver_commission_payable
  clearing ← get_platform_account platform_gateway_clearing
  already ← gets (λ s. find reference s.transactions)
  tx ← post_transaction (params type reference amount (from_to clearing.0 payable.0 amount))
  unless_processed already (update_driver driver count_cash_ride)
  pure tx

unfoldable pub record_cash_ride_commission :
    ℕ → ℤ → Reference → Action Books (Reference × Transaction)
unfolding record_cash_commission
record_cash_ride_commission = record_cash_commission ride_payment_cash

unfoldable pub record_cash_delivery_commission :
    ℕ → ℤ → Reference → Action Books (Reference × Transaction)
unfolding record_cash_commission
record_cash_delivery_commission = record_cash_commission delivery_payment_cash

-- The counter goes back to 0 only where the debt is then 0.
unfoldable pub lift_cap : ℕ → AccountId → Action Books (Unit {0})
unfolding update_driver
lift_cap driver payable = do
  balance ← find_account payable
  if equals balance (pos 0) then update_driver driver clear_cash_rides else skip

unfoldable pub settle_commission : ℕ → ℤ → Reference → Action Books (Reference × Transaction)
unfolding unless_processed lift_cap
settle_commission driver amount reference = do
  payable ← get_or_create_user_account driver driver_commission_payable
  revenue ← get_platform_account platform_revenue
  already ← gets (λ s. find reference s.transactions)
  tx ←
      post_transaction
        (params commission_settlement reference amount (from_to payable.0 revenue.0 amount))
  unless_processed already (lift_cap driver payable.0)
  pure tx

unfoldable pub charge_business_for_delivery :
    ℕ → ℤ → Reference → Action Books (Reference × Transaction)
charge_business_for_delivery business amount reference = do
  payable ← get_or_create_user_account business business_credit_payable
  clearing ← get_platform_account platform_gateway_clearing
  post_transaction
      (params business_delivery_accrual reference amount (from_to clearing.0 payable.0 amount))

-- Both postings, or none; the first one's row is returned.
unfoldable pub pay_both :
    PostTransactionParams → PostTransactionParams → Action Books (Reference × Transaction)
pay_both p q = do payment ← post_transaction_entries p; post_transaction_entries q; pure payment

-- Two balanced postings in one database transaction.
unfoldable pub pay_invoice : ℕ → ℕ → ℤ → ℤ → Reference → ℤ → Action Books (Reference × Transaction)
pay_invoice business driver fare commission reference tax = do
  taxes ← tax_entries tax
  wallet ← get_or_create_user_account business business_wallet
  driver_account ← get_or_create_user_account driver driver_wallet
  payable ← get_or_create_user_account business business_credit_payable
  revenue ← get_platform_account platform_revenue
  clearing ← get_platform_account platform_gateway_clearing
  transaction (
      pay_both
        (params business_invoice_payment reference fare
          (fare_entries wallet.0 driver_account.0 revenue.0 fare commission tax taxes))
        (params business_invoice_payment (settlement_of reference) fare
          (from_to payable.0 clearing.0 fare)))

unfoldable pub request_withdrawal : ℕ → ℤ → Reference → Action Books (Reference × Transaction)
request_withdrawal driver amount reference = do
  driver_account ← get_or_create_user_account driver driver_wallet
  clearing ← get_platform_account platform_gateway_clearing
  post_transaction
      (params wallet_withdrawal reference amount (from_to driver_account.0 clearing.0 amount))

unfoldable pub pay_for_kilowatt_service : ℕ → ℤ → Reference → Action Books (Reference × Transaction)
pay_for_kilowatt_service user amount reference = do
  user_account ← get_or_create_user_account user rider_wallet
  revenue ← get_platform_account platform_revenue
  post_transaction
      (params kilowatt_payment reference amount (from_to user_account.0 revenue.0 amount))

unfoldable pub record_referral_accrual : ℤ → Reference → Action Books (Reference × Transaction)
record_referral_accrual amount reference = do
  clearing ← get_platform_account platform_gateway_clearing
  payable ← get_platform_account platform_referral_payable
  post_transaction (params referral_payout reference amount (from_to clearing.0 payable.0 amount))

unfoldable pub pay_referral_payout :
    ℕ → AccountType → ℤ → Reference → Action Books (Reference × Transaction)
pay_referral_payout referrer type amount reference = do
  referrer_account ← get_or_create_user_account referrer type
  payable ← get_platform_account platform_referral_payable
  post_transaction
      (params referral_payout reference amount (from_to payable.0 referrer_account.0 amount))

-- The opposite of an entry that was posted.
abbrev pub flip_direction : LedgerDirection → LedgerDirection
flip_direction debit = credit
flip_direction credit = debit

abbrev pub reverse_entry : LedgerEntry → LedgerEntryInput
reverse_entry e = entry e.account (flip_direction e.direction) e.amount

abbrev pub refund_params : Reference → Transaction → PostTransactionParams
refund_params id t = record {
  type = refund_type;
  reference = refund_of id;
  idempotency_key = none;
  amount = t.amount;
  reverses = some id;
  entries = map reverse_entry t.entries;
}

abbrev pub is_reversed : TransactionStatus → Bool
is_reversed reversed = true
is_reversed _ = false

abbrev pub is_completed : TransactionStatus → Bool
is_completed completed = true
is_completed _ = false

-- `transaction.update` of the status
abbrev pub set_reversed : Reference → Transaction → Action Books (Unit {0})
set_reversed id t =
    modify (λ s. record s { transactions = put id (record t { status = reversed }) s.transactions })

unfoldable pub mark_reversed : Reference → Action Books (Unit {0})
mark_reversed id = do
  found ← gets (λ s. find id s.transactions)
  t ← or_throw row_missing found
  set_reversed id t

unfoldable pub refund_found : Reference → Transaction → Action Books (Reference × Transaction)
unfolding mark_reversed
refund_found id original = do
  throw_if (is_reversed original.status) conflict
  throw_if (not (is_completed original.status)) conflict
  tx ← post_transaction_entries (refund_params id original)
  mark_reversed id
  pure tx

abbrev pub refund_if_found : Reference → Option Transaction → Action Books (Reference × Transaction)
refund_if_found id found = do original ← or_throw not_found found; refund_found id original

unfoldable pub refund : Reference → Action Books (Reference × Transaction)
unfolding refund_found
refund id = transaction (do found ← gets (λ s. find id s.transactions); refund_if_found id found)
