-- ===== src/Wallet/Ledger.antt =====
-- The tables of the wallet (prisma/schema.prisma, models Account, Transaction, LedgerEntry and
-- DriverStatus). An amount is in kobo, the unit of the columns `Decimal(18, 2)`.
-- An account's id stands for its `(ownerId, type)`, which is unique, and a transaction's id for its
-- `reference`, which is unique; `currency`, `metadata` and the time stamps are left out.
use kilo_backend.Prelude.{Bool, List, Option, false, none, some, true, ℕ, ℕ_discrete}
use kilo_backend.Prelude.Int.{pos, ℤ}
use kilo_backend.Prelude.Table.{Key, Table, find}

pub data AccountType : Type 0 where
  rider_wallet driver_wallet driver_commission_payable business_wallet : AccountType
  business_credit_payable platform_revenue platform_gateway_clearing : AccountType
  platform_promo_liability platform_referral_payable platform_tax_payable : AccountType

pub data AccountId : Type 0 where
  owned : ℕ → AccountType → AccountId
  platform : AccountType → AccountId

-- `account.ownerId === null`
abbrev pub is_platform : AccountId → Bool
is_platform (owned _ _) = false
is_platform (platform _) = true

pub data LedgerDirection : Type 0 where
  debit credit : LedgerDirection

abbrev pub is_debit : LedgerDirection → Bool
is_debit debit = true
is_debit credit = false

abbrev pub is_credit : LedgerDirection → Bool
is_credit debit = false
is_credit credit = true

pub data TransactionType : Type 0 where
  wallet_topup wallet_withdrawal ride_payment_wallet ride_payment_cash : TransactionType
  delivery_payment_wallet delivery_payment_cash business_delivery_accrual : TransactionType
  commission_settlement business_invoice_payment refund_type promo_redemption : TransactionType
  referral_payout kilowatt_payment manual_adjustment : TransactionType

pub data TransactionStatus : Type 0 where
  pending completed failed reversed : TransactionStatus

-- The references that the services write, by template: `topup:<token>`, `withdraw:<token>`,
-- `ride:<id>`, `delivery:<id>`, `invoice:<id>`, `referral-accrual:<id>`, `referral-payout:<id>`, any
-- other one by `for_other`, and the affixes `<r>:settle`, `<r>:credit`, `<r>:settlement`,
-- `<r>:commission`, `<r>:cancellation` and `refund:<id>`.
pub data Reference : Type 0 where
  for_topup for_withdrawal for_ride for_delivery for_invoice : ℕ → Reference
  for_accrual for_payout for_other : ℕ → Reference
  settle_of credit_of settlement_of commission_of cancellation_of : Reference → Reference
  refund_of : Reference → Reference

unfoldable pub AccountType-discrete : Discrete AccountType
AccountType-discrete = hlevel

unfoldable pub AccountId-discrete : Discrete AccountId
AccountId-discrete = hlevel (ℕ_discrete, AccountType-discrete)

unfoldable pub Reference-discrete : Discrete Reference
Reference-discrete = hlevel ℕ_discrete

instance abbrev pub account_key : Key AccountId
account_key = record { same = AccountId-discrete }

instance abbrev pub reference_key : Key Reference
reference_key = record { same = Reference-discrete }

-- What a caller asks to post.
pub record LedgerEntryInput : Type 0 where
  pub account : AccountId
  pub direction : LedgerDirection
  pub amount : ℤ

pub record LedgerEntry : Type 0 where
  pub account : AccountId
  pub direction : LedgerDirection
  pub amount : ℤ
  pub balance_after : ℤ

pub record Transaction : Type 0 where
  pub type : TransactionType
  pub status : TransactionStatus
  pub idempotency_key : Option ℕ
  pub amount : ℤ
  pub reverses : Option Reference
  pub entries : List LedgerEntry

pub data DriverAvailability : Type 0 where
  offline online on_trip : DriverAvailability

pub data DriverServiceMode : Type 0 where
  rides logistics : DriverServiceMode

pub record DriverStatus : Type 0 where
  pub availability : DriverAvailability
  pub service_mode : DriverServiceMode
  pub vehicle_type : Option ℕ
  pub unsettled_cash_ride_count : ℕ

-- The tables that the wallet reads and writes: balances, transactions, driver statuses.
pub record Books : Type 0 where
  pub accounts : Table AccountId ℤ
  pub transactions : Table Reference Transaction
  pub drivers : Table ℕ DriverStatus

-- The balance of an account; an account that is not there yet has none.
abbrev pub or_zero : Option ℤ → ℤ
or_zero none = pos 0
or_zero (some b) = b

abbrev pub balance_of : AccountId → Table AccountId ℤ → ℤ
balance_of id t = or_zero (find id t)
