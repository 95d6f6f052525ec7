-- ===== src/Payments/Store.antt =====
-- The tables that PaymentsService (src/wallet/payments.service.ts) keeps beside the ledger, and what it
-- calls of Paystack. Ids, tokens, card digits and codes are numbers; the expiry of a card, the bank
-- details of a transfer and the text of messages are left out.
use kilo_backend.Prelude.{Bool, List, Option, ℕ}
use kilo_backend.Prelude.Action.{Action, Result}
use kilo_backend.Prelude.Int.{ℤ}
use kilo_backend.Prelude.Table.{Table}
use kilo_backend.Wallet.Ledger.{Books, Reference, TransactionStatus}

-- `enum TopUpMethod`, `TopUpPurpose` and `TopUpStatus`
pub data TopUpMethod : Type 0 where
  new_card saved_card bank_transfer : TopUpMethod

pub data TopUpPurpose : Type 0 where
  topup card_setup : TopUpPurpose

pub data TopUpStatus : Type 0 where
  top_up_pending top_up_completed top_up_failed : TopUpStatus

pub record TopUpRequest : Type 0 where
  pub user : ℕ
  pub amount : ℤ
  pub method : TopUpMethod
  pub purpose : TopUpPurpose
  pub save_card : Bool
  pub card_id : Option ℕ
  pub card_last4 : Option ℕ
  pub status : TopUpStatus

pub record PaymentCard : Type 0 where
  pub user : ℕ
  pub signature : ℕ
  pub authorization_code : ℕ
  pub last4 : ℕ
  pub is_default : Bool

pub record WithdrawalRequest : Type 0 where
  pub driver : ℕ
  pub amount : ℤ
  pub settled_commission : ℤ
  pub recipient : Option ℕ
  pub gateway_reference : Option ℕ
  pub status : TransactionStatus

-- `user.role === UserRole.DRIVER`, or any other role
pub data Role : Type 0 where
  driver_role other_role : Role

pub record Payments : Type 0 where
  pub books : Books
  pub users : Table ℕ Role
  pub requests : Table Reference TopUpRequest
  pub cards : Table ℕ PaymentCard
  pub withdrawals : Table Reference WithdrawalRequest
  pub notified : List Reference

-- The status of a charge; `charge_abandoned` stands for any other one.
pub data ChargeStatus : Type 0 where
  charge_success charge_failed charge_reversed charge_abandoned : ChargeStatus

pub record Authorization : Type 0 where
  pub authorization_code : ℕ
  pub last4 : ℕ
  pub is_card : Bool
  pub reusable : Bool
  pub signature : Option ℕ

pub record VerifyTransactionResult : Type 0 where
  pub reference : Reference
  pub status : ChargeStatus
  pub user : Option ℕ
  pub amount : ℤ
  pub authorization : Option Authorization

-- The calls of Paystack; `none` is a call that throws.
pub record Paystack : Type 0 where
  pub verify_transaction : Reference → Option VerifyTransactionResult
  pub charge_bank_transfer : Reference → ℤ → Option (Unit {0})
  pub initialize_transaction : Reference → ℤ → Option ℕ
  pub charge_authorization : Reference → ℤ → ℕ → Option ChargeStatus
  pub create_recipient : ℕ → Option ℕ
  pub initiate_transfer : Reference → ℤ → ℕ → Option ℕ

-- A method of WalletService, on the ledger of the store.
abbrev pub with_books : {A : Type 0} → Payments → Result A × Books → Result A × Payments
with_books s (r, b) = (r, record s { books = b })

abbrev pub on_books : {A : Type 0} → Action Books A → Action Payments A
on_books m s = with_books s (m s.books)
