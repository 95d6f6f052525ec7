-- ===== src/Wallet/Calls.antt =====
-- Every method of WalletService keeps the books sound.
use kilo_backend.Prelude.{Option, not, refl, sym, ℕ, ◌∙◌}
use kilo_backend.Prelude.Action.{
  Ensures, Ensures-bind, Ensures-or_throw, Ensures-throw_if, Ensures-weaken, conflict, gets,
  not_found, pure, row_missing, throw_if, transaction, ◌>>=◌, ◌>>◌,
}
use kilo_backend.Prelude.Int.{ℤ}
use kilo_backend.Prelude.Keeps.{Keeps, Keeps-transaction}
use kilo_backend.Prelude.Table.{find}
use kilo_backend.Wallet.Ledger.{
  AccountType, Books, Reference, Transaction, TransactionType, account_key, reference_key, reversed,
}
use kilo_backend.Wallet.Outcome.{Outcome, post_transaction_entries-Outcome}
use kilo_backend.Wallet.Posting.{PostTransactionParams, post_transaction_entries}
use kilo_backend.Wallet.Service.{
  charge_business_for_delivery, is_completed, is_reversed, mark_reversed, pay_both, pay_fare,
  pay_for_kilowatt_service, pay_invoice, pay_referral_payout, record_cash_commission,
  record_referral_accrual, refund, refund_found, refund_if_found, refund_params, request_withdrawal,
  set_reversed, settle_commission, top_up,
}
use kilo_backend.Wallet.Sound.{IsSound, Outcome-IsSound, ledger_net-put_same, sound_rules}

pub top_up-IsSound :
    (user : ℕ) (amount : ℤ) (reference : Reference) (key : Option ℕ)
    → Keeps IsSound (top_up user amount reference key)
unfolding top_up
top_up-IsSound user amount reference key = search sound_rules depth 9

pub pay_fare-IsSound :
    (type : TransactionType) (payer driver : ℕ) (fare cut : ℤ) (reference : Reference) (tax : ℤ)
    → Keeps IsSound (pay_fare type payer driver fare cut reference tax)
unfolding pay_fare
pay_fare-IsSound type payer driver fare cut reference tax = search sound_rules depth 9

pub record_cash_commission-IsSound :
    (type : TransactionType) (driver : ℕ) (amount : ℤ) (reference : Reference)
    → Keeps IsSound (record_cash_commission type driver amount reference)
unfolding record_cash_commission
record_cash_commission-IsSound type driver amount reference = search sound_rules depth 9

pub settle_commission-IsSound :
    (driver : ℕ) (amount : ℤ) (reference : Reference)
    → Keeps IsSound (settle_commission driver amount reference)
unfolding settle_commission
settle_commission-IsSound driver amount reference = search sound_rules depth 9

pub charge_business-IsSound :
    (business : ℕ) (amount : ℤ) (reference : Reference)
    → Keeps IsSound (charge_business_for_delivery business amount reference)
unfolding charge_business_for_delivery
charge_business-IsSound business amount reference = search sound_rules depth 9

pub request_withdrawal-IsSound :
    (driver : ℕ) (amount : ℤ) (reference : Reference)
    → Keeps IsSound (request_withdrawal driver amount reference)
unfolding request_withdrawal
request_withdrawal-IsSound driver amount reference = search sound_rules depth 9

pub pay_for_kilowatt_service-IsSound :
    (user : ℕ) (amount : ℤ) (reference : Reference)
    → Keeps IsSound (pay_for_kilowatt_service user amount reference)
unfolding pay_for_kilowatt_service
pay_for_kilowatt_service-IsSound user amount reference = search sound_rules depth 9

pub record_referral_accrual-IsSound :
    (amount : ℤ) (reference : Reference) → Keeps IsSound (record_referral_accrual amount reference)
unfolding record_referral_accrual
record_referral_accrual-IsSound amount reference = search sound_rules depth 9

pub pay_referral_payout-IsSound :
    (referrer : ℕ) (type : AccountType) (amount : ℤ) (reference : Reference)
    → Keeps IsSound (pay_referral_payout referrer type amount reference)
unfolding pay_referral_payout
pay_referral_payout-IsSound referrer type amount reference = search sound_rules depth 9

-- A posting inside a transaction that has begun.
post_entries-IsSound :
    (p : PostTransactionParams) (s : Books)
    → IsSound s
    → Ensures (λ _ s'. IsSound s') (post_transaction_entries p s)
post_entries-IsSound p s h =
    Ensures-weaken (Outcome p s) (λ _ s'. IsSound s') (post_transaction_entries p s)
      (λ r s' o. Outcome-IsSound r h o) (post_transaction_entries-Outcome p s)

pub pay_both-IsSound : (p q : PostTransactionParams) → Keeps IsSound (transaction (pay_both p q))
unfolding pay_both
pay_both-IsSound p q = Keeps-transaction (pay_both p q) (λ s h.
    Ensures-bind (λ _ s'. IsSound s') (λ _ s'. IsSound s') (post_transaction_entries p)
      (λ r. post_transaction_entries q >> pure r) s (post_entries-IsSound p s h)
      (λ r s' h'.
        Ensures-bind (λ _ u. IsSound u) (λ _ u. IsSound u) (post_transaction_entries q)
          (λ _. pure r) s' (post_entries-IsSound q s' h') (λ _ u k. k)))

pub pay_invoice-IsSound :
    (business driver : ℕ) (fare cut : ℤ) (reference : Reference) (tax : ℤ)
    → Keeps IsSound (pay_invoice business driver fare cut reference tax)
unfolding pay_invoice
pay_invoice-IsSound business driver fare cut reference tax =
    search (sound_rules, pay_both-IsSound) depth 11

mark_reversed-IsSound :
    (id : Reference) (s : Books) → IsSound s → Ensures (λ _ s'. IsSound s') (mark_reversed id s)
unfolding mark_reversed
mark_reversed-IsSound id s h =
    Ensures-or_throw (λ _ s'. IsSound s') row_missing (find id s.transactions) (set_reversed id) s
      (λ t found. record {
        reconciled = λ j.
            h.reconciled j
            ∙ sym (
                ledger_net-put_same j id (record t { status = reversed }) t s.transactions found
                  refl);
        zero_sum = h.zero_sum;
      })

refund_found-IsSound :
    (id : Reference) (t : Transaction) (s : Books)
    → IsSound s
    → Ensures (λ _ s'. IsSound s') (refund_found id t s)
unfolding refund_found
refund_found-IsSound id t s h =
    let Q : Reference × Transaction → Books → Type 0 = λ _ s'. IsSound s' in
    let finish = λ (r : Reference × Transaction). mark_reversed id >> pure r in
    let post = post_transaction_entries (refund_params id t) >>= finish in
    Ensures-throw_if Q (is_reversed t.status) conflict
      (throw_if (not (is_completed t.status)) conflict >> post) s
      (λ _. Ensures-throw_if Q (not (is_completed t.status)) conflict post s (λ _.
        Ensures-bind Q Q (post_transaction_entries (refund_params id t)) finish s
          (post_entries-IsSound (refund_params id t) s h)
          (λ r s' h'.
            Ensures-bind (λ _ u. IsSound u) Q (mark_reversed id) (λ _. pure r) s'
              (mark_reversed-IsSound id s' h') (λ _ u k. k))))

pub refund-IsSound : (id : Reference) → Keeps IsSound (refund id)
unfolding refund
refund-IsSound id =
    Keeps-transaction (gets (λ s. find id s.transactions) >>= refund_if_found id) (λ s h.
      Ensures-or_throw (λ _ s'. IsSound s') not_found (find id s.transactions) (refund_found id) s
        (λ t _. refund_found-IsSound id t s h))
