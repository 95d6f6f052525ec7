-- ===== src/Wallet/Guarded.antt =====
-- Every method of WalletService keeps the books solvent, where its amounts are not negative.
use kilo_backend.Prelude.{List, Option, [], map, not, some, ℕ, ◌∷◌, ◌≡◌}
use kilo_backend.Prelude.Action.{
  Ensures, Ensures-bind, Ensures-or_throw, Ensures-throw_if, conflict, gets, not_found, pure,
  row_missing, throw_if, transaction, ◌>>=◌, ◌>>◌,
}
use kilo_backend.Prelude.Int.{pos, ℤ, ◌+ℤ◌, ◌≤ℤ◌}
use kilo_backend.Prelude.Keeps.{Keeps, Keeps-bind, Keeps-bind_with, Keeps-transaction}
use kilo_backend.Prelude.Lists.{All}
use kilo_backend.Prelude.Table.{find}
use kilo_backend.Wallet.Fair.{FairRows-find, FairRows-put, post_entries-IsSolvent}
use kilo_backend.Wallet.Ledger.{
  AccountType, Books, LedgerEntry, Reference, Transaction, TransactionType, account_key,
  business_credit_payable, business_invoice_payment, business_wallet, driver_wallet,
  platform_gateway_clearing, platform_revenue, reference_key, reversed, rider_wallet, settlement_of,
}
use kilo_backend.Wallet.Outcome.{as_input}
use kilo_backend.Wallet.Posting.{PostTransactionParams, post_transaction_entries}
use kilo_backend.Wallet.Service.{
  charge_business_for_delivery, fare_entries, from_to, is_completed, is_reversed, mark_reversed,
  params, pay_both, pay_fare, pay_for_kilowatt_service, pay_invoice, pay_referral_payout,
  record_cash_commission, record_referral_accrual, refund, refund_found, refund_if_found,
  refund_params, request_withdrawal, reverse_entry, set_reversed, settle_commission, tax_entries,
  top_up,
}
use kilo_backend.Wallet.Solvent.{FairEntry, IsSolvent}
use kilo_backend.Wallet.Transactions.{
  solvent_rules, fair_fare, fair_from_to, get_or_create-IsSolvent, get_platform_account-IsSolvent,
  post_transaction-IsSolvent, tax_entries-IsSolvent, tax_entries-fair,
}

pub top_up-IsSolvent :
    (user : ℕ) (amount : ℤ) (reference : Reference) (key : Option ℕ)
    → pos 0 ≤ℤ amount
    → Keeps IsSolvent (top_up user amount reference key)
unfolding top_up
top_up-IsSolvent user amount reference key h =
    search (solvent_rules, post_transaction-IsSolvent, fair_from_to) depth 9

pub pay_fare-IsSolvent :
    (type : TransactionType) (payer driver : ℕ) (fare cut : ℤ) (reference : Reference) (tax : ℤ)
    → pos 0 ≤ℤ fare
    → pos 0 ≤ℤ cut
    → cut +ℤ tax ≤ℤ fare
    → Keeps IsSolvent (pay_fare type payer driver fare cut reference tax)
unfolding pay_fare
pay_fare-IsSolvent type payer driver fare cut reference tax h k le =
    Keeps-bind _ _ (get_or_create-IsSolvent payer rider_wallet) (λ a.
      Keeps-bind _ _ (get_or_create-IsSolvent driver driver_wallet) (λ b.
        Keeps-bind _ _ (get_platform_account-IsSolvent platform_revenue) (λ c.
          Keeps-bind_with (All FairEntry) (tax_entries tax) _ (tax_entries-IsSolvent tax)
            (tax_entries-fair tax)
            (λ taxes fits.
              post_transaction-IsSolvent
                (params type reference fare (fare_entries a.0 b.0 c.0 fare cut tax taxes))
                (fair_fare a.0 b.0 c.0 fare cut tax taxes h k le fits)))))

pub record_cash_commission-IsSolvent :
    (type : TransactionType) (driver : ℕ) (amount : ℤ) (reference : Reference)
    → pos 0 ≤ℤ amount
    → Keeps IsSolvent (record_cash_commission type driver amount reference)
unfolding record_cash_commission
record_cash_commission-IsSolvent type driver amount reference h = search solvent_rules depth 9

pub settle_commission-IsSolvent :
    (driver : ℕ) (amount : ℤ) (reference : Reference)
    → pos 0 ≤ℤ amount
    → Keeps IsSolvent (settle_commission driver amount reference)
unfolding settle_commission
settle_commission-IsSolvent driver amount reference h = search solvent_rules depth 9

pub charge_business-IsSolvent :
    (business : ℕ) (amount : ℤ) (reference : Reference)
    → pos 0 ≤ℤ amount
    → Keeps IsSolvent (charge_business_for_delivery business amount reference)
unfolding charge_business_for_delivery
charge_business-IsSolvent business amount reference h = search solvent_rules depth 9

pub request_withdrawal-IsSolvent :
    (driver : ℕ) (amount : ℤ) (reference : Reference)
    → pos 0 ≤ℤ amount
    → Keeps IsSolvent (request_withdrawal driver amount reference)
unfolding request_withdrawal
request_withdrawal-IsSolvent driver amount reference h = search solvent_rules depth 9

pub pay_for_kilowatt_service-IsSolvent :
    (user : ℕ) (amount : ℤ) (reference : Reference)
    → pos 0 ≤ℤ amount
    → Keeps IsSolvent (pay_for_kilowatt_service user amount reference)
unfolding pay_for_kilowatt_service
pay_for_kilowatt_service-IsSolvent user amount reference h = search solvent_rules depth 9

pub record_referral_accrual-IsSolvent :
    (amount : ℤ) (reference : Reference)
    → pos 0 ≤ℤ amount
    → Keeps IsSolvent (record_referral_accrual amount reference)
unfolding record_referral_accrual
record_referral_accrual-IsSolvent amount reference h = search solvent_rules depth 9

pub pay_referral_payout-IsSolvent :
    (referrer : ℕ) (type : AccountType) (amount : ℤ) (reference : Reference)
    → pos 0 ≤ℤ amount
    → Keeps IsSolvent (pay_referral_payout referrer type amount reference)
unfolding pay_referral_payout
pay_referral_payout-IsSolvent referrer type amount reference h = search solvent_rules depth 9

pay_both-IsSolvent :
    (p q : PostTransactionParams)
    → All FairEntry p.entries
    → All FairEntry q.entries
    → Keeps IsSolvent (transaction (pay_both p q))
unfolding pay_both
pay_both-IsSolvent p q fp fq = Keeps-transaction (pay_both p q) (λ s h.
    Ensures-bind (λ _ s'. IsSolvent s') (λ _ s'. IsSolvent s') (post_transaction_entries p)
      (λ r. post_transaction_entries q >> pure r) s (post_entries-IsSolvent p s fp h)
      (λ r s' h'.
        Ensures-bind (λ _ u. IsSolvent u) (λ _ u. IsSolvent u) (post_transaction_entries q)
          (λ _. pure r) s' (post_entries-IsSolvent q s' fq h') (λ _ u k. k)))

pub pay_invoice-IsSolvent :
    (business driver : ℕ) (fare cut : ℤ) (reference : Reference) (tax : ℤ)
    → pos 0 ≤ℤ fare
    → pos 0 ≤ℤ cut
    → cut +ℤ tax ≤ℤ fare
    → Keeps IsSolvent (pay_invoice business driver fare cut reference tax)
unfolding pay_invoice
pay_invoice-IsSolvent business driver fare cut reference tax h k le =
    Keeps-bind_with (All FairEntry) (tax_entries tax) _ (tax_entries-IsSolvent tax)
      (tax_entries-fair tax)
      (λ taxes fits. Keeps-bind _ _ (get_or_create-IsSolvent business business_wallet) (λ a.
        Keeps-bind _ _ (get_or_create-IsSolvent driver driver_wallet) (λ b.
          Keeps-bind _ _ (get_or_create-IsSolvent business business_credit_payable) (λ d.
            Keeps-bind _ _ (get_platform_account-IsSolvent platform_revenue) (λ c.
              Keeps-bind _ _ (get_platform_account-IsSolvent platform_gateway_clearing) (λ e.
                pay_both-IsSolvent
                  (params business_invoice_payment reference fare
                    (fare_entries a.0 b.0 c.0 fare cut tax taxes))
                  (params business_invoice_payment (settlement_of reference) fare
                    (from_to d.0 e.0 fare))
                  (fair_fare a.0 b.0 c.0 fare cut tax taxes h k le fits)
                  (fair_from_to d.0 e.0 fare h)))))))

reverse-fair :
    (es : List LedgerEntry) → All FairEntry (map as_input es) → All FairEntry (map reverse_entry es)
reverse-fair [] h = tt
reverse-fair (e ∷ es) h = (h.0, reverse-fair es h.1)

mark_reversed-IsSolvent :
    (id : Reference) (s : Books) → IsSolvent s → Ensures (λ _ s'. IsSolvent s') (mark_reversed id s)
unfolding mark_reversed
mark_reversed-IsSolvent id s h =
    Ensures-or_throw (λ _ s'. IsSolvent s') row_missing (find id s.transactions) (set_reversed id) s
      (λ t found. record {
        covered = h.covered;
        fair =
            FairRows-put id (record t { status = reversed }) s.transactions
              (FairRows-find id t s.transactions found h.fair) h.fair;
      })

refund_found-IsSolvent :
    (id : Reference) (t : Transaction) (s : Books)
    → find id s.transactions ≡ some t
    → IsSolvent s
    → Ensures (λ _ s'. IsSolvent s') (refund_found id t s)
unfolding refund_found
refund_found-IsSolvent id t s found h =
    let Q : Reference × Transaction → Books → Type 0 = λ _ s'. IsSolvent s' in
    let finish = λ (r : Reference × Transaction). mark_reversed id >> pure r in
    let post = post_transaction_entries (refund_params id t) >>= finish in
    Ensures-throw_if Q (is_reversed t.status) conflict
      (throw_if (not (is_completed t.status)) conflict >> post) s
      (λ _. Ensures-throw_if Q (not (is_completed t.status)) conflict post s (λ _.
        Ensures-bind Q Q (post_transaction_entries (refund_params id t)) finish s
          (post_entries-IsSolvent (refund_params id t) s
            (reverse-fair t.entries (FairRows-find id t s.transactions found h.fair)) h)
          (λ r s' h'.
            Ensures-bind (λ _ u. IsSolvent u) Q (mark_reversed id) (λ _. pure r) s'
              (mark_reversed-IsSolvent id s' h') (λ _ u k. k))))

pub refund-IsSolvent : (id : Reference) → Keeps IsSolvent (refund id)
unfolding refund
refund-IsSolvent id =
    Keeps-transaction (gets (λ s. find id s.transactions) >>= refund_if_found id) (λ s h.
      Ensures-or_throw (λ _ s'. IsSolvent s') not_found (find id s.transactions) (refund_found id) s
        (λ t found. refund_found-IsSolvent id t s found h))
