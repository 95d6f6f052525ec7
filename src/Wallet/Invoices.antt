-- ===== src/Wallet/Invoices.antt =====
-- A delivery that is billed to a business: `chargeBusinessForDelivery`, then `payInvoice`.
use kilo_backend.Prelude.{List, ap, arith, inl, inr, none, suc, ℕ, ◌∙◌, ◌≡◌, ◌≢◌}
use kilo_backend.Prelude.Action.{
  Ensures, Ensures-bind, Ensures-transaction, Ensures-weaken, pure, transaction, ◌>>◌,
}
use kilo_backend.Prelude.Int.{pos, ℤ, ◌+ℤ◌}
use kilo_backend.Prelude.Table.{find, find-put_ne}
use kilo_backend.Wallet.Effect.{net, net_total}
use kilo_backend.Wallet.Ledger.{
  AccountId, Books, LedgerEntryInput, Reference, Transaction, account_key, balance_of,
  business_credit_payable, business_invoice_payment, business_wallet, cancellation_of,
  commission_of, credit_of, driver_wallet, owned, platform, platform_gateway_clearing,
  platform_revenue, reference_key, refund_of, settle_of, settlement_of,
}
use kilo_backend.Wallet.Lookup.{Grown, Grown-trans, tax_list, with_platform, with_taxes, with_user}
use kilo_backend.Wallet.Outcome.{Outcome, post_transaction_entries-Outcome}
use kilo_backend.Wallet.Posting.{PostTransactionParams, post_transaction_entries}
use kilo_backend.Wallet.Service.{fare_entries, from_to, params, pay_both, pay_invoice}

-- How many affixes a reference has.
affixes : Reference → ℕ
affixes (settle_of r) = suc (affixes r)
affixes (credit_of r) = suc (affixes r)
affixes (settlement_of r) = suc (affixes r)
affixes (commission_of r) = suc (affixes r)
affixes (cancellation_of r) = suc (affixes r)
affixes (refund_of r) = suc (affixes r)
affixes _ = 0

pub settlement-ne : (r : Reference) → settlement_of r ≢ r
unfolding affixes
settlement-ne r e = absurd (omega (arith, ap affixes e))

-- Both postings have been made.
abbrev pub BothDone : PostTransactionParams → PostTransactionParams → Books → Books → Type 0
BothDone p q s s' =
    (net_total p.entries ≡ pos 0)
    × ((a : AccountId)
        → balance_of a s'.accounts ≡ balance_of a s.accounts +ℤ net a p.entries +ℤ net a q.entries)

module _ (p q : PostTransactionParams) (s : Books) (fresh : find p.reference s.transactions ≡ none)
    (fresh' : find q.reference s.transactions ≡ none) (apart : q.reference ≢ p.reference) where
  second :
      (r r' : Reference × Transaction) (t u : Books)
      → Outcome p s r t
      → Outcome q t r' u
      → BothDone p q s u
  second r r' t u (_, inl (old, _)) _ = absurd (cc (fresh, old))
  second r r' t u (_, inr m) (_, inl (old, _)) = absurd (
      ground (
        arith,
        ap (find q.reference) m.added,
        find-put_ne q.reference p.reference r.1 s.transactions apart,
        fresh',
        old,
      ))
  second r r' t u (_, inr m) (_, inr n) =
      (m.balanced, λ a. n.balances a ∙ ap (λ b. b +ℤ net a q.entries) (m.balances a))

  pay_both-Done : Ensures (λ _ u. BothDone p q s u) (pay_both p q s)
  unfolding pay_both
  pay_both-Done =
      Ensures-bind (Outcome p s) (λ _ u. BothDone p q s u) (post_transaction_entries p)
        (λ r. post_transaction_entries q >> pure r) s (post_transaction_entries-Outcome p s)
        (λ r t o.
          Ensures-bind (Outcome q t) (λ _ u. BothDone p q s u) (post_transaction_entries q)
            (λ _. pure r) t (post_transaction_entries-Outcome q t)
            (λ r' u o'. second r r' t u o o'))

module _ (business driver : ℕ) (fare cut : ℤ) (reference : Reference) (tax : ℤ) where
  abbrev pub payment_lines : List LedgerEntryInput
  payment_lines =
      fare_entries (owned business business_wallet) (owned driver driver_wallet)
        (platform platform_revenue) fare cut tax (tax_list tax)

  abbrev pub closing_lines : List LedgerEntryInput
  closing_lines =
      from_to (owned business business_credit_payable) (platform platform_gateway_clearing) fare

  abbrev pub payment_params : PostTransactionParams
  payment_params = params business_invoice_payment reference fare payment_lines

  abbrev pub closing_params : PostTransactionParams
  closing_params = params business_invoice_payment (settlement_of reference) fare closing_lines

  unfoldable pub Paid : Books → Reference × Transaction → Books → Type 0
  Paid s _ s' = BothDone payment_params closing_params s s'

  pay_both-Paid :
      (s s₁ : Books)
      → find reference s.transactions ≡ none
      → find (settlement_of reference) s.transactions ≡ none
      → Grown s s₁
      → Ensures (Paid s) (transaction (pay_both payment_params closing_params) s₁)
  unfolding Paid
  pay_both-Paid s s₁ new new' g =
      Ensures-transaction (Paid s) (pay_both payment_params closing_params) s₁ (
        Ensures-weaken (λ _ u. BothDone payment_params closing_params s₁ u) (Paid s)
          (pay_both payment_params closing_params s₁)
          (λ _ u d. (
            d.0,
            λ a. d.1 a ∙ ap (λ b. b +ℤ net a payment_lines +ℤ net a closing_lines) (g.balances a),
          ))
          (pay_both-Done payment_params closing_params s₁ (rw g.transactions new)
            (rw g.transactions new') (settlement-ne reference)))

  pub pay_invoice-Paid :
      (s : Books)
      → find reference s.transactions ≡ none
      → find (settlement_of reference) s.transactions ≡ none
      → Ensures (Paid s) (pay_invoice business driver fare cut reference tax s)
  unfolding pay_invoice
  pay_invoice-Paid s new new' = with_taxes (Paid s) tax _ s (
      with_user (Paid s) business business_wallet _ s (λ s₁ g₁ _.
        with_user (Paid s) driver driver_wallet _ s₁ (λ s₂ g₂ _.
          with_user (Paid s) business business_credit_payable _ s₂ (λ s₃ g₃ _.
            with_platform (Paid s) platform_revenue _ s₃ (λ _ _.
              with_platform (Paid s) platform_gateway_clearing _ s₃
                (λ _ _. pay_both-Paid s s₃ new new' (Grown-trans g₁ (Grown-trans g₂ g₃))))))))
