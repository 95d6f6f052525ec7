-- ===== src/Wallet/Effects.antt =====
-- What the methods of WalletService do, where they return.
use kilo_backend.Prelude.{Option, ap, inl, inr, none, some, ℕ, ◌∙◌, ◌≡◌, ◌⊎◌}
use kilo_backend.Prelude.Action.{Ensures, Ensures-weaken}
use kilo_backend.Prelude.Int.{pos, ℤ, ◌+ℤ◌}
use kilo_backend.Prelude.Table.{find, put}
use kilo_backend.Wallet.Effect.{net, net_total}
use kilo_backend.Wallet.Ledger.{
  AccountId, Books, Reference, Transaction, TransactionType, account_key, balance_of,
  business_credit_payable, business_delivery_accrual, driver_wallet, owned, platform,
  platform_gateway_clearing, platform_revenue, reference_key, rider_wallet, wallet_topup,
  wallet_withdrawal,
}
use kilo_backend.Wallet.Lookup.{Grown, Grown-trans, tax_list, with_platform, with_taxes, with_user}
use kilo_backend.Wallet.Outcome.{IsRowOf, Outcome, post_transaction-Outcome}
use kilo_backend.Wallet.Posting.{PostTransactionParams, post_transaction}
use kilo_backend.Wallet.Service.{
  charge_business_for_delivery, fare_entries, from_to, params, pay_fare, request_withdrawal, top_up,
}

-- A new transaction has moved the balances by its entries.
pub record Done (p : PostTransactionParams) (t : Transaction) (s s' : Books) : Type 0 where
  pub fresh : find p.reference s.transactions ≡ none
  pub row : IsRowOf p t
  pub balanced : net_total p.entries ≡ pos 0
  pub added : s'.transactions ≡ put p.reference t s.transactions
  pub balances :
      (id : AccountId) → balance_of id s'.accounts ≡ balance_of id s.accounts +ℤ net id p.entries

-- The reference was known: its transaction is returned, and no balance has moved.
pub record Repeated (p : PostTransactionParams) (t : Transaction) (s s' : Books) : Type 0 where
  pub known : find p.reference s.transactions ≡ some t
  pub same_transactions : s'.transactions ≡ s.transactions
  pub same_balances : (id : AccountId) → balance_of id s'.accounts ≡ balance_of id s.accounts

-- How a method that posts `p` returns.
abbrev pub Effect : PostTransactionParams → Books → Reference × Transaction → Books → Type 0
Effect p s (r, t) s' = (r ≡ p.reference) × (Repeated p t s s' ⊎ Done p t s s')

pub Outcome-Effect :
    (p : PostTransactionParams) {s s₁ s' : Books} (r : Reference × Transaction)
    → Grown s s₁
    → Outcome p s₁ r s'
    → Effect p s r s'
Outcome-Effect p r g (e, inl (old, same)) = (
  e,
  inl (record {
    known = rw (ap (find p.reference) g.transactions) at old;
    same_transactions = rw same g.transactions;
    same_balances = λ id. rw same (g.balances id);
  }),
)
Outcome-Effect p r g (e, inr m) = (
  e,
  inr (record {
    fresh = rw (ap (find p.reference) g.transactions) at m.fresh;
    row = m.row;
    balanced = m.balanced;
    added = m.added ∙ ap (put p.reference r.1) g.transactions;
    balances = λ id. m.balances id ∙ ap (λ b. b +ℤ net id p.entries) (g.balances id);
  }),
)

pub posted_after :
    (p : PostTransactionParams) (s s₁ : Books)
    → Grown s s₁
    → Ensures (Effect p s) (post_transaction p s₁)
posted_after p s s₁ g =
    Ensures-weaken (Outcome p s₁) (Effect p s) (post_transaction p s₁)
      (λ r s' o. Outcome-Effect p r g o) (post_transaction-Outcome p s₁)

unfoldable pub top_up_params : ℕ → ℤ → Reference → Option ℕ → PostTransactionParams
top_up_params user amount reference key = record {
  type = wallet_topup;
  reference = reference;
  idempotency_key = key;
  amount = amount;
  reverses = none;
  entries = from_to (platform platform_gateway_clearing) (owned user rider_wallet) amount;
}

pub top_up-Effect :
    (user : ℕ) (amount : ℤ) (reference : Reference) (key : Option ℕ) (s : Books)
    → Ensures
        (Effect (top_up_params user amount reference key) s)
        (top_up user amount reference key s)
unfolding top_up top_up_params
top_up-Effect user amount reference key s =
    let p = top_up_params user amount reference key in
    with_user (Effect p s) user rider_wallet _ s (λ s₁ g _.
      with_platform (Effect p s) platform_gateway_clearing _ s₁ (λ _ _. posted_after p s s₁ g))

-- The one posting of a fare.
unfoldable pub fare_params : TransactionType → ℕ → ℕ → ℤ → ℤ → Reference → ℤ → PostTransactionParams
fare_params type payer driver fare cut reference tax = params type reference fare (
    fare_entries (owned payer rider_wallet) (owned driver driver_wallet) (platform platform_revenue)
      fare cut tax (tax_list tax))

pub pay_fare-Effect :
    (type : TransactionType) (payer driver : ℕ) (fare cut : ℤ) (reference : Reference) (tax : ℤ)
    (s : Books)
    → Ensures
        (Effect (fare_params type payer driver fare cut reference tax) s)
        (pay_fare type payer driver fare cut reference tax s)
unfolding pay_fare fare_params
pay_fare-Effect type payer driver fare cut reference tax s =
    let p = fare_params type payer driver fare cut reference tax in
    with_user (Effect p s) payer rider_wallet _ s (λ s₁ g _.
      with_user (Effect p s) driver driver_wallet _ s₁ (λ s₂ h _.
        with_platform (Effect p s) platform_revenue _ s₂
          (λ _ _. with_taxes (Effect p s) tax _ s₂ (posted_after p s s₂ (Grown-trans g h)))))

pub request_withdrawal-Effect :
    (driver : ℕ) (amount : ℤ) (reference : Reference) (s : Books)
    → let p =
        params wallet_withdrawal reference amount
          (from_to (owned driver driver_wallet) (platform platform_gateway_clearing) amount) in
      Ensures (Effect p s) (request_withdrawal driver amount reference s)
unfolding request_withdrawal
request_withdrawal-Effect driver amount reference s =
    let p =
      params wallet_withdrawal reference amount
        (from_to (owned driver driver_wallet) (platform platform_gateway_clearing) amount) in
    with_user (Effect p s) driver driver_wallet _ s (λ s₁ g _.
      with_platform (Effect p s) platform_gateway_clearing _ s₁ (λ _ _. posted_after p s s₁ g))

pub charge_business-Effect :
    (business : ℕ) (amount : ℤ) (reference : Reference) (s : Books)
    → let p = params business_delivery_accrual reference amount (
        from_to
          (platform platform_gateway_clearing)
          (owned business business_credit_payable)
          amount) in
      Ensures (Effect p s) (charge_business_for_delivery business amount reference s)
unfolding charge_business_for_delivery
charge_business-Effect business amount reference s =
    let p = params business_delivery_accrual reference amount (
      from_to (platform platform_gateway_clearing) (owned business business_credit_payable)
        amount) in
    with_user (Effect p s) business business_credit_payable _ s (λ s₁ g _.
      with_platform (Effect p s) platform_gateway_clearing _ s₁ (λ _ _. posted_after p s s₁ g))
