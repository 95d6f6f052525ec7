-- ===== src/Wallet/Lifecycle.antt =====
-- The whole way of a delivery that is billed to a business, in balances.
use kilo_backend.Prelude.{ap, inl, inr, none, ℕ, ◌∙◌, ◌≡◌}
use kilo_backend.Prelude.Action.{Ensures-ok, ok}
use kilo_backend.Prelude.Int.{int_laws, pos, ℤ, ◌+ℤ◌, ◌-ℤ◌, ◌≤ℤ◌}
use kilo_backend.Prelude.Table.{find}
use kilo_backend.Wallet.Effect.{effect, net, net_total}
use kilo_backend.Wallet.Effects.{Effect, charge_business-Effect}
use kilo_backend.Wallet.Invoices.{Paid, pay_invoice-Paid}
use kilo_backend.Wallet.Ledger.{
  AccountId, Books, Reference, Transaction, account_key, balance_of, business_credit_payable,
  business_delivery_accrual, business_wallet, driver_wallet, owned, platform,
  platform_gateway_clearing, platform_revenue, platform_tax_payable, reference_key, settlement_of,
}
use kilo_backend.Wallet.Lookup.{tax_list}
use kilo_backend.Wallet.Service.{
  charge_business_for_delivery, fare_entries, from_to, params, pay_invoice,
}

-- What the two steps of a billed delivery have done together: the clearing account and the payable
-- are where they were, and the fare has gone from the business's wallet to driver, platform and tax.
pub record InvoiceSettled (business driver : ℕ) (fare cut tax : ℤ) (s s' : Books) : Type 0 where
  pub clearing :
      balance_of (platform platform_gateway_clearing) s'.accounts
      ≡ balance_of (platform platform_gateway_clearing) s.accounts
  pub payable :
      balance_of (owned business business_credit_payable) s'.accounts
      ≡ balance_of (owned business business_credit_payable) s.accounts
  pub business_pays :
      balance_of (owned business business_wallet) s'.accounts
      ≡ balance_of (owned business business_wallet) s.accounts -ℤ fare
  pub driver_earns :
      balance_of (owned driver driver_wallet) s'.accounts
      ≡ balance_of (owned driver driver_wallet) s.accounts +ℤ (fare -ℤ cut -ℤ tax)
  pub platform_earns :
      balance_of (platform platform_revenue) s'.accounts
      ≡ balance_of (platform platform_revenue) s.accounts +ℤ cut
  pub tax_due :
      balance_of (platform platform_tax_payable) s'.accounts
      ≡ balance_of (platform platform_tax_payable) s.accounts +ℤ tax

-- The shares of the three lists in the balance of each account.
module _ (business driver : ℕ) (fare cut tax : ℤ) where
  abbrev pub billed : AccountId → ℤ
  billed a = net a (
      fare_entries (owned business business_wallet) (owned driver driver_wallet)
        (platform platform_revenue) fare cut tax (tax_list tax))

  abbrev opened : AccountId → ℤ
  opened a =
      net a
        (from_to (platform platform_gateway_clearing) (owned business business_credit_payable) fare)

  abbrev closed : AccountId → ℤ
  closed a =
      net a
        (from_to (owned business business_credit_payable) (platform platform_gateway_clearing) fare)

  clearing_billed : billed (platform platform_gateway_clearing) ≡ pos 0
  unfolding net effect tax_list
  clearing_billed = grind int_laws

  clearing_opened : opened (platform platform_gateway_clearing) ≡ pos 0 -ℤ fare
  unfolding net effect
  clearing_opened = grind int_laws

  clearing_closed : closed (platform platform_gateway_clearing) ≡ fare
  unfolding net effect
  clearing_closed = grind int_laws

  clearing_net :
      opened (platform platform_gateway_clearing)
        +ℤ billed (platform platform_gateway_clearing)
        +ℤ closed (platform platform_gateway_clearing)
      ≡ pos 0
  clearing_net = rw (clearing_opened, clearing_billed, clearing_closed) (omega int_laws)

  payable_billed : billed (owned business business_credit_payable) ≡ pos 0
  unfolding net effect tax_list
  payable_billed = grind int_laws

  payable_opened : opened (owned business business_credit_payable) ≡ fare
  unfolding net effect
  payable_opened = grind int_laws

  payable_closed : closed (owned business business_credit_payable) ≡ pos 0 -ℤ fare
  unfolding net effect
  payable_closed = grind int_laws

  payable_net :
      opened (owned business business_credit_payable)
        +ℤ billed (owned business business_credit_payable)
        +ℤ closed (owned business business_credit_payable)
      ≡ pos 0
  payable_net = rw (payable_opened, payable_billed, payable_closed) (omega int_laws)

  wallet_billed : billed (owned business business_wallet) ≡ pos 0 -ℤ fare
  unfolding net effect tax_list
  wallet_billed = grind int_laws

  wallet_opened : opened (owned business business_wallet) ≡ pos 0
  unfolding net effect
  wallet_opened = grind int_laws

  wallet_closed : closed (owned business business_wallet) ≡ pos 0
  unfolding net effect
  wallet_closed = grind int_laws

  wallet_net :
      opened (owned business business_wallet)
        +ℤ billed (owned business business_wallet)
        +ℤ closed (owned business business_wallet)
      ≡ pos 0 -ℤ fare
  wallet_net = rw (wallet_opened, wallet_billed, wallet_closed) (omega int_laws)

  driver_billed : billed (owned driver driver_wallet) ≡ fare -ℤ cut -ℤ tax
  unfolding net effect tax_list
  driver_billed = grind int_laws

  driver_opened : opened (owned driver driver_wallet) ≡ pos 0
  unfolding net effect
  driver_opened = grind int_laws

  driver_closed : closed (owned driver driver_wallet) ≡ pos 0
  unfolding net effect
  driver_closed = grind int_laws

  driver_net :
      opened (owned driver driver_wallet)
        +ℤ billed (owned driver driver_wallet)
        +ℤ closed (owned driver driver_wallet)
      ≡ fare -ℤ cut -ℤ tax
  driver_net = rw (driver_opened, driver_billed, driver_closed) (omega int_laws)

  revenue_billed : billed (platform platform_revenue) ≡ cut
  unfolding net effect tax_list
  revenue_billed = grind int_laws

  revenue_opened : opened (platform platform_revenue) ≡ pos 0
  unfolding net effect
  revenue_opened = grind int_laws

  revenue_closed : closed (platform platform_revenue) ≡ pos 0
  unfolding net effect
  revenue_closed = grind int_laws

  revenue_net :
      opened (platform platform_revenue)
        +ℤ billed (platform platform_revenue)
        +ℤ closed (platform platform_revenue)
      ≡ cut
  revenue_net = rw (revenue_opened, revenue_billed, revenue_closed) (omega int_laws)

  tax_billed : pos 0 ≤ℤ tax → billed (platform platform_tax_payable) ≡ tax
  unfolding net effect tax_list
  tax_billed h = grind int_laws

  tax_opened : opened (platform platform_tax_payable) ≡ pos 0
  unfolding net effect
  tax_opened = grind int_laws

  tax_closed : closed (platform platform_tax_payable) ≡ pos 0
  unfolding net effect
  tax_closed = grind int_laws

  tax_net :
      pos 0 ≤ℤ tax
      → opened (platform platform_tax_payable)
          +ℤ billed (platform platform_tax_payable)
          +ℤ closed (platform platform_tax_payable)
        ≡ tax
  tax_net h = rw (tax_opened, tax_billed h, tax_closed) (omega int_laws)

module _ (business driver : ℕ) (fare cut tax : ℤ) (s s' : Books)
    (moved : (a : AccountId)
      → balance_of a s'.accounts
        ≡ balance_of a s.accounts
          +ℤ (opened business driver fare cut tax a
              +ℤ billed business driver fare cut tax a
              +ℤ closed business driver fare cut tax a)) where
  moved_by :
      (a : AccountId) (x : ℤ)
      → opened business driver fare cut tax a
          +ℤ billed business driver fare cut tax a
          +ℤ closed business driver fare cut tax a
        ≡ x
      → balance_of a s'.accounts ≡ balance_of a s.accounts +ℤ x
  moved_by a x e = moved a ∙ ap (λ y. balance_of a s.accounts +ℤ y) e

  settled : pos 0 ≤ℤ tax → InvoiceSettled business driver fare cut tax s s'
  settled h = record {
    clearing =
        rw
          (moved_by (platform platform_gateway_clearing) (pos 0)
            (clearing_net business driver fare cut tax))
          (omega int_laws);
    payable =
        rw
          (moved_by (owned business business_credit_payable) (pos 0)
            (payable_net business driver fare cut tax))
          (omega int_laws);
    business_pays =
        rw
          (moved_by (owned business business_wallet) (pos 0 -ℤ fare)
            (wallet_net business driver fare cut tax))
          (omega int_laws);
    driver_earns =
        moved_by (owned driver driver_wallet) (fare -ℤ cut -ℤ tax)
          (driver_net business driver fare cut tax);
    platform_earns =
        moved_by (platform platform_revenue) cut (revenue_net business driver fare cut tax);
    tax_due = moved_by (platform platform_tax_payable) tax (tax_net business driver fare cut tax h);
  }

-- The tax of a balanced list of lines is not negative.
payment_tax :
    (business driver : ℕ) (fare cut tax : ℤ)
    → net_total (
        fare_entries
          (owned business business_wallet)
          (owned driver driver_wallet)
          (platform platform_revenue)
          fare
          cut
          tax
          (tax_list tax))
      ≡ pos 0
    → pos 0 ≤ℤ tax
unfolding net_total tax_list
payment_tax business driver fare cut tax h = grind int_laws

-- A delivery is charged to a business and its invoice is paid, with the same amount and under new
-- references. Where both calls return, the clearing account and the business's payable are where they
-- were before the charge, the business's wallet has lost the fare, the driver's wallet has gained what
-- commission and tax leave of it, and revenue and tax account have gained commission and tax.
pub charge-pay_invoice :
    (business driver : ℕ) (fare cut : ℤ) (charge_ref pay_ref : Reference) (tax : ℤ) (s : Books)
    {r q : Reference × Transaction} {s₁ s₂ : Books}
    → find charge_ref s.transactions ≡ none
    → find pay_ref s₁.transactions ≡ none
    → find (settlement_of pay_ref) s₁.transactions ≡ none
    → charge_business_for_delivery business fare charge_ref s ≡ (ok r, s₁)
    → pay_invoice business driver fare cut pay_ref tax s₁ ≡ (ok q, s₂)
    → InvoiceSettled business driver fare cut tax s s₂
unfolding Paid
charge-pay_invoice business driver fare cut charge_ref pay_ref tax s {r} {q} {s₁} {s₂} n₁ n₂ n₃ e
      f =
    let paid =
      Ensures-ok (Paid business driver fare cut pay_ref tax s₁)
        (pay_invoice-Paid business driver fare cut pay_ref tax s₁ n₂ n₃) f in
    let p = params business_delivery_accrual charge_ref fare (
      from_to (platform platform_gateway_clearing) (owned business business_credit_payable) fare) in
    elim (Ensures-ok (Effect p s) (charge_business-Effect business fare charge_ref s) e).1 [
      | inl again ↦ absurd (cc (n₁, again.known))
      | inr d ↦
          settled business driver fare cut tax s s₂
            (λ a. paid.1 a ∙ rw (d.balances a) (omega int_laws))
            (payment_tax business driver fare cut tax paid.0)
    ]
