-- ===== src/Payments/Settlement.antt =====
-- What `settleCommission` (src/wallet/wallet.service.ts) does to the ledger, as one posting.
use kilo_backend.Prelude.{Option, ap, inl, inr, none, refl, some, ℕ, ◌∙◌, ◌≡◌}
use kilo_backend.Prelude.Action.{Ensures, Ensures-bind, pure, row_missing}
use kilo_backend.Prelude.Int.{ℤ}
use kilo_backend.Prelude.Keeps.{Keeps, Keeps-or_throw, Keeps-skip, keeps_rules, returned}
use kilo_backend.Prelude.Table.{find}
use kilo_backend.Wallet.Effects.{Effect, posted_after}
use kilo_backend.Wallet.Ledger.{
  AccountId, Books, DriverStatus, Reference, Transaction, account_key, balance_of,
  commission_settlement, driver_commission_payable, owned, platform, platform_revenue,
  reference_key,
}
use kilo_backend.Wallet.Lookup.{with_platform, with_user}
use kilo_backend.Wallet.Posting.{PostTransactionParams, find_account, post_transaction}
use kilo_backend.Wallet.Service.{
  from_to, lift_cap, params, settle_commission, unless_processed, update_driver,
}

-- The counter of cash trips is no part of the ledger.
module _ (s : Books) where
  SameLedger : Books → Type 0
  SameLedger u = (u.accounts ≡ s.accounts) × (u.transactions ≡ s.transactions)

  SameLedger-self : SameLedger s
  unfolding SameLedger
  SameLedger-self = (refl, refl)

  update_driver-SameLedger :
      (driver : ℕ) (f : DriverStatus → DriverStatus) → Keeps SameLedger (update_driver driver f)
  unfolding update_driver SameLedger
  update_driver-SameLedger driver f = record { at = λ u h. h }

  find_account-SameLedger : (id : AccountId) → Keeps SameLedger (find_account id)
  find_account-SameLedger id = record {
    at = λ u h. (Keeps-or_throw {P = SameLedger} row_missing (find id u.accounts)).at u h;
  }

  lift_cap-SameLedger : (driver : ℕ) (id : AccountId) → Keeps SameLedger (lift_cap driver id)
  unfolding lift_cap
  lift_cap-SameLedger driver id =
      search (keeps_rules, update_driver-SameLedger, find_account-SameLedger) depth 12

  unless_processed-SameLedger :
      (o : Option Transaction) (driver : ℕ) (id : AccountId)
      → Keeps SameLedger (unless_processed o (lift_cap driver id))
  unfolding unless_processed
  unless_processed-SameLedger none driver id = lift_cap-SameLedger driver id
  unless_processed-SameLedger (some _) driver id = Keeps-skip

abbrev pub settlement : ℕ → ℤ → Reference → PostTransactionParams
settlement driver amount reference =
    params commission_settlement reference amount
      (from_to (owned driver driver_commission_payable) (platform platform_revenue) amount)

Effect-SameLedger :
    (p : PostTransactionParams) (r : Reference × Transaction) (s u v : Books)
    → SameLedger u v
    → Effect p s r u
    → Effect p s r v
unfolding SameLedger
Effect-SameLedger p r s u v same (e, inl again) = (
  e,
  inl (record {
    known = again.known;
    same_transactions = same.1 ∙ again.same_transactions;
    same_balances = λ id. ap (balance_of id) same.0 ∙ again.same_balances id;
  }),
)
Effect-SameLedger p r s u v same (e, inr d) = (
  e,
  inr (record {
    fresh = d.fresh;
    row = d.row;
    balanced = d.balanced;
    added = same.1 ∙ d.added;
    balances = λ id. ap (balance_of id) same.0 ∙ d.balances id;
  }),
)

pub settle_commission-Effect :
    (driver : ℕ) (amount : ℤ) (reference : Reference) (s : Books)
    → Ensures
        (Effect (settlement driver amount reference) s)
        (settle_commission driver amount reference s)
unfolding settle_commission
settle_commission-Effect driver amount reference s =
    let p = settlement driver amount reference in
    with_user (Effect p s) driver driver_commission_payable _ s (λ s₁ g _.
      with_platform (Effect p s) platform_revenue _ s₁ (λ _ _.
        Ensures-bind (Effect p s) (Effect p s) (post_transaction p) _ s₁ (posted_after p s s₁ g)
          (λ r u effected.
            Ensures-bind (λ _ v. SameLedger u v) (Effect p s)
              (unless_processed (find reference s₁.transactions)
                (lift_cap driver (owned driver driver_commission_payable)))
              (λ _. pure r) u
              (returned (SameLedger u) _ u
                (unless_processed-SameLedger u (find reference s₁.transactions) driver
                  (owned driver driver_commission_payable))
                (SameLedger-self u))
              (λ _ v same. Effect-SameLedger p r s u v same effected))))
