-- ===== src/Payments/Steps.antt =====
-- The steps of crediting a top-up to the ledger (src/wallet/payments.service.ts).
use kilo_backend.Payments.Settlement.{settle_commission-Effect, settlement}
use kilo_backend.Payments.TopUps.{credit_plain}
use kilo_backend.Prelude.{ap, inl, inr, is_some, none, true, ℕ, ◌≡◌, ◌≢◌}
use kilo_backend.Prelude.Action.{Ensures, Ensures-bind, Ensures-weaken, skip}
use kilo_backend.Prelude.Int.{int_laws, ℤ, ◌+ℤ◌, ◌-ℤ◌}
use kilo_backend.Prelude.Table.{find, find-put_ne, find-put_self}
use kilo_backend.Wallet.Effect.{effect, net}
use kilo_backend.Wallet.Effects.{Effect, top_up-Effect, top_up_params}
use kilo_backend.Wallet.Ledger.{
  Books, Reference, Transaction, account_key, balance_of, driver_commission_payable, owned,
  reference_key, rider_wallet,
}
use kilo_backend.Wallet.Posting.{PostTransactionParams}
use kilo_backend.Wallet.Service.{settle_commission, top_up}

-- What a user has: the spendable balance less the commission that is owed.
abbrev pub worth : ℕ → Books → ℤ
worth user s =
    balance_of (owned user rider_wallet) s.accounts
    -ℤ balance_of (owned user driver_commission_payable) s.accounts

pub record CreditStep (user : ℕ) (x : ℤ) (q : Reference) (s s' : Books) : Type 0 where
  pub raised : worth user s' ≡ worth user s +ℤ x
  pub recorded : is_some (find q s'.transactions) ≡ true
  pub others : (j : Reference) → j ≢ q → find j s'.transactions ≡ find j s.transactions

raises :
    (p : PostTransactionParams) (user : ℕ) (x : ℤ) (s s' : Books) (r : Reference × Transaction)
    → find p.reference s.transactions ≡ none
    → net (owned user rider_wallet) p.entries
      ≡ net (owned user driver_commission_payable) p.entries +ℤ x
    → Effect p s r s'
    → CreditStep user x p.reference s s'
raises p user x s s' r new gain (e, inl again) = absurd (cc (new, again.known))
raises p user x s s' r new gain (e, inr d) = record {
  raised = grind (
    int_laws,
    d.balances (owned user rider_wallet),
    d.balances (owned user driver_commission_payable),
    gain,
  );
  recorded = rw d.added (ap is_some (find-put_self p.reference r.1 s.transactions));
  others = λ j apart. rw d.added (find-put_ne j p.reference r.1 s.transactions apart);
}

module _ (user : ℕ) (x : ℤ) (q : Reference) (s : Books) (new : find q s.transactions ≡ none) where
  Stepped : Books → Type 0
  Stepped = CreditStep user x q s

  top_up-CreditStep : Ensures (λ _ s'. CreditStep user x q s s') (top_up user x q none s)
  unfolding top_up_params net effect
  top_up-CreditStep =
      Ensures-weaken (Effect (top_up_params user x q none) s) (λ _ s'. CreditStep user x q s s')
        (top_up user x q none s)
        (λ r s' e. raises (top_up_params user x q none) user x s s' r new (grind int_laws) e)
        (top_up-Effect user x q none s)

  pub settle-CreditStep : Ensures (λ _ s'. CreditStep user x q s s') (settle_commission user x q s)
  unfolding net effect
  settle-CreditStep =
      Ensures-weaken (Effect (settlement user x q) s) (λ _ s'. CreditStep user x q s s')
        (settle_commission user x q s)
        (λ r s' e. raises (settlement user x q) user x s s' r new (grind int_laws) e)
        (settle_commission-Effect user x q s)

  pub credit_plain-CreditStep : Ensures (λ _ s'. CreditStep user x q s s') (credit_plain user x q s)
  unfolding credit_plain
  credit_plain-CreditStep =
      Ensures-bind (λ _ s'. CreditStep user x q s s') (λ _ s'. CreditStep user x q s s')
        (top_up user x q none) (λ _. skip) s top_up-CreditStep (λ _ s' h. h)
