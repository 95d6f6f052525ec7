-- ===== src/Wallet/Fares.antt =====
-- Who pays and who earns when a fare is paid from a wallet: `payForRide` and `payForDelivery`.
use kilo_backend.Prelude.{List, ap, inl, inr, none, ℕ, ◌∙◌, ◌≡◌, ◌≢◌}
use kilo_backend.Prelude.Action.{Ensures-ok, ok}
use kilo_backend.Prelude.Int.{int_laws, pos, ℤ, ◌+ℤ◌, ◌-ℤ◌, ◌≤ℤ◌}
use kilo_backend.Prelude.Table.{find}
use kilo_backend.Wallet.Effect.{effect, net, net_total}
use kilo_backend.Wallet.Effects.{Done, Effect, fare_params, pay_fare-Effect}
use kilo_backend.Wallet.Ledger.{
  AccountId, Books, LedgerEntryInput, Reference, Transaction, TransactionType, account_key,
  balance_of, driver_wallet, owned, platform, platform_revenue, platform_tax_payable, reference_key,
  ride_payment_wallet, rider_wallet,
}
use kilo_backend.Wallet.Lookup.{tax_list}
use kilo_backend.Wallet.Service.{fare_entries, pay_fare, pay_for_ride}

-- The payer loses the fare, which driver, platform and tax account share; no other balance moves.
pub record FarePaid (payer driver : ℕ) (fare cut tax : ℤ) (s s' : Books) : Type 0 where
  pub payer_pays :
      balance_of (owned payer rider_wallet) s'.accounts
      ≡ balance_of (owned payer rider_wallet) s.accounts -ℤ fare
  pub driver_earns :
      balance_of (owned driver driver_wallet) s'.accounts
      ≡ balance_of (owned driver driver_wallet) s.accounts +ℤ (fare -ℤ cut -ℤ tax)
  pub platform_earns :
      balance_of (platform platform_revenue) s'.accounts
      ≡ balance_of (platform platform_revenue) s.accounts +ℤ cut
  pub tax_due :
      balance_of (platform platform_tax_payable) s'.accounts
      ≡ balance_of (platform platform_tax_payable) s.accounts +ℤ tax
  pub others :
      (id : AccountId)
      → id ≢ owned payer rider_wallet
      → id ≢ owned driver driver_wallet
      → id ≢ platform platform_revenue
      → id ≢ platform platform_tax_payable
      → balance_of id s'.accounts ≡ balance_of id s.accounts

module _ (payer driver : ℕ) (fare cut tax : ℤ) where
  abbrev lines : List LedgerEntryInput
  lines =
      fare_entries (owned payer rider_wallet) (owned driver driver_wallet)
        (platform platform_revenue) fare cut tax (tax_list tax)

  net-payer : net (owned payer rider_wallet) lines ≡ pos 0 -ℤ fare
  unfolding net effect tax_list
  net-payer = grind int_laws

  net-driver : net (owned driver driver_wallet) lines ≡ fare -ℤ cut -ℤ tax
  unfolding net effect tax_list
  net-driver = grind int_laws

  net-revenue : net (platform platform_revenue) lines ≡ cut
  unfolding net effect tax_list
  net-revenue = grind int_laws

  net-tax : pos 0 ≤ℤ tax → net (platform platform_tax_payable) lines ≡ tax
  unfolding net effect tax_list
  net-tax h = grind int_laws

  net-others :
      (id : AccountId)
      → id ≢ owned payer rider_wallet
      → id ≢ owned driver driver_wallet
      → id ≢ platform platform_revenue
      → id ≢ platform platform_tax_payable
      → net id lines ≡ pos 0
  unfolding net effect tax_list
  net-others id a b c d = grind int_laws

  tax_nonneg : net_total lines ≡ pos 0 → pos 0 ≤ℤ tax
  unfolding net_total tax_list
  tax_nonneg h = grind int_laws

  pub Done-FarePaid :
      (type : TransactionType) (reference : Reference) (t : Transaction) (s s' : Books)
      → Done (fare_params type payer driver fare cut reference tax) t s s'
      → FarePaid payer driver fare cut tax s s'
  unfolding fare_params
  Done-FarePaid type reference t s s' d = record {
    payer_pays = d.balances (owned payer rider_wallet) ∙ rw net-payer (grind int_laws);
    driver_earns =
        d.balances (owned driver driver_wallet)
        ∙ ap (λ x. balance_of (owned driver driver_wallet) s.accounts +ℤ x) net-driver;
    platform_earns =
        d.balances (platform platform_revenue)
        ∙ ap (λ x. balance_of (platform platform_revenue) s.accounts +ℤ x) net-revenue;
    tax_due =
        d.balances (platform platform_tax_payable)
        ∙ ap (λ x. balance_of (platform platform_tax_payable) s.accounts +ℤ x)
            (net-tax (tax_nonneg d.balanced));
    others = λ id a b c e. d.balances id ∙ rw (net-others id a b c e) (grind int_laws);
  }

-- A fare that was paid under a new reference.
pay_fare-FarePaid :
    (type : TransactionType) (payer driver : ℕ) (fare cut : ℤ) (reference : Reference) (tax : ℤ)
    (s : Books) {r : Reference × Transaction} {s' : Books}
    → find reference s.transactions ≡ none
    → pay_fare type payer driver fare cut reference tax s ≡ (ok r, s')
    → FarePaid payer driver fare cut tax s s'
unfolding fare_params
pay_fare-FarePaid type payer driver fare cut reference tax s {r} {s'} fresh e =
    elim (Ensures-ok (Effect (fare_params type payer driver fare cut reference tax) s)
      (pay_fare-Effect type payer driver fare cut reference tax s) e).1 [
        | inl again ↦ absurd (cc (fresh, again.known))
        | inr d ↦ Done-FarePaid payer driver fare cut tax type reference r.1 s s' d
      ]

-- Where `payForRide` returns under a reference that was new, the rider's wallet has lost exactly the
-- fare, the driver's has gained what commission and tax leave of it, the platform's revenue the
-- commission and the tax account the tax, and no other balance has moved.
pub pay_for_ride_moves_fare :
    (rider driver : ℕ) (fare cut : ℤ) (reference : Reference) (tax : ℤ) (s : Books)
    {r : Reference × Transaction} {s' : Books}
    → find reference s.transactions ≡ none
    → pay_for_ride rider driver fare cut reference tax s ≡ (ok r, s')
    → FarePaid rider driver fare cut tax s s'
unfolding pay_for_ride
pay_for_ride_moves_fare rider driver fare cut reference tax s fresh e =
    pay_fare-FarePaid ride_payment_wallet rider driver fare cut reference tax s fresh e
