-- ===== src/Wallet/Cash.antt =====
-- The debt of a driver from cash trips, and the counter behind the cap on cash trips.
use kilo_backend.Prelude.{
  ap, arith, holds, if◌then◌else◌, inl, inr, is_some, ite, none, sym, true, ℕ, ◌∙◌, ◌≡◌, ◌≢◌, ◌⊎◌,
}
use kilo_backend.Prelude.Action.{
  Ensures, Ensures-bind, Ensures-if, Ensures-ok, Ensures-or_throw, Ensures-weaken, ok, pure,
  row_missing, skip,
}
use kilo_backend.Prelude.Int.{int_laws, pos, ℤ, ◌+ℤ◌, ◌-ℤ◌}
use kilo_backend.Prelude.Table.{find, find-update_where, number_key, same?, update_where}
use kilo_backend.Wallet.Effect.{effect, net}
use kilo_backend.Wallet.Ledger.{
  AccountId, Books, DriverStatus, Reference, Transaction, TransactionType, account_key, balance_of,
  commission_settlement, driver_commission_payable, or_zero, owned, platform,
  platform_gateway_clearing, platform_revenue, reference_key, ride_payment_cash,
}
use kilo_backend.Wallet.Lookup.{Grown, with_platform, with_user}
use kilo_backend.Wallet.Outcome.{Outcome, Posted, post_transaction-Outcome}
use kilo_backend.Wallet.Posting.{PostTransactionParams, equals, post_transaction}
use kilo_backend.Wallet.Service.{
  clear_cash_rides, count_cash_ride, from_to, lift_cap, params, record_cash_commission,
  record_cash_ride_commission, settle_commission, unless_processed, update_driver,
}
use mathlib.Core.Option

-- What has happened to the status of one driver; the others are as they were.
abbrev pub DriverChanged : ℕ → (DriverStatus → DriverStatus) → Books → Books → Type 0
DriverChanged driver f s s' =
    (d : ℕ)
    → find d s'.drivers ≡ ite (same? d driver) (Option.map f (find d s.drivers)) (find d s.drivers)

-- The debt has grown by the amount, against the clearing account, and one more trip is counted.
pub record CashOwed (driver : ℕ) (amount : ℤ) (s s' : Books) : Type 0 where
  pub owes :
      balance_of (owned driver driver_commission_payable) s'.accounts
      ≡ balance_of (owned driver driver_commission_payable) s.accounts +ℤ amount
  pub clearing :
      balance_of (platform platform_gateway_clearing) s'.accounts
      ≡ balance_of (platform platform_gateway_clearing) s.accounts -ℤ amount
  pub counted : DriverChanged driver count_cash_ride s s'

module _ (driver : ℕ) (amount : ℤ) (reference : Reference) where
  -- A new reference is counted; a known one changes nothing.
  abbrev pub CashRecorded : Books → Reference × Transaction → Books → Type 0
  CashRecorded s _ s' =
      ((find reference s.transactions ≡ none) × CashOwed driver amount s s')
      ⊎ ((is_some (find reference s.transactions) ≡ true)
          × ((a : AccountId) → balance_of a s'.accounts ≡ balance_of a s.accounts)
          × (s'.drivers ≡ s.drivers))

module _ (type : TransactionType) (driver : ℕ) (amount : ℤ) (reference : Reference) where
  abbrev cash_params : PostTransactionParams
  cash_params =
      params type reference amount (
        from_to (platform platform_gateway_clearing) (owned driver driver_commission_payable)
          amount)

  net-owes : net (owned driver driver_commission_payable) cash_params.entries ≡ amount
  unfolding net effect
  net-owes = grind int_laws

  net-clearing : net (platform platform_gateway_clearing) cash_params.entries ≡ pos 0 -ℤ amount
  unfolding net effect
  net-clearing = grind int_laws

  counted_after :
      (s s₁ s₂ : Books) (t : Transaction)
      → Grown s s₁
      → Posted cash_params t s₁ s₂
      → CashOwed driver amount s (record s₂ {
        drivers = update_where (λ k _. holds (same? driver k)) count_cash_ride s₂.drivers;
      })
  counted_after s s₁ s₂ t g m = record {
    owes =
        m.balances (owned driver driver_commission_payable)
        ∙ rw (net-owes, g.balances (owned driver driver_commission_payable));
    clearing =
        m.balances (platform platform_gateway_clearing)
        ∙ rw (net-clearing, g.balances (platform platform_gateway_clearing)) (omega int_laws);
    counted =
        λ d. find-update_where d driver count_cash_ride s₂.drivers ∙ rw (m.drivers, g.drivers);
  }

  after_post :
      (s s₁ s₂ : Books) (r : Reference × Transaction)
      → Grown s s₁
      → Outcome cash_params s₁ r s₂
      → Ensures
          (λ _ s'. CashRecorded driver amount reference s r s')
          (unless_processed
            (find reference s₁.transactions)
            (update_driver driver count_cash_ride)
            s₂)
  unfolding unless_processed update_driver
  after_post s s₁ s₂ r g (_, inl (known, same)) =
      rw (known, same)
        (inr (rw (ap (find reference) (sym g.transactions), known), g.balances, g.drivers))
  after_post s s₁ s₂ r g (_, inr m) =
      rw m.fresh
        (inl (rw (ap (find reference) (sym g.transactions)) m.fresh, counted_after s s₁ s₂ r.1 g m))

  pub record_cash_commission_lem :
      (s : Books)
      → Ensures
          (CashRecorded driver amount reference s)
          (record_cash_commission type driver amount reference s)
  unfolding record_cash_commission
  record_cash_commission_lem s =
      with_user (CashRecorded driver amount reference s) driver driver_commission_payable _ s
        (λ s₁ g _.
          with_platform (CashRecorded driver amount reference s) platform_gateway_clearing _ s₁
            (λ _ _.
              Ensures-bind (Outcome cash_params s₁) (CashRecorded driver amount reference s)
                (post_transaction cash_params) _ s₁ (post_transaction-Outcome cash_params s₁)
                (λ r s₂ o.
                  Ensures-bind (λ _ s'. CashRecorded driver amount reference s r s')
                    (CashRecorded driver amount reference s)
                    (unless_processed (find reference s₁.transactions)
                      (update_driver driver count_cash_ride))
                    (λ _. pure r) s₂ (after_post s s₁ s₂ r g o) (λ _ _ k. k))))

-- Where `recordCashRideCommission` returns: under a new reference the driver's debt has grown by the
-- amount, the clearing account has fallen by it, and the cash trip counter of this driver, and of no
-- other, has gone up by one; under a known reference no balance and no counter has changed.
pub record_cash_ride_counts_once :
    (driver : ℕ) (amount : ℤ) (reference : Reference) (s : Books) {r : Reference × Transaction}
    {s' : Books}
    → record_cash_ride_commission driver amount reference s ≡ (ok r, s')
    → CashRecorded driver amount reference s r s'
unfolding record_cash_ride_commission
record_cash_ride_counts_once driver amount reference s e =
    Ensures-ok (CashRecorded driver amount reference s)
      (record_cash_commission_lem ride_payment_cash driver amount reference s) e

-- The debt has fallen by the amount, which is the platform's revenue now, and the counter has gone
-- back to 0 exactly where no debt is left.
pub record DebtSettled (driver : ℕ) (amount : ℤ) (s s' : Books) : Type 0 where
  pub owes :
      balance_of (owned driver driver_commission_payable) s'.accounts
      ≡ balance_of (owned driver driver_commission_payable) s.accounts -ℤ amount
  pub revenue :
      balance_of (platform platform_revenue) s'.accounts
      ≡ balance_of (platform platform_revenue) s.accounts +ℤ amount
  pub cleared :
      balance_of (owned driver driver_commission_payable) s'.accounts ≡ pos 0
      → DriverChanged driver clear_cash_rides s s'
  pub capped :
      balance_of (owned driver driver_commission_payable) s'.accounts ≢ pos 0
      → s'.drivers ≡ s.drivers

module _ (driver : ℕ) (amount : ℤ) (reference : Reference) where
  abbrev settle_params : PostTransactionParams
  settle_params =
      params commission_settlement reference amount
        (from_to (owned driver driver_commission_payable) (platform platform_revenue) amount)

  abbrev pub SettlementRecorded : Books → Reference × Transaction → Books → Type 0
  SettlementRecorded s _ s' =
      ((find reference s.transactions ≡ none) × DebtSettled driver amount s s')
      ⊎ ((is_some (find reference s.transactions) ≡ true)
          × ((a : AccountId) → balance_of a s'.accounts ≡ balance_of a s.accounts)
          × (s'.drivers ≡ s.drivers))

  net-settled : net (owned driver driver_commission_payable) settle_params.entries ≡ pos 0 -ℤ amount
  unfolding net effect
  net-settled = grind int_laws

  net-earned : net (platform platform_revenue) settle_params.entries ≡ amount
  unfolding net effect
  net-earned = grind int_laws

  module _ (s s₁ s₂ : Books) (t : Transaction) (g : Grown s s₁)
      (m : Posted settle_params t s₁ s₂) where
    settled_owes :
        balance_of (owned driver driver_commission_payable) s₂.accounts
        ≡ balance_of (owned driver driver_commission_payable) s.accounts -ℤ amount
    settled_owes =
        m.balances (owned driver driver_commission_payable)
        ∙ rw (net-settled, g.balances (owned driver driver_commission_payable)) (omega int_laws)

    settled_revenue :
        balance_of (platform platform_revenue) s₂.accounts
        ≡ balance_of (platform platform_revenue) s.accounts +ℤ amount
    settled_revenue =
        m.balances (platform platform_revenue)
        ∙ rw (net-earned, g.balances (platform platform_revenue))

    lifted :
        Ensures
          (λ _ s'. DebtSettled driver amount s s')
          (lift_cap driver (owned driver driver_commission_payable) s₂)
    unfolding lift_cap update_driver
    lifted =
        let id = owned driver driver_commission_payable in
        let Q : Unit {0} → Books → Type 0 = λ _ s'. DebtSettled driver amount s s' in
        Ensures-or_throw Q row_missing (find id s₂.accounts)
          (λ b. if equals b (pos 0) then update_driver driver clear_cash_rides else skip) s₂
          (λ b found.
            Ensures-if Q (equals b (pos 0)) (update_driver driver clear_cash_rides) skip s₂
              (λ is_zero. record {
                owes = settled_owes;
                revenue = settled_revenue;
                cleared = λ _ d.
                    find-update_where d driver clear_cash_rides s₂.drivers
                    ∙ rw (m.drivers, g.drivers);
                capped = λ debt. absurd (debt (rw found (ground arith)));
              })
              (λ not_zero. record {
                owes = settled_owes;
                revenue = settled_revenue;
                cleared = λ paid. absurd (ground (arith, ap or_zero found));
                capped = λ _. m.drivers ∙ g.drivers;
              }))

  settled_after :
      (s s₁ s₂ : Books) (r : Reference × Transaction)
      → Grown s s₁
      → Outcome settle_params s₁ r s₂
      → Ensures
          (λ _ s'. SettlementRecorded s r s')
          (unless_processed
            (find reference s₁.transactions)
            (lift_cap driver (owned driver driver_commission_payable))
            s₂)
  unfolding unless_processed
  settled_after s s₁ s₂ r g (_, inl (known, same)) =
      rw (known, same)
        (inr (rw (ap (find reference) (sym g.transactions), known), g.balances, g.drivers))
  settled_after s s₁ s₂ r g (_, inr m) = rw m.fresh (
      Ensures-weaken (λ _ s'. DebtSettled driver amount s s') (λ _ s'. SettlementRecorded s r s')
        (lift_cap driver (owned driver driver_commission_payable) s₂)
        (λ _ s' d. inl (rw (ap (find reference) (sym g.transactions)) m.fresh, d))
        (lifted s s₁ s₂ r.1 g m))

  settle_commission_lem :
      (s : Books) → Ensures (SettlementRecorded s) (settle_commission driver amount reference s)
  unfolding settle_commission
  settle_commission_lem s =
      with_user (SettlementRecorded s) driver driver_commission_payable _ s (λ s₁ g _.
        with_platform (SettlementRecorded s) platform_revenue _ s₁ (λ _ _.
          Ensures-bind (Outcome settle_params s₁) (SettlementRecorded s)
            (post_transaction settle_params) _ s₁ (post_transaction-Outcome settle_params s₁)
            (λ r s₂ o.
              Ensures-bind (λ _ s'. SettlementRecorded s r s') (SettlementRecorded s)
                (unless_processed (find reference s₁.transactions)
                  (lift_cap driver (owned driver driver_commission_payable)))
                (λ _. pure r) s₂ (settled_after s s₁ s₂ r g o) (λ _ _ k. k))))

  -- Where `settleCommission` returns: under a new reference the debt has fallen by the amount, which
  -- is revenue now, and the cash trip counter of the driver has gone back to 0 exactly where no debt
  -- is left; under a known reference no balance and no counter has changed.
  pub settle_commission_lifts_cap :
      (s : Books) {r : Reference × Transaction} {s' : Books}
      → settle_commission driver amount reference s ≡ (ok r, s')
      → SettlementRecorded s r s'
  settle_commission_lifts_cap s e = Ensures-ok (SettlementRecorded s) (settle_commission_lem s) e
