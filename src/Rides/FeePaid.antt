-- ===== src/Rides/FeePaid.antt =====
-- What a cancellation fee does to the ledger (src/rides/cancellation.service.ts).
use kilo_backend.Prelude.{List, [], ap, none, refl, ℕ, ◌+◌, ◌∙◌, ◌∷◌, ◌≡◌, ◌≢◌, ◌≤◌}
use kilo_backend.Prelude.Action.{
  Ensures, Ensures-bind, Ensures-ok, Ensures-throw_if, Ensures-transaction, Ensures-weaken, gets,
  modify, ok, pure, unique_violation, ◌>>=◌, ◌>>◌,
}
use kilo_backend.Prelude.Decimal.{Decimal, mul, of_kobo, to_kobo, to_kobo-of_kobo, ◌≤D◌}
use kilo_backend.Prelude.Int.{int_laws, pos, ℤ, ◌+ℤ◌, ◌-ℤ◌}
use kilo_backend.Prelude.Table.{find, put}
use kilo_backend.Pricing.Tariffs.{CommissionRule}
use kilo_backend.Rides.Cancellation.{
  fee_commission, minus, pay_fee, post_rounded, post_unless_known,
}
use kilo_backend.Rides.FeeShares.{fee_rounding}
use kilo_backend.Wallet.Effect.{effect, net, net_total}
use kilo_backend.Wallet.Ledger.{
  AccountId, Books, LedgerEntryInput, Reference, Transaction, account_key, balance_of,
  cancellation_of, credit, debit, driver_wallet, for_ride, owned, platform, platform_revenue,
  reference_key, ride_payment_wallet, rider_wallet,
}
use kilo_backend.Wallet.Lookup.{Grown, Grown-trans, with_platform, with_user}
use kilo_backend.Wallet.Posted.{Moves, post_all-Moves}
use kilo_backend.Wallet.Posting.{
  PostTransactionParams, collides, create_transaction, new_transaction, post_all,
}
use kilo_backend.Wallet.Service.{entry, params}

-- The rider has paid the fee; the driver has the rest of it after the commission of this rule, and the
-- platform the commission, each rounded to kobo, so that up to one kobo is made; no other balance
-- has moved.
pub record FeePaid (rider driver fee : ℕ) (rule : CommissionRule) (s s' : Books) : Type 0 where
  pub share : ℕ
  pub cut : ℕ
  pub share_of_fee : share ≡ to_kobo (minus (of_kobo fee) (mul (of_kobo fee) rule.rate))
  pub cut_of_fee : cut ≡ to_kobo (mul (of_kobo fee) rule.rate)
  pub rider_pays :
      balance_of (owned rider rider_wallet) s'.accounts
      ≡ balance_of (owned rider rider_wallet) s.accounts -ℤ pos fee
  pub driver_earns :
      balance_of (owned driver driver_wallet) s'.accounts
      ≡ balance_of (owned driver driver_wallet) s.accounts +ℤ pos share
  pub platform_earns :
      balance_of (platform platform_revenue) s'.accounts
      ≡ balance_of (platform platform_revenue) s.accounts +ℤ pos cut
  pub others :
      (id : AccountId)
      → id ≢ owned rider rider_wallet
      → id ≢ owned driver driver_wallet
      → id ≢ platform platform_revenue
      → balance_of id s'.accounts ≡ balance_of id s.accounts
  pub nothing_lost : fee ≤ share + cut
  pub at_most_one_made : share + cut ≤ fee + 1

-- The balances have moved by these entries.
Shifted : List LedgerEntryInput → Books → Books → Type 0
Shifted es s s' =
    (id : AccountId) → balance_of id s'.accounts ≡ balance_of id s.accounts +ℤ net id es

post_rounded_lem :
    (p : PostTransactionParams) (s : Books)
    → find p.reference s.transactions ≡ none
    → Ensures (λ _ s'. Shifted p.entries s s') (post_rounded p s)
unfolding post_rounded post_unless_known create_transaction Shifted
post_rounded_lem p s fresh =
    let Q : Reference × Transaction → Books → Type 0 = λ _ s'. Shifted p.entries s s' in
    Ensures-transaction Q
      (do existing ← gets (λ u. find p.reference u.transactions); post_unless_known p existing) s
      (rw fresh (
        Ensures-bind (λ _ s'. Moves (λ j. net j p.entries) (net_total p.entries) s s') Q
          (post_all p.entries []) (create_transaction p) s (post_all-Moves p.entries [] s)
          (λ after s' m.
            Ensures-throw_if Q (collides p s'.transactions) unique_violation
              (do
                let t = new_transaction p after
                modify (λ u. record u { transactions = put p.reference t u.transactions })
                pure (p.reference, t))
              s' (λ _. m.balances))))

module _ (rider driver : ℕ) (fee share cut : ℤ) where
  abbrev fee_lines : List LedgerEntryInput
  fee_lines =
      entry (owned rider rider_wallet) debit fee
      ∷ entry (owned driver driver_wallet) credit share
      ∷ entry (platform platform_revenue) credit cut
      ∷ []

  net-rider : net (owned rider rider_wallet) fee_lines ≡ pos 0 -ℤ fee
  unfolding net effect
  net-rider = grind int_laws

  net-driver : net (owned driver driver_wallet) fee_lines ≡ share
  unfolding net effect
  net-driver = grind int_laws

  net-revenue : net (platform platform_revenue) fee_lines ≡ cut
  unfolding net effect
  net-revenue = grind int_laws

  net-others :
      (id : AccountId)
      → id ≢ owned rider rider_wallet
      → id ≢ owned driver driver_wallet
      → id ≢ platform platform_revenue
      → net id fee_lines ≡ pos 0
  unfolding net effect
  net-others id a b c = grind int_laws

Shifted-FeePaid :
    (rider driver fee : ℕ) (rule : CommissionRule) (s s' : Books)
    → fee_commission (of_kobo fee) rule ≤D of_kobo fee
    → Shifted
        (fee_lines rider driver
          (pos (to_kobo (of_kobo fee)))
          (pos (to_kobo (minus (of_kobo fee) (fee_commission (of_kobo fee) rule))))
          (pos (to_kobo (fee_commission (of_kobo fee) rule))))
        s
        s'
    → FeePaid rider driver fee rule s s'
unfolding Shifted
Shifted-FeePaid rider driver fee rule s s' small shift =
    let part : Decimal = mul (of_kobo fee) rule.rate in
    let x : ℕ = to_kobo (minus (of_kobo fee) part) in
    let y : ℕ = to_kobo part in
    let paid : ℕ = to_kobo (of_kobo fee) in
    let whole : paid ≡ fee = to_kobo-of_kobo fee in
    let near = fee_rounding fee part small in
    record {
      share = x;
      cut = y;
      share_of_fee = refl;
      cut_of_fee = refl;
      rider_pays =
          shift (owned rider rider_wallet)
          ∙ rw (net-rider rider driver (pos paid) (pos x) (pos y)) (
              ap (λ k. balance_of (owned rider rider_wallet) s.accounts +ℤ (pos 0 -ℤ pos k)) whole
              ∙ grind int_laws);
      driver_earns =
          shift (owned driver driver_wallet)
          ∙ ap (λ z. balance_of (owned driver driver_wallet) s.accounts +ℤ z)
              (net-driver rider driver (pos paid) (pos x) (pos y));
      platform_earns =
          shift (platform platform_revenue)
          ∙ ap (λ z. balance_of (platform platform_revenue) s.accounts +ℤ z)
              (net-revenue rider driver (pos paid) (pos x) (pos y));
      others = λ id a b c.
          shift id
          ∙ rw (net-others rider driver (pos paid) (pos x) (pos y) id a b c) (grind int_laws);
      nothing_lost = near.0;
      at_most_one_made = near.1;
    }

Shifted-Grown :
    (es : List LedgerEntryInput) (s s₁ s' : Books) → Grown s s₁ → Shifted es s₁ s' → Shifted es s s'
unfolding Shifted
Shifted-Grown es s s₁ s' g h = λ id. h id ∙ ap (λ b. b +ℤ net id es) (g.balances id)

pay_fee_lem :
    (rider driver fee id : ℕ) (rule : CommissionRule) (s : Books)
    → fee_commission (of_kobo fee) rule ≤D of_kobo fee
    → find (cancellation_of (for_ride id)) s.transactions ≡ none
    → Ensures
        (λ _ s'. FeePaid rider driver fee rule s s')
        (pay_fee rider driver (of_kobo fee) (fee_commission (of_kobo fee) rule) id s)
unfolding pay_fee
pay_fee_lem rider driver fee id rule s small fresh =
    let Q : Reference × Transaction → Books → Type 0 = λ _ s'. FeePaid rider driver fee rule s s' in
    let part : Decimal = fee_commission (of_kobo fee) rule in
    let es : List LedgerEntryInput =
      fee_lines rider driver (pos (to_kobo (of_kobo fee)))
        (pos (to_kobo (minus (of_kobo fee) part))) (pos (to_kobo part)) in
    let p : PostTransactionParams =
      params ride_payment_wallet (cancellation_of (for_ride id)) (pos (to_kobo (of_kobo fee))) es in
    with_user Q rider rider_wallet _ s (λ s₁ g _. with_user Q driver driver_wallet _ s₁ (λ s₂ h _.
      with_platform Q platform_revenue _ s₂ (λ _ _.
        Ensures-weaken (λ _ s'. Shifted es s₂ s') Q (post_rounded p s₂)
          (λ _ s' shift.
            Shifted-FeePaid rider driver fee rule s s' small
              (Shifted-Grown es s s₂ s' (Grown-trans g h) shift))
          (post_rounded_lem p s₂
            (ap (find (cancellation_of (for_ride id))) (Grown-trans g h).transactions ∙ fresh)))))

-- Where the payment of a cancellation fee of whole kobo returns, under a new reference and with a
-- commission that is at most the fee: the rider has lost exactly the fee, the driver has what the
-- commission leaves of it and the platform the commission, each rounded to kobo, which together are
-- at least the fee and at most one kobo more, and no other balance has moved.
pub pay_fee_shares :
    (rider driver fee id : ℕ) (rule : CommissionRule) (s : Books) {r : Reference × Transaction}
    {s' : Books}
    → fee_commission (of_kobo fee) rule ≤D of_kobo fee
    → find (cancellation_of (for_ride id)) s.transactions ≡ none
    → pay_fee rider driver (of_kobo fee) (fee_commission (of_kobo fee) rule) id s ≡ (ok r, s')
    → FeePaid rider driver fee rule s s'
pay_fee_shares rider driver fee id rule s small fresh e =
    Ensures-ok (λ _ u. FeePaid rider driver fee rule s u)
      (pay_fee_lem rider driver fee id rule s small fresh) e
