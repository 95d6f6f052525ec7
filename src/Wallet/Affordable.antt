-- ===== src/Wallet/Affordable.antt =====
-- A ride or a delivery is paid from the wallet exactly where the balance covers the fare.
use kilo_backend.Prelude.{
  Bool, Bool-cases, List, Option, Option-cases, ap, arith, false, inl, inr, is_some, none, refl,
  some, sym, true, ℕ, ◌∙◌, ◌∷◌, ◌≡◌,
}
use kilo_backend.Prelude.Action.{Action, Result, conflict, err, go_on, ok, or_throw, ◌>>=◌}
use kilo_backend.Prelude.Int.{int_laws, leb_ℤ, pos, ℤ, ◌-ℤ◌, ◌≤ℤ◌}
use kilo_backend.Prelude.Lists.{All}
use kilo_backend.Prelude.Table.{find, find-put_self, put}
use kilo_backend.Wallet.Effect.{net_total, net_total_lem}
use kilo_backend.Wallet.Ledger.{
  AccountId, AccountType, Books, LedgerEntryInput, Reference, TransactionType, account_key,
  balance_of, credit, driver_wallet, or_zero, owned, platform, platform_revenue,
  platform_tax_payable, reference_key, ride_payment_wallet, rider_wallet,
}
use kilo_backend.Wallet.Lookup.{Grown, Grown-refl, Grown-trans, or_create-Grown, tax_list}
use kilo_backend.Wallet.Posting.{equals, post_transaction, total_credits, total_debits}
use kilo_backend.Wallet.Service.{
  Account, entry, get_or_create_user_account, get_platform_account, or_create, params, pay_fare,
  pay_for_ride, tax_entries,
}
use kilo_backend.Wallet.Verdicts.{
  AllKnown, IsCredit, IsKnown, Returns, Verdict, covered_post, payer_line, short_post,
}
use mathlib.Core.Path.{subst}

-- The rest of a block, after each lookup, for any property of its end.
module _ {B : Type 0} (P : Result B × Books → Type 0) where
  or_create_end :
      (id : AccountId) (o : Option ℤ) (f : Account → Action Books B) (s : Books)
      → find id s.accounts ≡ o
      → ((s' : Books)
          → Grown s s'
          → find id s'.accounts ≡ some (balance_of id s.accounts)
          → P (f (id, balance_of id s.accounts) s'))
      → P (go_on f (or_create id o s))
  unfolding or_create
  or_create_end id (some b) f s e k =
      let same : balance_of id s.accounts ≡ b = ap or_zero e in
      subst (λ x. P (f (id, x) s)) same (k s (Grown-refl s) (rw e))
  or_create_end id none f s e k =
      let same : balance_of id s.accounts ≡ pos 0 = ap or_zero e in
      let s' : Books = record s { accounts = put id (pos 0) s.accounts } in
      subst (λ x. P (f (id, x) s')) same
        (k s' (unfold or_create in or_create-Grown id none s e)
          (rw (find-put_self id (pos 0) s.accounts, same)))

  user_end :
      (owner : ℕ) (type : AccountType) (f : Account → Action Books B) (s : Books)
      → ((s' : Books)
          → Grown s s'
          → find (owned owner type) s'.accounts ≡ some (balance_of (owned owner type) s.accounts)
          → P (f (owned owner type, balance_of (owned owner type) s.accounts) s'))
      → P ((get_or_create_user_account owner type >>= f) s)
  unfolding get_or_create_user_account
  user_end owner type f s k =
      or_create_end (owned owner type) (find (owned owner type) s.accounts) f s refl k

  platform_end :
      (type : AccountType) (f : Account → Action Books B) (s : Books) (b : ℤ)
      → find (platform type) s.accounts ≡ some b
      → P (f (platform type, b) s)
      → P ((get_platform_account type >>= f) s)
  unfolding get_platform_account
  platform_end type f s b found k = rw (found, go_on, or_throw) k

  taxes_end :
      (tax : ℤ) (f : List LedgerEntryInput → Action Books B) (s : Books) (b : ℤ)
      → find (platform platform_tax_payable) s.accounts ≡ some b
      → P (f (tax_list tax) s)
      → P ((tax_entries tax >>= f) s)
  unfolding tax_entries tax_list get_platform_account
  taxes_end tax f s b found k = elim (Bool-cases (leb_ℤ tax (pos 0))) [
    | inl none_due ↦ rw none_due (rw none_due at k)
    | inr due ↦ rw (due, found, go_on, or_throw) (rw due at k)
  ]

equal_totals :
    (es : List LedgerEntryInput)
    → net_total es ≡ pos 0
    → equals (total_debits es) (total_credits es) ≡ true
equal_totals es h = ground (arith, fair_totals)
  where
    fair_totals : total_debits es ≡ total_credits es
    fair_totals = grind (int_laws, net_total_lem es, h)

conflict-Verdict :
    {A : Type 0} (short : Bool) {s s' : Books} (x : Result A × Books)
    → short ≡ false
    → Grown s s'
    → x ≡ (err conflict, s')
    → Verdict short s x
conflict-Verdict short {s} {s'} x e g f = rw (e, f) (refl, g.balances)

return-Verdict :
    {A : Type 0} (enough : Bool) (s : Books) (x : Result A × Books)
    → enough ≡ true
    → Returns x
    → Verdict enough s x
return-Verdict enough s (ok a, s') e h = rw e tt
return-Verdict enough s (err x, s') e h = absurd h

module _ (type : TransactionType) (payer driver : ℕ) (fare cut : ℤ) (reference : Reference)
    (tax : ℤ) (s : Books) (fresh : find reference s.transactions ≡ none)
    (revenue_known : is_some (find (platform platform_revenue) s.accounts) ≡ true)
    (tax_known : is_some (find (platform platform_tax_payable) s.accounts) ≡ true)
    (taxed : pos 0 ≤ℤ tax) where
  abbrev credits : List LedgerEntryInput
  credits =
      entry (owned driver driver_wallet) credit (fare -ℤ cut -ℤ tax)
      ∷ entry (platform platform_revenue) credit cut
      ∷ tax_list tax

  credits-IsCredit : All IsCredit credits
  unfolding tax_list
  credits-IsCredit = ground arith

  lines_even : net_total (payer_line payer rider_wallet fare ∷ credits) ≡ pos 0
  unfolding net_total tax_list
  lines_even = grind int_laws

  credits_known :
      (u : Books)
      → IsKnown (owned driver driver_wallet) u
      → IsKnown (platform platform_revenue) u
      → IsKnown (platform platform_tax_payable) u
      → AllKnown credits u
  unfolding AllKnown tax_list IsKnown
  credits_known u a b c = ground arith

  enough : Bool
  enough = leb_ℤ fare (balance_of (owned payer rider_wallet) s.accounts)

  posted-Verdict :
      (u : Books)
      → Grown s u
      → is_some (find (owned payer rider_wallet) u.accounts) ≡ true
      → is_some (find (owned driver driver_wallet) u.accounts) ≡ true
      → Verdict enough s (
          post_transaction
            (params type reference fare (payer_line payer rider_wallet fare ∷ credits))
            u)
  unfolding enough IsKnown
  posted-Verdict u g payer_known driver_known =
      elim (Option-cases (find (owned payer rider_wallet) u.accounts)) [
        | inl gone ↦ absurd (ground (arith, payer_known))
        | inr (b, found) ↦
            let same : b ≡ balance_of (owned payer rider_wallet) s.accounts =
              sym (ap or_zero found) ∙ g.balances (owned payer rider_wallet) in
            let new : find reference u.transactions ≡ none = rw g.transactions fresh in
            let even = equal_totals (payer_line payer rider_wallet fare ∷ credits) lines_even in
            let there =
              credits_known u driver_known (g.known (platform platform_revenue) revenue_known)
                (g.known (platform platform_tax_payable) tax_known) in
            elim (Bool-cases (leb_ℤ fare b)) [
              | inl yes_covers ↦ return-Verdict enough s _ (rw (sym same) yes_covers) (
                  covered_post type reference fare payer rider_wallet fare b credits u new found
                    even credits-IsCredit there yes_covers)
              | inr short ↦ conflict-Verdict enough _ (rw (sym same) short) g (
                  short_post type reference fare payer rider_wallet fare b credits u new found even
                    credits-IsCredit there short)
            ]
      ]

  pay_fare-Verdict : Verdict enough s (pay_fare type payer driver fare cut reference tax s)
  unfolding pay_fare
  pay_fare-Verdict = user_end (Verdict enough s) payer rider_wallet _ s (λ s₁ g₁ p₁.
      user_end (Verdict enough s) driver driver_wallet _ s₁ (λ s₂ g₂ p₂.
        let g = Grown-trans g₁ g₂ in
        elim (Option-cases (find (platform platform_revenue) s₂.accounts)) [
          | inl gone ↦ absurd (ground (arith, g.known (platform platform_revenue) revenue_known))
          | inr (b, found) ↦
              platform_end (Verdict enough s) platform_revenue _ s₂ b found
                (elim (Option-cases (find (platform platform_tax_payable) s₂.accounts)) [
                  | inl gone ↦
                      absurd (ground (arith, g.known (platform platform_tax_payable) tax_known))
                  | inr (c, found') ↦
                      taxes_end (Verdict enough s) tax _ s₂ c found'
                        (posted-Verdict s₂ g (g₂.known (owned payer rider_wallet) (rw p₁)) (rw p₂))
                ])
        ]))

-- Under a new reference, with the platform's revenue and tax accounts in place and a tax that is not
-- negative, `payForRide` returns where the rider's balance covers the fare; otherwise it throws a
-- conflict and moves no balance.
pub pay_for_ride-Verdict :
    (rider driver : ℕ) (fare cut : ℤ) (reference : Reference) (tax : ℤ) (s : Books)
    → find reference s.transactions ≡ none
    → is_some (find (platform platform_revenue) s.accounts) ≡ true
    → is_some (find (platform platform_tax_payable) s.accounts) ≡ true
    → pos 0 ≤ℤ tax
    → Verdict
        (leb_ℤ fare (balance_of (owned rider rider_wallet) s.accounts))
        s
        (pay_for_ride rider driver fare cut reference tax s)
unfolding pay_for_ride enough
pay_for_ride-Verdict rider driver fare cut reference tax s fresh revenue taxes taxed =
    pay_fare-Verdict ride_payment_wallet rider driver fare cut reference tax s fresh revenue taxes
      taxed
