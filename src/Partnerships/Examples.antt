-- ===== src/Partnerships/Examples.antt =====
-- Two referrals and their payout (src/partnerships/referrals.service.ts), on small tables.
use kilo_backend.Partnerships.Payouts.{PaidOut, payouts_once}
use kilo_backend.Partnerships.Referrals.{Referrals, pay_each, pay_one, process_payouts, redeem}
use kilo_backend.Prelude.{[], false, refl, ℕ_discrete, ◌∷◌, ◌≡◌}
use kilo_backend.Prelude.Action.{ok}
use kilo_backend.Prelude.Int.{pos, ◌+ℤ◌, ◌-ℤ◌}
use kilo_backend.Prelude.Table.{number_key}
use kilo_backend.Wallet.History.{seeded}
use kilo_backend.Wallet.Ledger.{
  AccountId-discrete, AccountType-discrete, Reference-discrete, balance_of, owned, platform,
  platform_referral_payable, rider_wallet,
}
use kilo_backend.Wallet.Posting.{
  collides, create_transaction, new_transaction, post_all, post_entry, post_new, post_transaction,
  post_transaction_entries, sum_amounts,
}
use kilo_backend.Wallet.Service

-- User 4 has code 77.
abbrev one_referrer : Referrals
one_referrer = record {
  books = seeded;
  codes = (77, 4) ∷ [];
  redemption_rows = [];
  is_driver = λ _. false;
}

abbrev two_referred : Referrals
two_referred = (redeem 50000 2 6 77 (redeem 50000 1 5 77 one_referrer).1).1

abbrev after_payouts : Referrals
after_payouts = (process_payouts two_referred).1

-- Unfolding this opens what the referrals call.
unfoldable opened_referrals : Unit {0}
unfolding redeem process_payouts pay_each pay_one Service.record_referral_accrual
    Service.pay_referral_payout Service.get_or_create_user_account Service.or_create
    Service.get_platform_account post_transaction post_transaction_entries post_new post_all
    post_entry create_transaction new_transaction sum_amounts collides AccountId-discrete
    AccountType-discrete Reference-discrete ℕ_discrete ◌+ℤ◌ ◌-ℤ◌
opened_referrals = tt

payouts_once_example :
    PaidOut 2 two_referred after_payouts × (process_payouts after_payouts ≡ (ok 0, after_payouts))
unfolding opened_referrals
payouts_once_example = payouts_once two_referred refl

-- The referrer has 1000.00, and nothing is payable any more.
payouts_sample :
    (balance_of (owned 4 rider_wallet) after_payouts.books.accounts ≡ pos 100000)
    × (balance_of (platform platform_referral_payable) after_payouts.books.accounts ≡ pos 0)
unfolding opened_referrals
payouts_sample = (refl, refl)
