-- ===== src/Partnerships/Referrals.antt =====
-- ReferralsService (src/partnerships/referrals.service.ts), over the wallet. A code in capitals is a
-- number; the random codes, the id of a new row and the bonus that is configured are arguments.
use kilo_backend.Prelude.{
  Bool, List, Option, [], false, holds, if◌then◌else◌, is_some, none, some, true, ℕ, ◌+◌, ◌==◌, ◌∷◌,
}
use kilo_backend.Prelude.Action.{
  Action, Result, bad_request, catch, conflict, gets, modify, not_found, or_throw, pure, throw,
  throw_if, unique_violation, ◌>>=◌, ◌>>◌,
}
use kilo_backend.Prelude.Int.{pos}
use kilo_backend.Prelude.Lists.{keep, some_of}
use kilo_backend.Prelude.Table.{Table, find, number_key, put, same?, update_where}
use kilo_backend.Wallet.Ledger.{
  AccountType, Books, Reference, driver_wallet, for_accrual, for_payout, rider_wallet,
}
use kilo_backend.Wallet.Service.{pay_referral_payout, record_referral_accrual}

pub data ReferralStatus : Type 0 where
  referral_pending referral_qualified referral_paid : ReferralStatus

-- A row of ReferralRedemption.
pub record Redemption : Type 0 where
  pub referrer : ℕ
  pub referred : ℕ
  pub earnings : ℕ
  pub status : ReferralStatus
  pub transaction_id : Option Reference

-- The codes with their users, the redemptions, and whether a user is a driver.
pub record Referrals : Type 0 where
  pub books : Books
  pub codes : Table ℕ ℕ
  pub redemption_rows : Table ℕ Redemption
  pub is_driver : ℕ → Bool

module _ {A : Type 0} where
  abbrev pub keep_wallet : Referrals → Result A × Books → Result A × Referrals
  keep_wallet s (r, b) = (r, record s { books = b })

  abbrev pub in_wallet : Action Books A → Action Referrals A
  in_wallet m s = keep_wallet s (m s.books)

-- The code of a user, whose code is unique.
abbrev pub code_of : ℕ → Table ℕ ℕ → Option ℕ
code_of user [] = none
code_of user ((c, u) ∷ t) = if u == user then some c else code_of user t

-- `referralCode.create`
unfoldable pub create_code_row : ℕ → ℕ → Action Referrals ℕ
create_code_row user code = do
  taken ← gets (λ s. is_some (find code s.codes))
  throw_if taken unique_violation
  again ← gets (λ s. is_some (code_of user s.codes))
  throw_if again unique_violation
  modify (λ s. record s { codes = put code user s.codes })
  pure code

-- The attempts, one for each random code; the last one's error is thrown.
unfoldable pub try_codes : ℕ → List ℕ → Action Referrals ℕ
unfolding create_code_row
try_codes user [] = throw unique_violation
try_codes user (c ∷ []) = create_code_row user c
try_codes user (c ∷ d ∷ cs) = catch (create_code_row user c) (λ _. try_codes user (d ∷ cs))

unfoldable pub keep_or_try : ℕ → List ℕ → Option ℕ → Action Referrals ℕ
unfolding try_codes
keep_or_try user codes none = try_codes user codes
keep_or_try user codes (some c) = pure c

unfoldable pub generate_code : ℕ → List ℕ → Action Referrals ℕ
unfolding keep_or_try
generate_code user codes = do
  existing ← gets (λ s. code_of user s.codes)
  keep_or_try user codes existing

abbrev pub was_referred : ℕ → Table ℕ Redemption → Bool
was_referred user t = some_of (λ r. r.1.referred == user) t

-- `referralRedemption.create`; a user is referred once.
abbrev pub add_redemption : ℕ → Redemption → Action Referrals (Unit {0})
add_redemption id r = do
  taken ← gets (λ s. was_referred r.referred s.redemption_rows)
  throw_if taken unique_violation
  modify (λ s. record s { redemption_rows = put id r s.redemption_rows })

abbrev pub qualified : ℕ → ℕ → ℕ → Redemption
qualified referrer referred bonus = record {
  referrer = referrer;
  referred = referred;
  earnings = bonus;
  status = referral_qualified;
  transaction_id = none;
}

unfoldable pub redeem : ℕ → ℕ → ℕ → ℕ → Action Referrals Redemption
redeem bonus id referred code = do
  found ← gets (λ s. find code s.codes)
  referrer ← or_throw not_found found
  throw_if (referrer == referred) bad_request
  existing ← gets (λ s. was_referred referred s.redemption_rows)
  throw_if existing conflict
  let r = qualified referrer referred bonus
  add_redemption id r
  in_wallet (record_referral_accrual (pos bonus) (for_accrual id))
  pure r

abbrev pub is_qualified : Redemption → Bool
is_qualified r = elim r.status [ referral_qualified ↦ true | _ ↦ false ]

abbrev pub wallet_type : Bool → AccountType
wallet_type true = driver_wallet
wallet_type false = rider_wallet

abbrev pub paid_out : Reference → Redemption → Redemption
paid_out tx r = record r { status = referral_paid; transaction_id = some tx }

-- One round of the loop of `processPayouts`.
unfoldable pub pay_one : ℕ × Redemption → Action Referrals (Unit {0})
pay_one (id, r) = do
  driver ← gets (λ s. s.is_driver r.referrer)
  tx ←
      in_wallet
        (pay_referral_payout r.referrer (wallet_type driver) (pos r.earnings) (for_payout id))
  modify (λ s. record s {
    redemption_rows = update_where (λ k _. holds (same? id k)) (paid_out tx.0) s.redemption_rows;
  })

unfoldable pub pay_each : ℕ → List (ℕ × Redemption) → Action Referrals ℕ
unfolding pay_one
pay_each count [] = pure count
pay_each count (r ∷ rs) = do pay_one r; pay_each (count + 1) rs

unfoldable pub process_payouts : Action Referrals ℕ
unfolding pay_each
process_payouts = do
  due_rows ← gets (λ s. keep (λ x. is_qualified x.1) s.redemption_rows)
  pay_each 0 due_rows
