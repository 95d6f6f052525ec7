-- ===== src/Payments/Examples.antt =====
-- Top-ups on small books, and the theorem at inputs that meet its hypothesis.
use kilo_backend.Payments.Cards.{new_request}
use kilo_backend.Payments.Credits.{CreditedOnce, credit_once-CreditedOnce}
use kilo_backend.Payments.Store.{
  Payments, VerifyTransactionResult, charge_success, driver_role, new_card, topup,
}
use kilo_backend.Payments.TopUps.{
  already_credited, apply_credit, apply_success, apply_verified_top_up, complete_found,
  complete_top_up_request, credit_driver, credit_once, credit_plain, credit_rest, credit_user,
  save_card_of, save_signed, saved_card_id, settle_and_credit, upsert_card,
}
use kilo_backend.Payments.Webhooks.{apply_verified_top_up_again}
use kilo_backend.Prelude.{[], is_some, refl, some, true, ℕ_discrete, ◌∷◌, ◌≡◌}
use kilo_backend.Prelude.Action.{ok}
use kilo_backend.Prelude.Int.{pos, ◌+ℤ◌, ◌-ℤ◌}
use kilo_backend.Prelude.Table.{find, number_key}
use kilo_backend.Wallet.History.{seeded}
use kilo_backend.Wallet.Ledger.{
  AccountId-discrete, AccountType-discrete, Books, Reference-discrete, account_key, balance_of,
  driver_commission_payable, for_topup, owned, reference_key, rider_wallet,
}
use kilo_backend.Wallet.Posting.{
  collides, create_transaction, new_transaction, post_all, post_entry, post_new, post_transaction,
  post_transaction_entries, sum_amounts,
}
use kilo_backend.Wallet.Service

-- Unfolding this opens what a top-up calls.
unfoldable opened_credits : Unit {0}
unfolding credit_once already_credited credit_user credit_driver settle_and_credit credit_rest
    credit_plain Service.top_up Service.settle_commission Service.get_or_create_user_account
    Service.get_platform_account Service.unless_processed Service.update_driver Service.lift_cap
    post_transaction post_transaction_entries post_new post_all post_entry create_transaction
    new_transaction sum_amounts collides AccountId-discrete AccountType-discrete Reference-discrete
    ℕ_discrete ◌+ℤ◌ ◌-ℤ◌
opened_credits = tt

-- Driver 4 owes 300.00.
abbrev indebted : Books
indebted = record seeded {
  accounts = (owned 4 driver_commission_payable, pos 30000) ∷ seeded.accounts;
}

abbrev credited : Books
credited = (credit_once driver_role 4 (pos 50000) (for_topup 1) indebted).1

credit_once-CreditedOnce_example : CreditedOnce 4 (pos 50000) (for_topup 1) indebted credited
unfolding opened_credits
credit_once-CreditedOnce_example =
    credit_once-CreditedOnce driver_role 4 (pos 50000) (for_topup 1) indebted refl

-- 300.00 settle the debt and 200.00 are credited.
split_sample :
    (balance_of (owned 4 driver_commission_payable) credited.accounts ≡ pos 0)
    × (balance_of (owned 4 rider_wallet) credited.accounts ≡ pos 20000)
unfolding opened_credits
split_sample = (refl, refl)

-- The driver's checkout of 500.00 is pending, and the card is to be saved.
abbrev waiting : Payments
waiting = record {
  books = indebted;
  users = (4, driver_role) ∷ [];
  requests = (for_topup 1, new_request 4 (pos 50000) new_card topup true) ∷ [];
  cards = [];
  withdrawals = [];
  notified = [];
}

abbrev verified : VerifyTransactionResult
verified = record {
  reference = for_topup 1;
  status = charge_success;
  user = some 4;
  amount = pos 50000;
  authorization = some (record {
    authorization_code = 77;
    last4 = 4081;
    is_card = true;
    reusable = true;
    signature = some 5;
  });
}

abbrev applied : Payments
applied = (apply_verified_top_up 9 verified charge_success waiting).1

apply_verified_top_up_again_example :
    apply_verified_top_up 10 verified charge_success applied ≡ (ok tt, applied)
unfolding opened_credits apply_verified_top_up apply_success apply_credit complete_top_up_request
    complete_found saved_card_id save_signed save_card_of upsert_card
apply_verified_top_up_again_example =
    apply_verified_top_up_again 9 10 verified charge_success waiting refl

applied_sample : (applied.notified ≡ for_topup 1 ∷ []) × (is_some (find 9 applied.cards) ≡ true)
unfolding opened_credits apply_verified_top_up apply_success apply_credit complete_top_up_request
    complete_found saved_card_id save_signed save_card_of upsert_card
applied_sample = (refl, refl)
