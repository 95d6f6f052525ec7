-- ===== src/Payments/Cards.antt =====
-- Saved cards and the start of a top-up (src/wallet/payments.service.ts). A token is the number in the
-- reference that it is for; what the methods show of a row is the row.
use kilo_backend.Payments.Store.{
  ChargeStatus, PaymentCard, Payments, Paystack, Role, TopUpMethod, TopUpPurpose, TopUpRequest,
  bank_transfer, card_setup, charge_abandoned, charge_failed, charge_reversed, charge_success,
  new_card, saved_card, top_up_pending, topup,
}
use kilo_backend.Payments.TopUps.{mark_top_up_failed, process_top_up_webhook_event}
use kilo_backend.Prelude.{
  Bool, Option, [], false, if◌then◌else◌, is_some, none, not, some, true, ℕ, ◌==◌, ◌∷◌,
}
use kilo_backend.Prelude.Action.{
  Action, Error, bad_request, catch, gateway_failed, gets, modify, not_found, or_throw, pure,
  row_missing, skip, throw, throw_if, unique_violation, ◌>>=◌, ◌>>◌,
}
use kilo_backend.Prelude.Int.{ℤ}
use kilo_backend.Prelude.Table.{Table, find, number_key, put, update_where}
use kilo_backend.Wallet.Ledger.{Reference, for_topup, reference_key}

abbrev pub find_user : ℕ → Action Payments Role
find_user user = do found ← gets (λ s. find user s.users); or_throw row_missing found

-- `topUpRequest.create`; the reference is unique
unfoldable pub create_request : Reference → TopUpRequest → Action Payments (Unit {0})
create_request reference r = do
  known ← gets (λ s. is_some (find reference s.requests))
  throw_if known unique_violation
  modify (λ s. record s { requests = put reference r s.requests })

abbrev pub new_request : ℕ → ℤ → TopUpMethod → TopUpPurpose → Bool → TopUpRequest
new_request user amount method purpose save = record {
  user = user;
  amount = amount;
  method = method;
  purpose = purpose;
  save_card = save;
  card_id = none;
  card_last4 = none;
  status = top_up_pending;
}

unfoldable pub find_owned_card : ℕ → ℕ → Action Payments PaymentCard
find_owned_card user card = do
  found ← gets (λ s. find card s.cards)
  c ← or_throw not_found found
  throw_if (not (c.user == user)) not_found
  pure c

abbrev pub set_default : Bool → PaymentCard → PaymentCard
set_default b c = record c { is_default = b }

abbrev pub update_cards : (ℕ → PaymentCard → Bool) → Bool → Action Payments (Unit {0})
update_cards p b = modify (λ s. record s { cards = update_where p (set_default b) s.cards })

unfoldable pub set_default_card : ℕ → ℕ → Action Payments (Unit {0})
unfolding find_owned_card
set_default_card user card = do
  find_owned_card user card
  update_cards (λ _ c. c.user == user) false
  update_cards (λ k _. k == card) true

abbrev pub remove_row : ℕ → Table ℕ PaymentCard → Table ℕ PaymentCard
remove_row card [] = []
remove_row card ((k, c) ∷ t) =
    let rest = remove_row card t in if k == card then rest else (k, c) ∷ rest

-- The most recent card of a user: the last row.
abbrev pub most_recent : ℕ → Table ℕ PaymentCard → Option ℕ
most_recent user [] = none
most_recent user ((k, c) ∷ t) =
    let later = most_recent user t in
    if is_some later then later else if c.user == user then some k else none

abbrev pub promote : Option ℕ → Action Payments (Unit {0})
promote none = skip
promote (some card) = update_cards (λ k _. k == card) true

unfoldable pub promote_next : ℕ → Bool → Action Payments (Unit {0})
promote_next user false = skip
promote_next user true = do next ← gets (λ s. most_recent user s.cards); promote next

abbrev pub charged : ℕ → Option ℕ → Bool
charged card none = false
charged card (some k) = k == card

abbrev pub forget_card : TopUpRequest → TopUpRequest
forget_card r = record r { card_id = none }

-- Requests that name the card forget it (`onDelete: SetNull`).
unfoldable pub remove_card : ℕ → ℕ → Action Payments (Unit {0})
unfolding find_owned_card promote_next
remove_card user card = do
  c ← find_owned_card user card
  modify (λ s. record s {
    cards = remove_row card s.cards;
    requests = update_where (λ _ r. charged card r.card_id) forget_card s.requests;
  })
  promote_next user c.is_default

module _ (paystack : Paystack) where
  abbrev pub after_charge : ℕ → Reference → ChargeStatus → Action Payments (Unit {0})
  after_charge new reference charge_success = process_top_up_webhook_event paystack new reference
  after_charge new reference charge_failed = mark_top_up_failed reference
  after_charge new reference charge_reversed = mark_top_up_failed reference
  after_charge new reference charge_abandoned = skip

  unfoldable pub charge_and_apply : ℕ → Reference → ℤ → ℕ → Action Payments (Unit {0})
  charge_and_apply new reference amount code = do
    status ← or_throw gateway_failed (paystack.charge_authorization reference amount code)
    after_charge new reference status

  -- The `catch` of `chargeSavedCard`.
  unfoldable pub charge_failed_with : Reference → Error → Action Payments (Unit {0})
  charge_failed_with reference e = do mark_top_up_failed reference; throw e

  unfoldable pub charge_saved_card : ℕ → ℕ → ℤ → Reference → Option ℕ → Action Payments TopUpRequest
  unfolding find_owned_card create_request charge_and_apply charge_failed_with
  charge_saved_card new user amount reference card_id = do
    card ← or_throw bad_request card_id
    c ← find_owned_card user card
    create_request reference (record (new_request user amount saved_card topup false) {
      card_id = some card;
      card_last4 = some c.last4;
    })
    catch (charge_and_apply new reference amount c.authorization_code)
        (charge_failed_with reference)
    found ← gets (λ s. find reference s.requests)
    or_throw row_missing found

  -- The row first, so that a fast webhook finds it.
  unfoldable pub start_checkout : Reference → TopUpRequest → Action Payments TopUpRequest
  unfolding create_request
  start_checkout reference r = do
    create_request reference r
    or_throw gateway_failed (paystack.initialize_transaction reference r.amount)
    pure r

  unfoldable pub start_transfer : Reference → TopUpRequest → Action Payments TopUpRequest
  unfolding create_request
  start_transfer reference r = do
    or_throw gateway_failed (paystack.charge_bank_transfer reference r.amount)
    create_request reference r
    pure r

  unfoldable pub initiate_top_up :
      ℕ → ℕ → ℤ → TopUpMethod → Option ℕ → Bool → ℕ → Action Payments TopUpRequest
  unfolding charge_saved_card start_transfer start_checkout
  initiate_top_up new user amount saved_card card_id save token = do
    find_user user
    charge_saved_card new user amount (for_topup token) card_id
  initiate_top_up new user amount bank_transfer card_id save token = do
    find_user user
    start_transfer (for_topup token) (new_request user amount bank_transfer topup false)
  initiate_top_up new user amount new_card card_id save token = do
    find_user user
    start_checkout (for_topup token) (new_request user amount new_card topup save)

  -- `setup` is the amount of the platform's configuration.
  unfoldable pub initiate_card_setup : ℕ → ℤ → ℕ → Action Payments TopUpRequest
  unfolding start_checkout
  initiate_card_setup user setup token = do
    find_user user
    start_checkout (for_topup token) (new_request user setup new_card card_setup true)
