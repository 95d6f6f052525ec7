-- ===== src/Payments/TopUps.antt =====
-- Top-ups (src/wallet/payments.service.ts): a payment that Paystack has verified is credited, and the
-- request for it is completed. The id of a card that is new is an argument.
use kilo_backend.Payments.Store.{
  Authorization, ChargeStatus, PaymentCard, Payments, Paystack, Role, TopUpRequest, TopUpStatus,
  VerifyTransactionResult, charge_abandoned, charge_failed, charge_reversed, charge_success,
  driver_role, on_books, other_role, top_up_completed, top_up_failed, top_up_pending,
}
use kilo_backend.Prelude.{
  Bool, Option, false, holds, if◌then◌else◌, is_some, none, not, some, true, ℕ, ◌&&◌, ◌==◌, ◌||◌,
  ◌∷◌,
}
use kilo_backend.Prelude.Action.{
  Action, catch, gateway_failed, gets, modify, not_found, or_throw, pure, row_missing, skip,
  throw_if, ◌>>=◌, ◌>>◌,
}
use kilo_backend.Prelude.Int.{ltb_ℤ, min_ℤ, pos, ℤ, ◌-ℤ◌}
use kilo_backend.Prelude.Lists.{first_of?, some_of}
use kilo_backend.Prelude.Table.{find, number_key, put, same?, update_where}
use kilo_backend.Wallet.Ledger.{
  Books, Reference, credit_of, driver_commission_payable, reference_key, settle_of,
}
use kilo_backend.Wallet.Service.{get_or_create_user_account, settle_commission, top_up}

abbrev pub is_pending : TopUpStatus → Bool
is_pending top_up_pending = true
is_pending _ = false

abbrev pub is_top_up_completed : TopUpStatus → Bool
is_top_up_completed top_up_completed = true
is_top_up_completed _ = false

abbrev pub fail_pending : TopUpRequest → TopUpRequest
fail_pending r = if is_pending r.status then record r { status = top_up_failed } else r

abbrev pub update_request : Reference → (TopUpRequest → TopUpRequest) → Action Payments (Unit {0})
update_request reference f =
    modify
      (λ s. record s { requests = update_where (λ k _. holds (same? reference k)) f s.requests })

unfoldable pub mark_top_up_failed : Reference → Action Payments (Unit {0})
mark_top_up_failed reference = update_request reference fail_pending

-- Credited under any of the references that a first pass can write?
unfoldable pub already_credited : Reference → Books → Bool
already_credited r b =
    is_some (find r b.transactions)
    || is_some (find (settle_of r) b.transactions)
    || is_some (find (credit_of r) b.transactions)

unfoldable pub credit_plain : ℕ → ℤ → Reference → Action Books (Unit {0})
credit_plain user amount r = do top_up user amount r none; skip

-- What is left of a top-up after the debt.
unfoldable pub credit_rest : ℕ → ℤ → Reference → Action Books (Unit {0})
unfolding credit_plain
credit_rest user remaining r =
    if ltb_ℤ (pos 0) remaining then credit_plain user remaining (credit_of r) else skip

unfoldable pub settle_and_credit : ℕ → ℤ → ℤ → Reference → Action Books (Unit {0})
unfolding credit_rest
settle_and_credit driver amount debt r = do
  settle_commission driver (min_ℤ debt amount) (settle_of r)
  credit_rest driver (amount -ℤ min_ℤ debt amount) r

unfoldable pub credit_driver : ℕ → ℤ → Reference → Action Books (Unit {0})
unfolding settle_and_credit credit_plain
credit_driver driver amount r = do
  payable ← get_or_create_user_account driver driver_commission_payable
  if ltb_ℤ (pos 0) payable.1
      then settle_and_credit driver amount payable.1 r
      else credit_plain driver amount r

unfoldable pub credit_user : Role → ℕ → ℤ → Reference → Action Books (Unit {0})
unfolding credit_driver credit_plain
credit_user driver_role user amount r = credit_driver user amount r
credit_user other_role user amount r = credit_plain user amount r

-- The part of `applyVerifiedTopUp` that writes to the ledger.
unfoldable pub credit_once : Role → ℕ → ℤ → Reference → Action Books (Unit {0})
unfolding already_credited credit_user
credit_once role user amount r = do
  known ← gets (already_credited r)
  if known then skip else credit_user role user amount r

abbrev pub has_signature : ℕ → ℕ → ℕ × PaymentCard → Bool
has_signature user signature (_, c) = (c.user == user) && (c.signature == signature)

abbrev pub owns : ℕ → ℕ × PaymentCard → Bool
owns user (_, c) = c.user == user

-- `paymentCard.upsert` on `userId_signature`; the first card of a user is the default one
unfoldable pub upsert_card :
    ℕ → ℕ → ℕ → Authorization → Option (ℕ × PaymentCard) → Action Payments ℕ
upsert_card new user signature auth (some (id, c)) = do
  modify (λ s. record s {
    cards =
        put id (record c { authorization_code = auth.authorization_code; last4 = auth.last4 })
          s.cards;
  })
  pure id
upsert_card new user signature auth none = do
  is_first ← gets (λ s. not (some_of (owns user) s.cards))
  modify (λ s. record s {
    cards =
        put new
          (record {
            user = user;
            signature = signature;
            authorization_code = auth.authorization_code;
            last4 = auth.last4;
            is_default = is_first;
          })
          s.cards;
  })
  pure new

unfoldable pub save_card_of : ℕ → ℕ → Authorization → ℕ → Action Payments (Option ℕ)
unfolding upsert_card
save_card_of new user auth signature = do
  row ← gets (λ s. first_of? (has_signature user signature) s.cards)
  id ← upsert_card new user signature auth row
  pure (some id)

-- The card is saved where that was asked for and it can be charged again.
unfoldable pub save_signed :
    ℕ → ℕ → TopUpRequest → Authorization → Option ℕ → Action Payments (Option ℕ)
unfolding save_card_of
save_signed new user request auth none = pure request.card_id
save_signed new user request auth (some signature) =
    if request.save_card && auth.is_card && auth.reusable
    then save_card_of new user auth signature
    else pure request.card_id

-- The card of a completed request.
unfoldable pub saved_card_id :
    ℕ → ℕ → TopUpRequest → Option Authorization → Action Payments (Option ℕ)
unfolding save_signed
saved_card_id new user request none = pure request.card_id
saved_card_id new user request (some auth) = save_signed new user request auth auth.signature

abbrev pub last4_of : Option Authorization → Option ℕ → Option ℕ
last4_of none old = old
last4_of (some auth) old = some auth.last4

abbrev pub complete_with : Option ℕ → Option Authorization → TopUpRequest → TopUpRequest
complete_with card auth r = record r {
  status = top_up_completed;
  card_id = card;
  card_last4 = last4_of auth r.card_last4;
}

abbrev pub notify : Reference → Action Payments (Unit {0})
notify reference = modify (λ s. record s { notified = reference ∷ s.notified })

-- Nothing, where there is no request or it is complete.
unfoldable pub complete_found :
    ℕ → Reference → ℕ → Option Authorization → Option TopUpRequest → Action Payments (Unit {0})
unfolding saved_card_id
complete_found new reference user auth none = skip
complete_found new reference user auth (some request) =
    if is_top_up_completed request.status then skip else do
      card ← saved_card_id new user request auth
      update_request reference (complete_with card auth)
      notify reference

unfoldable pub complete_top_up_request :
    ℕ → Reference → ℕ → Option Authorization → Action Payments (Unit {0})
unfolding complete_found
complete_top_up_request new reference user auth = do
  request ← gets (λ s. find reference s.requests)
  complete_found new reference user auth request

unfoldable pub apply_credit :
    ℕ → VerifyTransactionResult → ℕ → Option Role → Action Payments (Unit {0})
unfolding credit_once complete_top_up_request
apply_credit new verified user none = skip
apply_credit new verified user (some role) = do
  on_books (credit_once role user verified.amount verified.reference)
  complete_top_up_request new verified.reference user verified.authorization

-- A payment that succeeded; one of no user, or of an unknown one, is only logged.
unfoldable pub apply_success : ℕ → VerifyTransactionResult → Option ℕ → Action Payments (Unit {0})
unfolding apply_credit
apply_success new verified none = skip
apply_success new verified (some user) = do
  role ← gets (λ s. find user s.users)
  apply_credit new verified user role

unfoldable pub apply_verified_top_up :
    ℕ → VerifyTransactionResult → ChargeStatus → Action Payments (Unit {0})
unfolding apply_success mark_top_up_failed
apply_verified_top_up new verified charge_success = apply_success new verified verified.user
apply_verified_top_up new verified charge_failed = mark_top_up_failed verified.reference
apply_verified_top_up new verified charge_reversed = mark_top_up_failed verified.reference
apply_verified_top_up new verified charge_abandoned = skip

module _ (paystack : Paystack) where
  -- `applyVerifiedTopUp(await paystack.verifyTransaction(reference))`
  unfoldable pub process_top_up_webhook_event : ℕ → Reference → Action Payments (Unit {0})
  unfolding apply_verified_top_up
  process_top_up_webhook_event new reference = do
    verified ← or_throw gateway_failed (paystack.verify_transaction reference)
    apply_verified_top_up new verified verified.status

  abbrev pub owned_by : ℕ → TopUpRequest → Bool
  owned_by user r = r.user == user

  -- A failed refresh is only logged.
  unfoldable pub refresh : ℕ → Reference → Action Payments TopUpRequest
  unfolding process_top_up_webhook_event
  refresh new reference = do
    catch (process_top_up_webhook_event new reference) (λ _. skip)
    fresh ← gets (λ s. find reference s.requests)
    or_throw row_missing fresh

  unfoldable pub get_top_up_status : ℕ → ℕ → Reference → Action Payments TopUpRequest
  unfolding refresh
  get_top_up_status new user reference = do
    found ← gets (λ s. find reference s.requests)
    request ← or_throw not_found found
    throw_if (not (owned_by user request)) not_found
    if is_pending request.status then refresh new reference else pure request
