-- ===== src/Payments/Withdrawals.antt =====
-- Withdrawals (src/wallet/payments.service.ts). A row of WithdrawalRequest is found by the ledger
-- transaction that it is linked to.
use kilo_backend.Payments.Store.{Payments, Paystack, WithdrawalRequest, on_books}
use kilo_backend.Prelude.{Bool, Option, false, if◌then◌else◌, is_some, none, some, true, ℕ}
use kilo_backend.Prelude.Action.{
  Action, Error, catch, gateway_failed, gets, modify, not_found, or_throw, pure, row_missing, skip,
  throw, throw_if, unique_violation, ◌>>=◌, ◌>>◌,
}
use kilo_backend.Prelude.Int.{ltb_ℤ, min_ℤ, pos, ℤ, ◌-ℤ◌}
use kilo_backend.Prelude.Table.{find, number_key, put}
use kilo_backend.Wallet.Ledger.{
  Reference, Transaction, TransactionStatus, completed, driver_commission_payable, failed,
  for_withdrawal, pending, reference_key, settle_of,
}
use kilo_backend.Wallet.Service.{
  get_or_create_user_account, refund, request_withdrawal, settle_commission,
}

abbrev pub set_status : TransactionStatus → WithdrawalRequest → WithdrawalRequest
set_status status w = record w { status = status }

-- `withdrawalRequest.update` of a row that is there
unfoldable pub update_withdrawal :
    Reference → (WithdrawalRequest → WithdrawalRequest) → Action Payments (Unit {0})
update_withdrawal reference f = do
  found ← gets (λ s. find reference s.withdrawals)
  w ← or_throw row_missing found
  modify (λ s. record s { withdrawals = put reference (f w) s.withdrawals })

unfoldable pub settle_part : ℕ → ℤ → Reference → Action Payments (Option Reference)
settle_part driver settle reference =
    if ltb_ℤ (pos 0) settle
    then (do
      tx ← on_books (settle_commission driver settle (settle_of reference))
      pure (some tx.0))
    else pure none

abbrev pub refund_if_settled : Option Reference → Action Payments (Unit {0})
refund_if_settled none = skip
refund_if_settled (some id) = do on_books (refund id); skip

-- The gateway refused: both postings are refunded, the request has failed, and the error goes on.
unfoldable pub undo_withdrawal : Reference → Option Reference → Error → Action Payments (Unit {0})
unfolding update_withdrawal
undo_withdrawal id settled e = do
  on_books (refund id)
  refund_if_settled settled
  update_withdrawal id (set_status failed)
  throw e

module _ (paystack : Paystack) where
  -- A recipient is registered only where money will move.
  unfoldable pub recipient_for : ℕ → ℤ → Action Payments (Option ℕ)
  recipient_for bank_account transfer =
      if ltb_ℤ (pos 0) transfer
      then (do
        code ← or_throw gateway_failed (paystack.create_recipient bank_account)
        pure (some code))
      else pure none

  unfoldable pub send : Reference → ℤ → ℕ → Action Payments (Unit {0})
  unfolding update_withdrawal
  send id transfer recipient = do
    code ← or_throw gateway_failed (paystack.initiate_transfer id transfer recipient)
    update_withdrawal id (λ w. record w { gateway_reference = some code })

  unfoldable pub send_rest :
      Reference → ℤ → Option ℕ → Option Reference → Action Payments (Unit {0})
  unfolding send undo_withdrawal
  send_rest id transfer none settled = skip
  send_rest id transfer (some recipient) settled =
      catch (send id transfer recipient) (undo_withdrawal id settled)

  unfoldable pub initiate_withdrawal : ℕ → ℤ → ℕ → ℕ → Action Payments (Unit {0})
  unfolding recipient_for settle_part send_rest
  initiate_withdrawal driver requested bank_account token = do
    payable ← on_books (get_or_create_user_account driver driver_commission_payable)
    let settle = min_ℤ payable.1 requested
    let transfer = requested -ℤ settle
    let reference = for_withdrawal token
    recipient ← recipient_for bank_account transfer
    tx ← on_books (request_withdrawal driver requested reference)
    settled ← settle_part driver settle reference
    linked ← gets (λ s. is_some (find tx.0 s.withdrawals))
    throw_if linked unique_violation
    modify (λ s. record s {
      withdrawals =
          put tx.0
            (record {
              driver = driver;
              amount = requested;
              settled_commission = settle;
              recipient = recipient;
              gateway_reference = none;
              status = if ltb_ℤ (pos 0) transfer then pending else completed;
            })
            s.withdrawals;
    })
    send_rest tx.0 transfer recipient settled

unfoldable pub transfer_failed : Reference → Action Payments (Unit {0})
unfolding update_withdrawal
transfer_failed reference = do
  on_books (refund reference)
  settle_tx ← gets (λ s. find (settle_of reference) s.books.transactions)
  refund_if_settled (if is_some settle_tx then some (settle_of reference) else none)
  update_withdrawal reference (set_status failed)

abbrev pub transfer_ended : Reference → Bool → Action Payments (Unit {0})
transfer_ended reference true = update_withdrawal reference (set_status completed)
transfer_ended reference false = transfer_failed reference

-- An unknown reference is only logged.
unfoldable pub known_transfer : Reference → Bool → Option Transaction → Action Payments (Unit {0})
unfolding transfer_failed update_withdrawal
known_transfer reference succeeded none = skip
known_transfer reference succeeded (some _) = do
  found ← gets (λ s. find reference s.withdrawals)
  or_throw not_found found
  transfer_ended reference succeeded

unfoldable pub process_transfer_webhook_event : Reference → Bool → Action Payments (Unit {0})
unfolding known_transfer
process_transfer_webhook_event reference succeeded = do
  row ← gets (λ s. find reference s.books.transactions)
  known_transfer reference succeeded row
