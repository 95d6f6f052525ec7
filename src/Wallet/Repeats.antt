-- ===== src/Wallet/Repeats.antt =====
-- A call whose reference is in the ledger already, whatever its other arguments.
use kilo_backend.Prelude.{is_some, true, ◌≡◌}
use kilo_backend.Prelude.Keeps.{Keeps}
use kilo_backend.Prelude.Table.{find}
use kilo_backend.Wallet.History.{
  Call, charge_business_for_delivery, pay_for_delivery, pay_for_kilowatt_service, pay_for_ride,
  pay_invoice, pay_referral_payout, record_cash_delivery_commission, record_cash_ride_commission,
  record_referral_accrual, refund, request_withdrawal, run, settle_commission, top_up,
}
use kilo_backend.Wallet.Ledger.{
  Books, Reference, account_key, reference_key, refund_of, settlement_of,
}
use kilo_backend.Wallet.Replays.{Quiet, Quiet-self, quiet_rules, refund-Quiet}
use kilo_backend.Wallet.Service

abbrev IsKnown : Reference → Books → Type 0
IsKnown r s = is_some (find r s.transactions) ≡ true

-- The references that a call may post are all in the ledger.
abbrev pub IsRepeat : Call → Books → Type 0
IsRepeat (top_up u x r k) s = IsKnown r s
IsRepeat (pay_for_ride p d f c r t) s = IsKnown r s
IsRepeat (pay_for_delivery p d f c r t) s = IsKnown r s
IsRepeat (record_cash_ride_commission d x r) s = IsKnown r s
IsRepeat (record_cash_delivery_commission d x r) s = IsKnown r s
IsRepeat (settle_commission d x r) s = IsKnown r s
IsRepeat (charge_business_for_delivery b x r) s = IsKnown r s
IsRepeat (request_withdrawal d x r) s = IsKnown r s
IsRepeat (pay_for_kilowatt_service u x r) s = IsKnown r s
IsRepeat (pay_invoice b d f c r t) s = IsKnown r s × IsKnown (settlement_of r) s
IsRepeat (record_referral_accrual x r) s = IsKnown r s
IsRepeat (pay_referral_payout u a x r) s = IsKnown r s
IsRepeat (refund r) s = IsKnown (refund_of r) s

run-Quiet : (c : Call) (s : Books) → IsRepeat c s → Keeps (λ s'. Quiet s s') (run c)
unfolding run Service.top_up Service.pay_for_ride Service.pay_for_delivery Service.pay_fare
    Service.record_cash_ride_commission Service.record_cash_delivery_commission
    Service.record_cash_commission Service.settle_commission Service.charge_business_for_delivery
    Service.request_withdrawal Service.pay_for_kilowatt_service Service.pay_invoice
    Service.record_referral_accrual Service.pay_referral_payout
run-Quiet (refund r) s old = refund-Quiet s r old
run-Quiet (pay_invoice b d f c r t) s old =
    let old_payment : IsKnown r s = old.0 in
    let old_settlement : IsKnown (settlement_of r) s = old.1 in search quiet_rules depth 12
run-Quiet _ s old = search quiet_rules depth 10

-- A call whose reference is in the ledger already moves no balance and loses no transaction,
-- whatever its other arguments and whether it returns or throws. (For `pay_invoice` both references
-- are to be there, for `refund` the reference of the refund.)
pub run_repeat-Quiet : (c : Call) (s : Books) → IsRepeat c s → Quiet s (run c s).1
run_repeat-Quiet c s old = (run-Quiet c s old).at s (Quiet-self s)
