-- ===== src/Logistics/Trips.antt =====
-- LogisticsTripService (src/logistics/logistics-trip.service.ts), over the wallet and the pricing.
-- Messages are left out, and the upload of a file, which is there or not.
use kilo_backend.Logistics.Store.{
  Delivery, DeliveryStatus, Invoice, Logistics, ProofOfDeliveryType, delivery_accepted,
  delivery_completed, in_ledger, in_pricing, invoice_pending, otp, photo, picked_up, signature,
}
use kilo_backend.Prelude.{
  Bool, Option, false, holds, if◌then◌else◌, is_some, none, not, some, true, ℕ, ◌&&◌, ◌+◌, ◌-◌,
  ◌==◌,
}
use kilo_backend.Prelude.Action.{
  Action, bad_request, forbidden, gets, modify, not_found, or_throw, pure, row_missing, throw_if,
  transaction, unique_violation, ◌>>=◌, ◌>>◌,
}
use kilo_backend.Prelude.Decimal.{mul, of_kobo, to_kobo}
use kilo_backend.Prelude.Int.{pos}
use kilo_backend.Prelude.Lists.{some_of}
use kilo_backend.Prelude.Table.{find, number_key, put, update_where}
use kilo_backend.Pricing.Tariffs.{CommissionRule, get_active_commission_rate, or_else}
use kilo_backend.Rides.Store.{RidePaymentMethod, wallet}
use kilo_backend.Rides.Trips.{is_driven_by}
use kilo_backend.Wallet.Ledger.{Books, Reference, commission_of, for_delivery, online}
use kilo_backend.Wallet.Service.{
  charge_business_for_delivery, pay_for_delivery, record_cash_delivery_commission,
}

unfoldable pub DeliveryStatus-discrete : Discrete DeliveryStatus
DeliveryStatus-discrete = hlevel

abbrev pub stands_at : DeliveryStatus → Delivery → Bool
stands_at status d = holds (DeliveryStatus-discrete d.status status)

-- `delivery.update` of a row that is there
unfoldable pub update_delivery : ℕ → (Delivery → Delivery) → Action Logistics Delivery
update_delivery id f = do
  found ← gets (λ s. find id s.deliveries)
  d ← or_throw row_missing found
  modify (λ s. record s { deliveries = put id (f d) s.deliveries })
  pure (f d)

-- The delivery, where this driver carries it and it has this status.
unfoldable pub carried_delivery : ℕ → ℕ → DeliveryStatus → Action Logistics Delivery
carried_delivery driver id status = do
  found ← gets (λ s. find id s.deliveries)
  d ← or_throw not_found found
  throw_if (not (is_driven_by driver d.driver)) forbidden
  throw_if (not (stands_at status d)) bad_request
  pure d

-- `recordMilestone`: a milestone that is there already is not written again.
unfoldable pub record_milestone :
    ℕ → ℕ → DeliveryStatus → (Delivery → Bool) → (Delivery → Delivery) → Action Logistics Delivery
unfolding carried_delivery update_delivery
record_milestone driver id required is_there set = do
  d ← carried_delivery driver id required
  if is_there d then pure d else update_delivery id set

unfoldable pub mark_arrived_at_pickup : ℕ → ℕ → Action Logistics Delivery
unfolding record_milestone
mark_arrived_at_pickup driver id =
    record_milestone driver id delivery_accepted (λ d. d.arrived_at_pickup)
      (λ d. record d { arrived_at_pickup = true })

unfoldable pub mark_arrived_at_dropoff : ℕ → ℕ → Action Logistics Delivery
unfolding record_milestone
mark_arrived_at_dropoff driver id =
    record_milestone driver id picked_up (λ d. d.arrived_at_dropoff)
      (λ d. record d { arrived_at_dropoff = true })

unfoldable pub confirm_pickup : ℕ → ℕ → Action Logistics Delivery
unfolding carried_delivery update_delivery
confirm_pickup driver id = do
  carried_delivery driver id delivery_accepted
  update_delivery id (λ d. record d { status = picked_up })

abbrev pub with_proof : ProofOfDeliveryType → Delivery → Delivery
with_proof type d = record d { pod_type = some type }

-- A code that is there, against a hash that is there.
abbrev pub code_matches : (ℕ → ℕ) → Option ℕ → Option ℕ → Bool
code_matches hash_token (some h) (some code) = h == hash_token code
code_matches hash_token _ _ = false

-- `hash_token` is SHA-256; `has_file` is whether a file came with the call.
unfoldable pub accept_proof : (ℕ → ℕ) → ProofOfDeliveryType → Option ℕ → Bool → Delivery → Bool
accept_proof hash_token otp code has_file d = code_matches hash_token d.receiver_otp_hash code
accept_proof hash_token signature code has_file d = has_file
accept_proof hash_token photo code has_file d = has_file

unfoldable pub submit_proof_of_delivery :
    (ℕ → ℕ) → ℕ → ℕ → ProofOfDeliveryType → Option ℕ → Bool → Action Logistics Delivery
unfolding carried_delivery accept_proof update_delivery
submit_proof_of_delivery hash_token driver id type code has_file = do
  d ← carried_delivery driver id picked_up
  throw_if (not (accept_proof hash_token type code has_file d)) bad_request
  update_delivery id (with_proof type)

abbrev pub delivery_tax : Delivery → ℕ
delivery_tax d = elim d.tax_amount [ none ↦ 0 | some t ↦ t ]

-- The service type 'DELIVERY' of commission rules.
abbrev pub delivery_service : ℕ
delivery_service = 1

unfoldable pub commission_of_delivery : Delivery → CommissionRule → ℕ
commission_of_delivery d rule =
    to_kobo (mul (of_kobo (d.estimated_fare - delivery_tax d)) rule.rate)

abbrev pub bills : ℕ → Invoice → Bool
bills id x = elim x.delivery [ none ↦ false | some d ↦ d == id ]

-- `invoice.create`; there is one invoice for a delivery.
unfoldable pub create_invoice : ℕ → Invoice → ℕ → Action Logistics (Unit {0})
create_invoice new x id = do
  taken ← gets (λ s. some_of (λ r. bills id r.1) s.invoices)
  throw_if taken unique_violation
  modify (λ s. record s { invoices = put new x s.invoices })

abbrev pub invoice_for : ℕ → ℕ → Delivery → ℕ → Invoice
invoice_for business id d commission = record {
  business = business;
  delivery = some id;
  amount = d.estimated_fare;
  commission_amount = commission;
  status = invoice_pending;
  transaction_id = none;
}

-- Who pays: a business on account, the sender's wallet, or the driver who took cash.
unfoldable pub bill_business : ℕ → ℕ → ℕ → Delivery → ℕ → Action Logistics (Option Reference)
unfolding create_invoice
bill_business new business id d commission = do
  in_ledger (charge_business_for_delivery business (pos d.estimated_fare) (for_delivery id))
  create_invoice new (invoice_for business id d commission) id
  pure none

unfoldable pub pay_delivery :
    ℕ → ℕ → Delivery → ℕ → RidePaymentMethod → Action Books (Option Reference)
pay_delivery driver id d commission wallet = do
  tx ←
      pay_for_delivery d.sender driver (pos d.estimated_fare) (pos commission) (for_delivery id)
        (pos (delivery_tax d))
  pure (some tx.0)
pay_delivery driver id d commission _ = do
  record_cash_delivery_commission driver (pos (commission + delivery_tax d))
      (commission_of (for_delivery id))
  pure none

unfoldable pub settle_delivery :
    ℕ → ℕ → ℕ → Delivery → ℕ → Option ℕ → Action Logistics (Option Reference)
unfolding bill_business pay_delivery
settle_delivery new driver id d commission none =
    in_ledger (pay_delivery driver id d commission d.payment_method)
settle_delivery new driver id d commission (some business) =
    bill_business new business id d commission

abbrev pub complete_stops : ℕ → Action Logistics (Unit {0})
complete_stops id = modify (λ s. record s {
  stops =
      update_where (λ _ x. (x.delivery == id) && not x.is_done) (λ x. record x { is_done = true })
        s.stops;
})

-- The row of a completed delivery; `transactionId: undefined` leaves the column as it is.
abbrev pub delivered : ℕ → Option Reference → Delivery → Delivery
delivered commission tx d = record d {
  status = delivery_completed;
  final_fare = some d.estimated_fare;
  commission_amount = some commission;
  transaction_id = or_else tx d.transaction_id;
}

-- `driverStatus.update`, of a row that is there
unfoldable pub free_courier : ℕ → Action Books (Unit {0})
free_courier driver = do
  found ← gets (λ b. find driver b.drivers)
  row ← or_throw row_missing found
  modify (λ b. record b { drivers = put driver (record row { availability = online }) b.drivers })

unfoldable pub finish_delivery : ℕ → ℕ → Option Reference → Action Logistics Delivery
unfolding update_delivery
finish_delivery id commission tx = do
  complete_stops id
  update_delivery id (delivered commission tx)

unfoldable pub complete_delivery : ℕ → ℕ → ℕ → Action Logistics Delivery
unfolding carried_delivery settle_delivery finish_delivery free_courier commission_of_delivery
complete_delivery new driver id = do
  d ← carried_delivery driver id picked_up
  throw_if (not (is_some d.pod_type)) bad_request
  rule ← in_pricing (get_active_commission_rate delivery_service (some d.vehicle_type))
  tx ← settle_delivery new driver id d (commission_of_delivery d rule) d.business
  done ← transaction (finish_delivery id (commission_of_delivery d rule) tx)
  in_ledger (free_courier driver)
  pure done
