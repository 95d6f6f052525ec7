-- ===== src/Logistics/Completed.antt =====
-- A delivery is completed once, with a proof, and is billed as it was booked
-- (src/logistics/logistics-trip.service.ts).
use kilo_backend.Logistics.Billed.{
  Delivered, Finished, Invoiced, Settled, carried_lem, finish_lem, settle_lem,
}
use kilo_backend.Logistics.Frame.{Ensures-in_ledger_with, Ensures-in_pricing}
use kilo_backend.Logistics.Store.{
  Delivery, Logistics, delivery_completed, in_ledger, in_pricing, picked_up,
}
use kilo_backend.Logistics.Trips.{
  DeliveryStatus-discrete, carried_delivery, commission_of_delivery, complete_delivery, delivered,
  delivery_service, finish_delivery, free_courier, settle_delivery, stands_at,
}
use kilo_backend.Prelude.{ap, arith, false, holds, is_some, not, refl, some, sym, true, ℕ, ◌∙◌, ◌≡◌}
use kilo_backend.Prelude.Action.{
  Action, Ensures, Ensures-bind, Ensures-ok, Ensures-or_throw, Ensures-throw_if,
  Ensures-transaction, bad_request, err, go_on, ok, or_throw, pure, row_missing, throw_if,
  transaction, ◌>>=◌, ◌>>◌,
}
use kilo_backend.Prelude.Table.{find, find-put_ne, find-put_self, number_key}
use kilo_backend.Pricing.Tariffs.{get_active_commission_rate}
use kilo_backend.Rides.Earned.{IsFreed}
use kilo_backend.Rides.Trips.{is_driven_by}
use kilo_backend.Wallet.Ledger.{Books, online}
use mathlib.Core.Path.{subst}

-- The rest of `completeDelivery` once the driver and the status are right.
complete_rest : ℕ → ℕ → ℕ → Delivery → Action Logistics Delivery
complete_rest new driver id d = do
  throw_if (not (is_some d.pod_type)) bad_request
  rule ← in_pricing (get_active_commission_rate delivery_service (some d.vehicle_type))
  tx ← settle_delivery new driver id d (commission_of_delivery d rule) d.business
  done ← transaction (finish_delivery id (commission_of_delivery d rule) tx)
  in_ledger (free_courier driver)
  pure done

freed_courier :
    (driver : ℕ) (b : Books) → Ensures (λ _ b'. IsFreed driver b b') (free_courier driver b)
unfolding free_courier IsFreed
freed_courier driver b =
    Ensures-or_throw (λ _ b'. IsFreed driver b b') row_missing (find driver b.drivers) _ b
      (λ row at. (
        refl,
        refl,
        record row { availability = online },
        find-put_self driver (record row { availability = online }) b.drivers,
        refl,
      ))

rest_lem :
    (new driver id : ℕ) (d : Delivery) (s : Logistics)
    → find id s.deliveries ≡ some d
    → d.status ≡ picked_up
    → is_driven_by driver d.driver ≡ true
    → Ensures (λ d' s'. Delivered new driver id d' s s') (complete_rest new driver id d s)
unfolding complete_rest Settled Finished
rest_lem new driver id d s at carried mine =
    let Q : Delivery → Logistics → Type 0 = λ d' s'. Delivered new driver id d' s s' in
    Ensures-throw_if Q (not (is_some d.pod_type)) bad_request _ s (λ proved.
      Ensures-in_pricing Q (get_active_commission_rate delivery_service (some d.vehicle_type)) _ s
        (λ rule p.
          let c : ℕ = commission_of_delivery d rule in
          let s₁ : Logistics = record s { pricing = p } in
          Ensures-bind (Settled new driver id d c d.business s₁) Q
            (settle_delivery new driver id d c d.business) _ s₁
            (settle_lem new driver id d c d.business s₁)
            (λ tx u paid.
              Ensures-bind (Finished id (delivered c tx d) u) Q
                (transaction (finish_delivery id c tx)) _ u
                (Ensures-transaction (Finished id (delivered c tx d) u) (finish_delivery id c tx) u
                  (finish_lem id c tx d u (ap (find id) paid.0 ∙ at)))
                (λ d' v done.
                  Ensures-in_ledger_with Q (λ _ b. IsFreed driver v.books b) (free_courier driver)
                    (λ _. pure d') v (freed_courier driver v.books)
                    (λ _ b free. record {
                      before = d;
                      was_there = at;
                      was_picked_up = carried;
                      was_carried = mine;
                      was_proved = ground (arith, proved);
                      row = ap (find id) done.1 ∙ find-put_self id d' u.deliveries;
                      is_completed = ap (λ x. x.status) done.0;
                      still_carried = ap (λ x. is_driven_by driver x.driver) done.0 ∙ mine;
                      same_fare = ap (λ x. x.estimated_fare) done.0;
                      fare_kept = ap (λ x. x.final_fare) done.0;
                      others = λ j apart.
                          ap (find j) done.1
                          ∙ find-put_ne j id d' u.deliveries apart
                          ∙ ap (find j) paid.0;
                      no_open_stop = done.4;
                      cut = c;
                      commission = ap (λ x. x.commission_amount) done.0;
                      invoiced =
                          subst (λ t. Invoiced d.business new id d c s.invoices t) (sym done.2)
                            paid.2;
                      paid = (
                        tx,
                        u.books,
                        paid.3,
                        ap (λ x. x.transaction_id) done.0,
                        subst (λ w. IsFreed driver w b) done.3 free,
                      );
                    })))))

complete_delivery_lem :
    (new driver id : ℕ) (s : Logistics)
    → Ensures (λ d s'. Delivered new driver id d s s') (complete_delivery new driver id s)
unfolding complete_delivery complete_rest
complete_delivery_lem new driver id s =
    Ensures-bind
      (λ d u.
        (u ≡ s)
        × (find id s.deliveries ≡ some d)
        × (d.status ≡ picked_up)
        × (is_driven_by driver d.driver ≡ true))
      (λ d s'. Delivered new driver id d s s') (carried_delivery driver id picked_up)
      (complete_rest new driver id) s (carried_lem driver id picked_up s)
      (λ d u c.
        subst
          (λ w.
            Ensures (λ d' s'. Delivered new driver id d' s s') (complete_rest new driver id d w))
          (sym c.0) (rest_lem new driver id d s c.1 c.2 c.3))

over_now : (d : Delivery) → d.status ≡ delivery_completed → stands_at picked_up d ≡ false
unfolding DeliveryStatus-discrete
over_now d e = ap (λ x. holds (DeliveryStatus-discrete x picked_up)) e

refused :
    (new driver id : ℕ) (d : Delivery) (s : Logistics)
    → find id s.deliveries ≡ some d
    → is_driven_by driver d.driver ≡ true
    → d.status ≡ delivery_completed
    → complete_delivery new driver id s ≡ (err bad_request, s)
unfolding complete_delivery carried_delivery
refused new driver id d s at mine over = rw (at, or_throw, go_on, mine, over_now d over) refl

-- Where `completeDelivery` returns: the delivery was picked up, carried by this driver and proved, it is
-- completed now at the fare of its booking, which has not changed, no other delivery has changed, and
-- no stop of it is open. A business has exactly one new invoice for it and owes the fare; without a
-- business no invoice changes, and the sender's wallet has paid fare, commission and tax, or the
-- driver with the cash owes commission and tax; under a reference that was known no balance has
-- moved. The row names a payment from a wallet, else its link stays as it was. The driver is online,
-- and completing it again is a bad request that changes nothing.
pub complete_delivery_once :
    (new later driver id : ℕ) (s : Logistics) {d : Delivery} {s' : Logistics}
    → complete_delivery new driver id s ≡ (ok d, s')
    → Delivered new driver id d s s'
      × (complete_delivery later driver id s' ≡ (err bad_request, s'))
complete_delivery_once new later driver id s {d} {s'} e =
    let done : Delivered new driver id d s s' =
      Ensures-ok (λ x u. Delivered new driver id x s u) (complete_delivery_lem new driver id s) e in
    (done, refused later driver id d s' done.row done.still_carried done.is_completed)
