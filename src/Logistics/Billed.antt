-- ===== src/Logistics/Billed.antt =====
-- What the settlement of a completed delivery leaves (src/logistics/logistics-trip.service.ts).
use kilo_backend.Logistics.Frame.{Ensures-in_ledger_with}
use kilo_backend.Logistics.Store.{
  Delivery, DeliveryStatus, DeliveryStop, Invoice, Logistics, delivery_completed, keep_ledger,
  picked_up,
}
use kilo_backend.Logistics.Trips.{
  DeliveryStatus-discrete, bill_business, bills, carried_delivery, create_invoice, delivered,
  delivery_tax, finish_delivery, invoice_for, pay_delivery, settle_delivery, stands_at,
  update_delivery,
}
use kilo_backend.Prelude.{
  Bool-cases, Option, [], ap, arith, false, inl, inr, is_some, none, not, refl, some, true, ℕ, ◌&&◌,
  ◌==◌, ◌∙◌, ◌∷◌, ◌≡◌, ◌≢◌, ◌⊎◌,
}
use kilo_backend.Prelude.Action.{
  Ensures, Ensures-or_throw, Ensures-throw_if, Ensures-weaken, Result, bad_request, err, forbidden,
  not_found, ok,
}
use kilo_backend.Prelude.Int.{int_laws, pos, ℤ, ◌+ℤ◌, ◌-ℤ◌}
use kilo_backend.Prelude.Lists.{some_of}
use kilo_backend.Prelude.Table.{Table, find, number_key, put, update_where}
use kilo_backend.Pricing.Tariffs.{or_else}
use kilo_backend.Rides.Earned.{Earned, IsFreed, Unmoved, cash-Earned, paid-Earned}
use kilo_backend.Rides.Frame.{holds_sound}
use kilo_backend.Rides.Store.{RidePaymentMethod, business_invoice, cash, wallet}
use kilo_backend.Rides.Trips.{is_driven_by}
use kilo_backend.Wallet.Effect.{effect, net}
use kilo_backend.Wallet.Effects.{Effect, charge_business-Effect}
use kilo_backend.Wallet.Ledger.{
  Books, Reference, account_key, balance_of, business_credit_payable, business_delivery_accrual,
  delivery_payment_cash, delivery_payment_wallet, for_delivery, owned, platform,
  platform_gateway_clearing, reference_key,
}
use kilo_backend.Wallet.Posting.{PostTransactionParams}
use kilo_backend.Wallet.Service.{
  charge_business_for_delivery, from_to, params, pay_for_delivery, record_cash_delivery_commission,
}

-- What the invoices hold after a delivery with this business, or with none.
pub Invoiced : Option ℕ → ℕ → ℕ → Delivery → ℕ → Table ℕ Invoice → Table ℕ Invoice → Type 0
Invoiced none new id d commission t t' = t' ≡ t
Invoiced (some business) new id d commission t t' =
    (some_of (λ r. bills id r.1) t ≡ false)
    × (t' ≡ put new (invoice_for business id d commission) t)

-- A business owes the fare, once for a delivery.
abbrev pub ChargedOnce : ℕ → ℕ → Reference → Books → Books → Type 0
ChargedOnce business fare q s s' =
    ((find q s.transactions ≡ none)
      × (balance_of (owned business business_credit_payable) s'.accounts
          ≡ balance_of (owned business business_credit_payable) s.accounts +ℤ pos fare)
      × (balance_of (platform platform_gateway_clearing) s'.accounts
          ≡ balance_of (platform platform_gateway_clearing) s.accounts -ℤ pos fare))
    ⊎ Unmoved q s s'

-- What the ledger holds once a delivery has been paid, or charged to its business.
abbrev pub PaidBy : Option ℕ → ℕ → ℕ → Delivery → ℕ → Books → Option Reference → Books → Type 0
PaidBy none driver id d cut s tx s' =
    Earned d.payment_method d.sender driver d.estimated_fare cut (delivery_tax d) (for_delivery id)
      s tx s'
PaidBy (some business) driver id d cut s tx s' =
    (tx ≡ none) × ChargedOnce business d.estimated_fare (for_delivery id) s s'

pub record Delivered (new driver id : ℕ) (d : Delivery) (s s' : Logistics) : Type 0 where
  pub before : Delivery
  pub was_there : find id s.deliveries ≡ some before
  pub was_picked_up : before.status ≡ picked_up
  pub was_carried : is_driven_by driver before.driver ≡ true
  pub was_proved : is_some before.pod_type ≡ true
  pub row : find id s'.deliveries ≡ some d
  pub is_completed : d.status ≡ delivery_completed
  pub still_carried : is_driven_by driver d.driver ≡ true
  pub same_fare : d.estimated_fare ≡ before.estimated_fare
  pub fare_kept : d.final_fare ≡ some before.estimated_fare
  pub others : (j : ℕ) → j ≢ id → find j s'.deliveries ≡ find j s.deliveries
  pub no_open_stop : some_of (λ r. (r.1.delivery == id) && not r.1.is_done) s'.stops ≡ false
  pub cut : ℕ
  pub commission : d.commission_amount ≡ some cut
  pub invoiced : Invoiced before.business new id before cut s.invoices s'.invoices
  pub paid :
      (tx : Option Reference) × (b : Books) × PaidBy before.business driver id before cut s.books tx
        b
      × (d.transaction_id ≡ or_else tx before.transaction_id)
      × IsFreed driver b s'.books

pub carried_lem :
    (driver id : ℕ) (status : DeliveryStatus) (s : Logistics)
    → Ensures
        (λ d u.
          (u ≡ s)
          × (find id s.deliveries ≡ some d)
          × (d.status ≡ status)
          × (is_driven_by driver d.driver ≡ true))
        (carried_delivery driver id status s)
unfolding carried_delivery
carried_lem driver id status s =
    let Q : Delivery → Logistics → Type 0 = λ d u.
      (u ≡ s)
      × (find id s.deliveries ≡ some d)
      × (d.status ≡ status)
      × (is_driven_by driver d.driver ≡ true) in
    Ensures-or_throw Q not_found (find id s.deliveries) _ s (λ d at.
      Ensures-throw_if Q (not (is_driven_by driver d.driver)) forbidden _ s (λ mine.
        Ensures-throw_if Q (not (stands_at status d)) bad_request _ s (λ right. (
          refl,
          at,
          holds_sound (DeliveryStatus-discrete d.status status) (ground (arith, right)),
          ground (arith, mine),
        ))))

no_open_stops :
    (id : ℕ) (t : Table ℕ DeliveryStop)
    → some_of
        (λ r. (r.1.delivery == id) && not r.1.is_done)
        (update_where
          (λ _ x. (x.delivery == id) && not x.is_done)
          (λ x. record x { is_done = true })
          t)
      ≡ false
no_open_stops id [] = refl
no_open_stops id ((k, x) ∷ t) = ground (arith, no_open_stops id t)

net-charged :
    (business : ℕ) (x : ℤ)
    → net
        (owned business business_credit_payable)
        (from_to (platform platform_gateway_clearing) (owned business business_credit_payable) x)
      ≡ x
unfolding net effect
net-charged business x = grind int_laws

net-cleared :
    (business : ℕ) (x : ℤ)
    → net
        (platform platform_gateway_clearing)
        (from_to (platform platform_gateway_clearing) (owned business business_credit_payable) x)
      ≡ pos 0 -ℤ x
unfolding net effect
net-cleared business x = grind int_laws

-- What the settlement leaves: the deliveries and the stops as they were.
unfoldable pub Settled :
    ℕ → ℕ → ℕ → Delivery → ℕ → Option ℕ → Logistics → Option Reference → Logistics → Type 0
Settled new driver id d commission business s tx u =
    (u.deliveries ≡ s.deliveries)
    × (u.stops ≡ s.stops)
    × Invoiced business new id d commission s.invoices u.invoices
    × PaidBy business driver id d commission s.books tx u.books

charged_lem :
    (business fare : ℕ) (q : Reference) (s : Books)
    → Ensures
        (λ _ s'. ChargedOnce business fare q s s')
        (charge_business_for_delivery business (pos fare) q s)
charged_lem business fare q s =
    let p : PostTransactionParams = params business_delivery_accrual q (pos fare) (
      from_to (platform platform_gateway_clearing) (owned business business_credit_payable)
        (pos fare)) in
    Ensures-weaken (Effect p s) (λ _ s'. ChargedOnce business fare q s s')
      (charge_business_for_delivery business (pos fare) q s)
      (λ r s' e. elim e.1 [
        | inl again ↦ inr (ap is_some again.known, again.same_balances)
        | inr d ↦ inl (
          d.fresh,
          d.balances (owned business business_credit_payable)
              ∙ ap (λ x. balance_of (owned business business_credit_payable) s.accounts +ℤ x)
                  (net-charged business (pos fare)),
          d.balances (platform platform_gateway_clearing)
              ∙ rw (net-cleared business (pos fare)) (grind int_laws),
        )
      ])
      (charge_business-Effect business (pos fare) q s)

pay_delivery_lem :
    (m : RidePaymentMethod) (driver id : ℕ) (d : Delivery) (cut : ℕ) (s : Books)
    → Ensures
        (Earned m d.sender driver d.estimated_fare cut (delivery_tax d) (for_delivery id) s)
        (pay_delivery driver id d cut m s)
unfolding pay_delivery pay_for_delivery record_cash_delivery_commission
pay_delivery_lem wallet driver id d cut s =
    paid-Earned delivery_payment_wallet d.sender driver d.estimated_fare cut (delivery_tax d)
      (for_delivery id) s
pay_delivery_lem cash driver id d cut s =
    cash-Earned delivery_payment_cash d.sender driver d.estimated_fare cut (delivery_tax d)
      (for_delivery id) s
pay_delivery_lem business_invoice driver id d cut s =
    cash-Earned delivery_payment_cash d.sender driver d.estimated_fare cut (delivery_tax d)
      (for_delivery id) s

pub settle_lem :
    (new driver id : ℕ) (d : Delivery) (commission : ℕ) (business : Option ℕ) (s : Logistics)
    → Ensures
        (Settled new driver id d commission business s)
        (settle_delivery new driver id d commission business s)
unfolding settle_delivery Settled Invoiced bill_business create_invoice
settle_lem new driver id d commission none s =
    go (pay_delivery driver id d commission d.payment_method s.books)
      (pay_delivery_lem d.payment_method driver id d commission s.books)
  where
    go :
        (r : Result (Option Reference) × Books)
        → Ensures (PaidBy none driver id d commission s.books) r
        → Ensures (Settled new driver id d commission none s) (keep_ledger s r)
    go (ok tx, b) h = (refl, refl, refl, h)
    go (err e, b) h = tt
settle_lem new driver id d commission (some business) s =
    let Q : Option Reference → Logistics → Type 0 =
      Settled new driver id d commission (some business) s in
    Ensures-in_ledger_with Q
      (λ _ b. ChargedOnce business d.estimated_fare (for_delivery id) s.books b)
      (charge_business_for_delivery business (pos d.estimated_fare) (for_delivery id)) _ s
      (charged_lem business d.estimated_fare (for_delivery id) s.books)
      (λ tx b h. elim (Bool-cases (some_of (λ r. bills id r.1) s.invoices)) [
        | inl e ↦ rw e tt
        | inr e ↦ rw e (refl, refl, (e, refl), (refl, h))
      ])

unfoldable pub Finished : ℕ → Delivery → Logistics → Delivery → Logistics → Type 0
Finished id d u d' v =
    (d' ≡ d)
    × (v.deliveries ≡ put id d' u.deliveries)
    × (v.invoices ≡ u.invoices)
    × (v.books ≡ u.books)
    × (some_of (λ r. (r.1.delivery == id) && not r.1.is_done) v.stops ≡ false)

pub finish_lem :
    (id commission : ℕ) (tx : Option Reference) (d : Delivery) (u : Logistics)
    → find id u.deliveries ≡ some d
    → Ensures (Finished id (delivered commission tx d) u) (finish_delivery id commission tx u)
unfolding finish_delivery update_delivery Finished
finish_lem id commission tx d u at = rw at (refl, refl, refl, refl, no_open_stops id u.stops)
