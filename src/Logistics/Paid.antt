-- ===== src/Logistics/Paid.antt =====
-- An invoice is paid once (src/business/business-invoices.service.ts).
use kilo_backend.Logistics.Frame.{Ensures-in_ledger}
use kilo_backend.Logistics.Invoices.{
  find_invoice_or_throw, is_payable, paid_invoice, settle_invoice, update_invoice,
}
use kilo_backend.Logistics.Store.{
  Delivery, Invoice, InvoiceStatus, Logistics, in_ledger, invoice_overdue, invoice_paid,
  invoice_pending,
}
use kilo_backend.Logistics.Trips.{delivery_tax}
use kilo_backend.Prelude.{Bool, arith, not, refl, some, sym, true, ℕ, ◌==◌, ◌∙◌, ◌≡◌, ◌≢◌}
use kilo_backend.Prelude.Action.{
  Action, Ensures, Ensures-bind, Ensures-ok, Ensures-or_throw, Ensures-throw_if, bad_request, err,
  forbidden, gets, go_on, not_found, ok, or_throw, row_missing, throw_if, ◌>>=◌, ◌>>◌,
}
use kilo_backend.Prelude.Int.{pos}
use kilo_backend.Prelude.Table.{find, find-put_ne, find-put_self, number_key}
use kilo_backend.Wallet.Ledger.{for_invoice}
use kilo_backend.Wallet.Service.{pay_invoice}
use mathlib.Core.Path.{subst}

pub record InvoicePaid (business id : ℕ) (x : Invoice) (s s' : Logistics) : Type 0 where
  pub before : Invoice
  pub was_there : find id s.invoices ≡ some before
  pub was_pending : before.status ≡ invoice_pending
  pub was_theirs : before.business ≡ business
  pub has_courier :
      (k : ℕ) × (d : Delivery) × (c : ℕ) × (before.delivery ≡ some k)
      × (find k s.deliveries ≡ some d)
      × (d.driver ≡ some c)
  pub row : find id s'.invoices ≡ some x
  pub is_paid : x.status ≡ invoice_paid
  pub same_amounts :
      (x.business ≡ before.business)
      × (x.amount ≡ before.amount)
      × (x.commission_amount ≡ before.commission_amount)
      × (x.delivery ≡ before.delivery)
  pub others : (j : ℕ) → j ≢ id → find j s'.invoices ≡ find j s.invoices
  pub deliveries_kept : s'.deliveries ≡ s.deliveries

pending_lem : (st : InvoiceStatus) → is_payable st ≡ true → st ≡ invoice_pending
pending_lem invoice_pending h = refl
pending_lem invoice_paid h = absurd (ground (arith, h))
pending_lem invoice_overdue h = absurd (ground (arith, h))

found_lem :
    (business id : ℕ) (s : Logistics)
    → Ensures
        (λ x u. (u ≡ s) × (find id s.invoices ≡ some x) × (x.business ≡ business))
        (find_invoice_or_throw business id s)
unfolding find_invoice_or_throw
found_lem business id s =
    let Q : Invoice → Logistics → Type 0 =
      λ x u. (u ≡ s) × (find id s.invoices ≡ some x) × (x.business ≡ business) in
    Ensures-or_throw Q not_found (find id s.invoices) _ s (λ x at.
      Ensures-throw_if Q (not (x.business == business)) not_found _ s
        (λ theirs. (refl, at, ground (arith, theirs))))

-- The rest of `payInvoice` once the invoice is found.
pay_found : ℕ → ℕ → Invoice → Action Logistics Invoice
pay_found business id x = do
  throw_if (not (is_payable x.status)) bad_request
  delivery_id ← or_throw bad_request x.delivery
  found ← gets (λ s. find delivery_id s.deliveries)
  d ← or_throw row_missing found
  driver ← or_throw bad_request d.driver
  tx ← in_ledger (
      pay_invoice business driver (pos x.amount) (pos x.commission_amount) (for_invoice id)
        (pos (delivery_tax d)))
  update_invoice id (paid_invoice tx.0)

pay_found_lem :
    (business id : ℕ) (x : Invoice) (s : Logistics)
    → find id s.invoices ≡ some x
    → x.business ≡ business
    → Ensures (λ y s'. InvoicePaid business id y s s') (pay_found business id x s)
unfolding pay_found update_invoice
pay_found_lem business id x s at theirs =
    let Q : Invoice → Logistics → Type 0 = λ y s'. InvoicePaid business id y s s' in
    Ensures-throw_if Q (not (is_payable x.status)) bad_request _ s (λ due.
      Ensures-or_throw Q bad_request x.delivery _ s (λ k of_delivery.
        Ensures-or_throw Q row_missing (find k s.deliveries) _ s (λ d there.
          Ensures-or_throw Q bad_request d.driver _ s (λ c carried.
            Ensures-in_ledger Q
              (pay_invoice business c (pos x.amount) (pos x.commission_amount) (for_invoice id)
                (pos (delivery_tax d)))
              (λ tx. update_invoice id (paid_invoice tx.0)) s
              (λ tx b. rw at (record {
                before = x;
                was_there = at;
                was_pending = pending_lem x.status (ground (arith, due));
                was_theirs = theirs;
                has_courier = (k, d, c, of_delivery, there, carried);
                row = find-put_self id (paid_invoice tx.0 x) s.invoices;
                is_paid = refl;
                same_amounts = (refl, refl, refl, refl);
                others = λ j apart. find-put_ne j id (paid_invoice tx.0 x) s.invoices apart;
                deliveries_kept = refl;
              }))))))

settle_invoice_lem :
    (business id : ℕ) (is_admin : Bool) (s : Logistics)
    → Ensures (λ y s'. InvoicePaid business id y s s') (settle_invoice business is_admin id s)
unfolding settle_invoice pay_found
settle_invoice_lem business id is_admin s =
    let Q : Invoice → Logistics → Type 0 = λ y s'. InvoicePaid business id y s s' in
    Ensures-throw_if Q (not is_admin) forbidden _ s (λ _.
      Ensures-bind (λ x u. (u ≡ s) × (find id s.invoices ≡ some x) × (x.business ≡ business)) Q
        (find_invoice_or_throw business id) (pay_found business id) s (found_lem business id s)
        (λ x u f.
          subst (λ w. Ensures Q (pay_found business id x w)) (sym f.0)
            (pay_found_lem business id x s f.1 f.2)))

refused :
    (business id : ℕ) (x : Invoice) (s : Logistics)
    → find id s.invoices ≡ some x
    → x.business ≡ business
    → x.status ≡ invoice_paid
    → settle_invoice business true id s ≡ (err bad_request, s)
unfolding settle_invoice find_invoice_or_throw
refused business id x s at theirs paid =
    let ours : x.business == business ≡ true = ground (arith, theirs) in
    rw (at, or_throw, go_on, ours, paid) refl

-- Where `payInvoice` returns: the invoice was pending and of this business, and its delivery has a
-- driver; it is paid now with its amounts kept, no other invoice and no delivery has changed, and
-- paying it again is a bad request that changes nothing.
pub settle_invoice_once :
    (business id : ℕ) (is_admin : Bool) (s : Logistics) {x : Invoice} {s' : Logistics}
    → settle_invoice business is_admin id s ≡ (ok x, s')
    → InvoicePaid business id x s s' × (settle_invoice business true id s' ≡ (err bad_request, s'))
settle_invoice_once business id is_admin s {x} {s'} e =
    let done : InvoicePaid business id x s s' =
      Ensures-ok (λ y u. InvoicePaid business id y s u) (settle_invoice_lem business id is_admin s)
        e in
    (done, refused business id x s' done.row (done.same_amounts.0 ∙ done.was_theirs) done.is_paid)
