-- ===== src/Logistics/Invoices.antt =====
-- `payInvoice` of BusinessInvoicesService (src/business/business-invoices.service.ts). Whether the user is
-- an administrator of the business is an argument.
use kilo_backend.Logistics.Store.{
  Invoice, InvoiceStatus, Logistics, in_ledger, invoice_paid, invoice_pending,
}
use kilo_backend.Logistics.Trips.{delivery_tax}
use kilo_backend.Prelude.{Bool, false, not, some, true, ℕ, ◌==◌}
use kilo_backend.Prelude.Action.{
  Action, bad_request, forbidden, gets, modify, not_found, or_throw, pure, row_missing, throw_if,
  ◌>>=◌, ◌>>◌,
}
use kilo_backend.Prelude.Int.{pos}
use kilo_backend.Prelude.Table.{find, number_key, put}
use kilo_backend.Wallet.Ledger.{Reference, for_invoice}
use kilo_backend.Wallet.Service.{pay_invoice}

abbrev pub is_payable : InvoiceStatus → Bool
is_payable invoice_pending = true
is_payable _ = false

-- `findInvoiceOrThrow`
unfoldable pub find_invoice_or_throw : ℕ → ℕ → Action Logistics Invoice
find_invoice_or_throw business id = do
  found ← gets (λ s. find id s.invoices)
  x ← or_throw not_found found
  throw_if (not (x.business == business)) not_found
  pure x

abbrev pub paid_invoice : Reference → Invoice → Invoice
paid_invoice tx x = record x { status = invoice_paid; transaction_id = some tx }

unfoldable pub update_invoice : ℕ → (Invoice → Invoice) → Action Logistics Invoice
update_invoice id f = do
  found ← gets (λ s. find id s.invoices)
  x ← or_throw row_missing found
  modify (λ s. record s { invoices = put id (f x) s.invoices })
  pure (f x)

unfoldable pub settle_invoice : ℕ → Bool → ℕ → Action Logistics Invoice
unfolding find_invoice_or_throw update_invoice
settle_invoice business is_admin id = do
  throw_if (not is_admin) forbidden
  x ← find_invoice_or_throw business id
  throw_if (not (is_payable x.status)) bad_request
  delivery_id ← or_throw bad_request x.delivery
  found ← gets (λ s. find delivery_id s.deliveries)
  d ← or_throw row_missing found
  driver ← or_throw bad_request d.driver
  tx ← in_ledger (
      pay_invoice business driver (pos x.amount) (pos x.commission_amount) (for_invoice id)
        (pos (delivery_tax d)))
  update_invoice id (paid_invoice tx.0)
