-- ===== src/Logistics/Store.antt =====
-- The tables of the deliveries (prisma/schema.prisma, models Delivery, DeliveryStop and Invoice) beside
-- the ledger and the pricing. Positions, addresses, descriptions and time stamps are left out, save
-- that a milestone is there; the fare is set when a delivery is booked.
use kilo_backend.Prelude.{Bool, Option, ℕ}
use kilo_backend.Prelude.Action.{Action, Result}
use kilo_backend.Prelude.Table.{Table, number_key}
use kilo_backend.Pricing.Tariffs.{PricingStore}
use kilo_backend.Rides.Store.{RidePaymentMethod}
use kilo_backend.Wallet.Ledger.{Books, Reference}

pub data DeliveryStatus : Type 0 where
  delivery_scheduled delivery_requested delivery_dispatching : DeliveryStatus
  delivery_accepted picked_up delivery_completed : DeliveryStatus
  delivery_cancelled delivery_unserved : DeliveryStatus

pub data ProofOfDeliveryType : Type 0 where
  otp signature photo : ProofOfDeliveryType

pub record Delivery : Type 0 where
  pub sender : ℕ
  pub driver : Option ℕ
  pub business : Option ℕ
  pub status : DeliveryStatus
  pub vehicle_type : ℕ
  pub payment_method : RidePaymentMethod
  pub estimated_fare : ℕ
  pub tax_amount : Option ℕ
  pub final_fare : Option ℕ
  pub commission_amount : Option ℕ
  pub receiver_otp_hash : Option ℕ
  pub pod_type : Option ProofOfDeliveryType
  pub arrived_at_pickup : Bool
  pub arrived_at_dropoff : Bool
  pub transaction_id : Option Reference

pub record DeliveryStop : Type 0 where
  pub delivery : ℕ
  pub is_done : Bool

pub data InvoiceStatus : Type 0 where
  invoice_pending invoice_paid invoice_overdue : InvoiceStatus

pub record Invoice : Type 0 where
  pub business : ℕ
  pub delivery : Option ℕ
  pub amount : ℕ
  pub commission_amount : ℕ
  pub status : InvoiceStatus
  pub transaction_id : Option Reference

pub record Logistics : Type 0 where
  pub books : Books
  pub pricing : PricingStore
  pub deliveries : Table ℕ Delivery
  pub stops : Table ℕ DeliveryStop
  pub invoices : Table ℕ Invoice

module _ {A : Type 0} where
  abbrev pub keep_ledger : Logistics → Result A × Books → Result A × Logistics
  keep_ledger s (r, b) = (r, record s { books = b })

  abbrev pub in_ledger : Action Books A → Action Logistics A
  in_ledger m s = keep_ledger s (m s.books)

  abbrev pub keep_pricing : Logistics → Result A × PricingStore → Result A × Logistics
  keep_pricing s (r, p) = (r, record s { pricing = p })

  abbrev pub in_pricing : Action PricingStore A → Action Logistics A
  in_pricing m s = keep_pricing s (m s.pricing)
