-- ===== src/Rides/Store.antt =====
-- The tables of the rides (prisma/schema.prisma, models Ride, RideOffer and RideRating) beside the
-- ledger, the pricing and the promos. Positions, addresses, comments and time stamps are left out.
use kilo_backend.Prelude.{Option, ℕ, ℕ_discrete}
use kilo_backend.Prelude.Action.{Action, Result}
use kilo_backend.Prelude.Table.{Key, Table, number_key}
use kilo_backend.Pricing.Tariffs.{PricingStore}
use kilo_backend.Promo.Codes.{Promos}
use kilo_backend.Wallet.Ledger.{Books, Reference}

pub data RideStatus : Type 0 where
  requested dispatching accepted arrived in_progress : RideStatus
  ride_completed cancelled no_drivers_found : RideStatus

pub data RidePaymentMethod : Type 0 where
  wallet cash business_invoice : RidePaymentMethod

pub record Ride : Type 0 where
  pub rider : ℕ
  pub driver : Option ℕ
  pub status : RideStatus
  pub vehicle_type : ℕ
  pub payment_method : RidePaymentMethod
  pub service_area : Option ℕ
  pub subtotal_fare : ℕ
  pub promo_discount : ℕ
  pub estimated_fare : ℕ
  pub tax_amount : Option ℕ
  pub final_fare : Option ℕ
  pub commission_amount : Option ℕ
  pub transaction_id : Option Reference
  pub cancelled_by : Option ℕ
  pub cancellation_fee : Option ℕ

pub data RideOfferStatus : Type 0 where
  offer_pending offer_accepted offer_declined offer_expired : RideOfferStatus

-- A row of RideOffer; its key is the ride and the driver, which are unique.
pub record RideOffer : Type 0 where
  pub status : RideOfferStatus
  pub expires_at : ℕ

unfoldable pub Pair-discrete : Discrete (ℕ × ℕ)
Pair-discrete = hlevel (ℕ_discrete)

instance abbrev pub pair_key : Key (ℕ × ℕ)
pair_key = record { same = Pair-discrete }

pub record Rides : Type 0 where
  pub books : Books
  pub pricing : PricingStore
  pub promos : Promos
  pub ride_rows : Table ℕ Ride
  pub offers : Table (ℕ × ℕ) RideOffer
  pub ratings : Table ℕ ℕ

abbrev pub with_ledger : {A : Type 0} → Rides → Result A × Books → Result A × Rides
with_ledger s (r, b) = (r, record s { books = b })

abbrev pub on_ledger : {A : Type 0} → Action Books A → Action Rides A
on_ledger m s = with_ledger s (m s.books)

abbrev pub with_pricing : {A : Type 0} → Rides → Result A × PricingStore → Result A × Rides
with_pricing s (r, p) = (r, record s { pricing = p })

abbrev pub on_pricing : {A : Type 0} → Action PricingStore A → Action Rides A
on_pricing m s = with_pricing s (m s.pricing)

abbrev pub with_promos : {A : Type 0} → Rides → Result A × Promos → Result A × Rides
with_promos s (r, p) = (r, record s { promos = p })

abbrev pub on_promos : {A : Type 0} → Action Promos A → Action Rides A
on_promos m s = with_promos s (m s.promos)
