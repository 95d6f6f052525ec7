-- ===== src/Rides/Earned.antt =====
-- What the ledger holds once a trip or a delivery has been settled, by the way in which it is paid
-- (src/rides/trip.service.ts, src/logistics/logistics-trip.service.ts).
use kilo_backend.Prelude.{Option, ap, inl, inr, is_some, none, refl, some, true, ℕ, ◌+◌, ◌≡◌, ◌⊎◌}
use kilo_backend.Prelude.Action.{Ensures, Ensures-bind, pure, ◌>>=◌}
use kilo_backend.Prelude.Int.{pos}
use kilo_backend.Prelude.Table.{find, number_key}
use kilo_backend.Rides.Store.{RidePaymentMethod, cash, wallet}
use kilo_backend.Wallet.Cash.{CashRecorded, record_cash_commission_lem}
use kilo_backend.Wallet.Effects.{Effect, fare_params, pay_fare-Effect}
use kilo_backend.Wallet.Fares.{Done-FarePaid, FarePaid}
use kilo_backend.Wallet.Ledger.{
  AccountId, Books, DriverStatus, Reference, Transaction, TransactionType, account_key, balance_of,
  commission_of, online, reference_key,
}
use kilo_backend.Wallet.Service.{pay_fare, record_cash_commission}

-- The driver is online again, and the ledger is as it was.
unfoldable pub IsFreed : ℕ → Books → Books → Type 0
IsFreed driver b b' =
    (b'.accounts ≡ b.accounts)
    × (b'.transactions ≡ b.transactions)
    × (d : DriverStatus) × (find driver b'.drivers ≡ some d)
    × (d.availability ≡ online)

-- No balance has moved, since the reference was known.
abbrev pub Unmoved : Reference → Books → Books → Type 0
Unmoved q s s' =
    (is_some (find q s.transactions) ≡ true)
    × ((a : AccountId) → balance_of a s'.accounts ≡ balance_of a s.accounts)

-- A wallet pays the fare under a new reference; cash leaves the driver in debt for commission and
-- tax, under a reference of its own.
abbrev pub Earned :
    RidePaymentMethod → ℕ → ℕ → ℕ → ℕ → ℕ → Reference → Books → Option Reference → Books → Type 0
Earned wallet payer driver fare cut tax q s tx s' =
    (tx ≡ some q)
    × (((find q s.transactions ≡ none) × FarePaid payer driver (pos fare) (pos cut) (pos tax) s s')
        ⊎ Unmoved q s s')
Earned _ payer driver fare cut tax q s tx s' =
    (tx ≡ none)
    × (r : Reference × Transaction) × CashRecorded driver (pos (cut + tax)) (commission_of q) s r s'

pub paid-Earned :
    (type : TransactionType) (payer driver fare cut tax : ℕ) (q : Reference) (s : Books)
    → Ensures
        (Earned wallet payer driver fare cut tax q s)
        ((pay_fare type payer driver (pos fare) (pos cut) q (pos tax) >>= λ r. pure (some r.0)) s)
unfolding fare_params
paid-Earned type payer driver fare cut tax q s =
    Ensures-bind (Effect (fare_params type payer driver (pos fare) (pos cut) q (pos tax)) s)
      (Earned wallet payer driver fare cut tax q s)
      (pay_fare type payer driver (pos fare) (pos cut) q (pos tax)) _ s
      (pay_fare-Effect type payer driver (pos fare) (pos cut) q (pos tax) s)
      (λ r s' e. (
        ap some e.0,
        elim e.1 [
          | inl again ↦ inr (ap is_some again.known, again.same_balances)
          | inr d ↦
              inl (
                d.fresh,
                Done-FarePaid payer driver (pos fare) (pos cut) (pos tax) type q r.1 s s' d,
              )
        ],
      ))

pub cash-Earned :
    (type : TransactionType) (payer driver fare cut tax : ℕ) (q : Reference) (s : Books)
    → Ensures (Earned cash payer driver fare cut tax q s) (
        (record_cash_commission type driver (pos (cut + tax)) (commission_of q) >>= λ _. pure none)
          s)
cash-Earned type payer driver fare cut tax q s =
    Ensures-bind (CashRecorded driver (pos (cut + tax)) (commission_of q) s)
      (Earned cash payer driver fare cut tax q s)
      (record_cash_commission type driver (pos (cut + tax)) (commission_of q)) _ s
      (record_cash_commission_lem type driver (pos (cut + tax)) (commission_of q) s)
      (λ r s' c. (refl, r, c))
