-- ===== src/Rides/Frame.antt =====
-- What the ledger and the pricing leave as it is in the tables of the rides (src/rides).
use kilo_backend.Prelude.{arith, holds, refl, true, ◌≡◌}
use kilo_backend.Prelude.Action.{Action, Ensures, Result, err, go_on, ok, ◌>>=◌}
use kilo_backend.Prelude.Table.{number_key}
use kilo_backend.Pricing.Tariffs.{PricingStore}
use kilo_backend.Promo.Codes.{Promos}
use kilo_backend.Rides.Store.{
  Ride, RideStatus, Rides, on_ledger, on_pricing, on_promos, with_ledger, with_pricing, with_promos,
}
use kilo_backend.Rides.Trips.{RideStatus-discrete, has_status}
use kilo_backend.Wallet.Ledger.{Books}

module _ {A B : Type 0} (Q : B → Rides → Type 0) where
  -- The rest of a block after a call of the wallet, whatever the wallet did.
  pub Ensures-on_ledger :
      (m : Action Books A) (f : A → Action Rides B) (s : Rides)
      → ((a : A) (b : Books) → Ensures Q (f a (record s { books = b })))
      → Ensures Q ((on_ledger m >>= f) s)
  Ensures-on_ledger m f s k = go (m s.books)
    where
      go : (r : Result A × Books) → Ensures Q (go_on f (with_ledger s r))
      go (ok a, b) = k a b
      go (err e, b) = tt

  pub Ensures-on_pricing :
      (m : Action PricingStore A) (f : A → Action Rides B) (s : Rides)
      → ((a : A) (p : PricingStore) → Ensures Q (f a (record s { pricing = p })))
      → Ensures Q ((on_pricing m >>= f) s)
  Ensures-on_pricing m f s k = go (m s.pricing)
    where
      go : (r : Result A × PricingStore) → Ensures Q (go_on f (with_pricing s r))
      go (ok a, p) = k a p
      go (err e, p) = tt

  -- The rest of a block after a call of the promos, with what that call ensures.
  pub Ensures-on_promos :
      (P : A → Promos → Type 0) (m : Action Promos A) (f : A → Action Rides B) (s : Rides)
      → Ensures P (m s.promos)
      → ((a : A) (p : Promos) → P a p → Ensures Q (f a (record s { promos = p })))
      → Ensures Q ((on_promos m >>= f) s)
  Ensures-on_promos P m f s h k = go (m s.promos) h
    where
      go : (r : Result A × Promos) → Ensures P r → Ensures Q (go_on f (with_promos s r))
      go (ok a, p) h = k a p h
      go (err e, p) h = tt

  -- The same with what the call ensures.
  pub Ensures-on_ledger_with :
      (P : A → Books → Type 0) (m : Action Books A) (f : A → Action Rides B) (s : Rides)
      → Ensures P (m s.books)
      → ((a : A) (b : Books) → P a b → Ensures Q (f a (record s { books = b })))
      → Ensures Q ((on_ledger m >>= f) s)
  Ensures-on_ledger_with P m f s h k = go (m s.books) h
    where
      go : (r : Result A × Books) → Ensures P r → Ensures Q (go_on f (with_ledger s r))
      go (ok a, b) h = k a b h
      go (err e, b) h = tt

  pub Ensures-on_pricing_run :
      (m : Action PricingStore A) (f : A → Action Rides B) (s : Rides)
      → ((a : A) (p : PricingStore)
          → m s.pricing ≡ (ok a, p)
          → Ensures Q (f a (record s { pricing = p })))
      → Ensures Q ((on_pricing m >>= f) s)
  Ensures-on_pricing_run m f s k = go (m s.pricing) refl
    where
      go : (r : Result A × PricingStore) → m s.pricing ≡ r → Ensures Q (go_on f (with_pricing s r))
      go (ok a, p) e = k a p e
      go (err x, p) e = tt

pub holds_sound : {A : Type 0} (d : Dec A) → holds d ≡ true → A
holds_sound (yes a) h = a
holds_sound (no n) h = absurd (ground (arith, h))

pub has_status_sound :
    (status : RideStatus) (r : Ride) → has_status status r ≡ true → r.status ≡ status
has_status_sound status r h = holds_sound (RideStatus-discrete r.status status) h
