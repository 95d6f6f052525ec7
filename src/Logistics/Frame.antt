-- ===== src/Logistics/Frame.antt =====
-- What the ledger and the pricing leave as it is in the tables of the deliveries (src/logistics).
use kilo_backend.Logistics.Store.{Logistics, in_ledger, in_pricing, keep_ledger, keep_pricing}
use kilo_backend.Prelude.Action.{Action, Ensures, Result, err, go_on, ok, ◌>>=◌}
use kilo_backend.Pricing.Tariffs.{PricingStore}
use kilo_backend.Wallet.Ledger.{Books}

module _ {A B : Type 0} (Q : B → Logistics → Type 0) where
  pub Ensures-in_ledger :
      (m : Action Books A) (f : A → Action Logistics B) (s : Logistics)
      → ((a : A) (b : Books) → Ensures Q (f a (record s { books = b })))
      → Ensures Q ((in_ledger m >>= f) s)
  Ensures-in_ledger m f s k = go (m s.books)
    where
      go : (r : Result A × Books) → Ensures Q (go_on f (keep_ledger s r))
      go (ok a, b) = k a b
      go (err e, b) = tt

  -- The same with what the call ensures.
  pub Ensures-in_ledger_with :
      (P : A → Books → Type 0) (m : Action Books A) (f : A → Action Logistics B) (s : Logistics)
      → Ensures P (m s.books)
      → ((a : A) (b : Books) → P a b → Ensures Q (f a (record s { books = b })))
      → Ensures Q ((in_ledger m >>= f) s)
  Ensures-in_ledger_with P m f s h k = go (m s.books) h
    where
      go : (r : Result A × Books) → Ensures P r → Ensures Q (go_on f (keep_ledger s r))
      go (ok a, b) h = k a b h
      go (err e, b) h = tt

  pub Ensures-in_pricing :
      (m : Action PricingStore A) (f : A → Action Logistics B) (s : Logistics)
      → ((a : A) (p : PricingStore) → Ensures Q (f a (record s { pricing = p })))
      → Ensures Q ((in_pricing m >>= f) s)
  Ensures-in_pricing m f s k = go (m s.pricing)
    where
      go : (r : Result A × PricingStore) → Ensures Q (go_on f (keep_pricing s r))
      go (ok a, p) = k a p
      go (err e, p) = tt
