-- ===== src/Prelude/Keeps.antt =====
-- Invariants of actions: one rule for each way to build an action.
use kilo_backend.Prelude.{Bool, Option, false, if◌then◌else◌, none, some, true}
use kilo_backend.Prelude.Action.{
  Action, Ensures, Error, Result, err, gets, go_on, ok, or_throw, pure, roll_back, skip, throw,
  throw_if, transaction, ◌>>=◌,
}

-- `m` keeps `P`, whether it returns or throws.
pub record Keeps {S A : Type 0} (P : S → Type 0) (m : Action S A) : Type 0 where
  pub at : (s : S) → P s → P (m s).1

module _ {S A : Type 0} {P : S → Type 0} where
  pub Keeps-pure : (a : A) → Keeps P (pure a)
  Keeps-pure a = record { at = λ s h. h }

  pub Keeps-throw : (e : Error) → Keeps P (throw {A = A} e)
  Keeps-throw e = record { at = λ s h. h }

  pub Keeps-gets : (f : S → A) → Keeps P (gets f)
  Keeps-gets f = record { at = λ s h. h }

  pub Keeps-or_throw : (e : Error) (o : Option A) → Keeps P (or_throw e o)
  Keeps-or_throw e none = record { at = λ s h. h }
  Keeps-or_throw e (some a) = record { at = λ s h. h }

  pub Keeps-if :
      (b : Bool) (m n : Action S A) → Keeps P m → Keeps P n → Keeps P (if b then m else n)
  Keeps-if true m n km kn = km
  Keeps-if false m n km kn = kn

  -- A transaction keeps what its body has established where it returns.
  pub Keeps-transaction :
      (m : Action S A) → ((s : S) → P s → Ensures (λ _ s'. P s') (m s)) → Keeps P (transaction m)
  Keeps-transaction m k = record { at = λ s h. go s h (m s) (k s h) }
    where
      go : (s : S) → P s → (r : Result A × S) → Ensures (λ _ s'. P s') r → P (roll_back s r).1
      go s h (ok a, s') p = p
      go s h (err e, s') p = h

module _ {S A B : Type 0} {P : S → Type 0} where
  pub Keeps-bind :
      (m : Action S A) (f : A → Action S B)
      → Keeps P m
      → ((a : A) → Keeps P (f a))
      → Keeps P (m >>= f)
  Keeps-bind m f km kf = record { at = λ s h. go (m s) (km.at s h) }
    where
      go : (r : Result A × S) → P r.1 → P (go_on f r).1
      go (ok a, s') p = (kf a).at s' p
      go (err e, s') p = p

  -- The rest may use what holds of the value.
  pub Keeps-bind_with :
      (R : A → Type 0) (m : Action S A) (f : A → Action S B)
      → Keeps P m
      → ((s : S) → Ensures (λ a _. R a) (m s))
      → ((a : A) → R a → Keeps P (f a))
      → Keeps P (m >>= f)
  Keeps-bind_with R m f km has kf = record { at = λ s h. go (m s) (km.at s h) (has s) }
    where
      go : (r : Result A × S) → P r.1 → Ensures (λ a _. R a) r → P (go_on f r).1
      go (ok a, s') p q = (kf a q).at s' p
      go (err e, s') p q = p

module _ {S : Type 0} {P : S → Type 0} where
  pub Keeps-skip : Keeps P skip
  Keeps-skip = record { at = λ s h. h }

  pub Keeps-throw_if : (b : Bool) (e : Error) → Keeps P (throw_if b e)
  Keeps-throw_if true e = record { at = λ s h. h }
  Keeps-throw_if false e = record { at = λ s h. h }

module _ {S A : Type 0} where
  -- What is kept holds where the run returns.
  pub returned :
      (P : S → Type 0) (m : Action S A) (s : S) → Keeps P m → P s → Ensures (λ _ u. P u) (m s)
  returned P m s k h = go (m s) (k.at s h)
    where
      go : (r : Result A × S) → P r.1 → Ensures (λ _ u. P u) r
      go (ok a, u) p = p
      go (err e, u) p = tt

pub ruleset keeps_rules = (
  Keeps-pure, Keeps-throw, Keeps-gets, Keeps-or_throw, Keeps-if, Keeps-bind, Keeps-skip,
  Keeps-throw_if,
)
