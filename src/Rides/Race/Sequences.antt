-- ===== src/Rides/Race/Sequences.antt =====
-- Runs of DispatchService (src/rides/dispatch.service.ts) that single statements make up.
use kilo_backend.Prelude.{Bool, List, Option, false, if◌then◌else◌, none, refl, some, true, ℕ, ◌≡◌}
use kilo_backend.Prelude.Action.{Action, Error, Result, or_throw, throw_if, ◌>>=◌, ◌>>◌}
use kilo_backend.Prelude.Table.{number_key}
use kilo_backend.Rides.Dispatch.{
  accept_offer, decline_offer, expire_round_if_unresolved, start_dispatch,
}
use kilo_backend.Rides.Race.{Reach, Step, System, followed_by, started}
use kilo_backend.Rides.Store.{Rides, pair_key}

-- The calls of the service, and what the tables hold after one.
pub data DispatchCall : Type 0 where
  start_dispatch_call : (now : ℕ) (near : List ℕ) (cash_cap id : ℕ) → DispatchCall
  accept_offer_call : (now cash_cap driver id : ℕ) → DispatchCall
  decline_offer_call : (driver id : ℕ) → DispatchCall
  expire_round_call : (id : ℕ) → DispatchCall

unfoldable pub after_call : DispatchCall → Rides → Rides
unfolding start_dispatch accept_offer decline_offer expire_round_if_unresolved
after_call (start_dispatch_call now near cash_cap id) s = (start_dispatch now near cash_cap id s).1
after_call (accept_offer_call now cash_cap driver id) s = (accept_offer now cash_cap driver id s).1
after_call (decline_offer_call driver id) s = (decline_offer driver id s).1
after_call (expire_round_call id) s = (expire_round_if_unresolved id s).1

-- The tables that a run leaves are those that some statements make of `x`.
unfoldable pub Runs : {A : Type 0} → System → Result A × Rides → Type 0
Runs x r = (y : System) × Reach x y × (y.store ≡ r.1)

pub before : {x y z : System} → Step x y → Reach y z → Reach x z
before st started = followed_by started st
before st (followed_by r t) = followed_by (before st r) t

module _ {A B : Type 0} where
  pub Runs-or_throw :
      (x : System) (e : Error) (o : Option A) (f : A → Action Rides B)
      → ((a : A) → Runs x (f a x.store))
      → Runs x ((or_throw e o >>= f) x.store)
  unfolding Runs
  Runs-or_throw x e none f k = (x, started, refl)
  Runs-or_throw x e (some a) f k = k a

pub Runs-read :
    {A : Type 0} (x : System) (e : Error) (o : Option A) → Runs x (or_throw {S = Rides} e o x.store)
unfolding Runs
Runs-read x e none = (x, started, refl)
Runs-read x e (some a) = (x, started, refl)

pub stop : {A : Type 0} (x : System) (r : Result A) → Runs x (r, x.store)
unfolding Runs
stop x r = (x, started, refl)

module _ {B : Type 0} where
  pub Runs-throw_if :
      (x : System) (b : Bool) (e : Error) (m : Action Rides B)
      → Runs x (m x.store)
      → Runs x ((throw_if b e >> m) x.store)
  unfolding Runs
  Runs-throw_if x true e m k = (x, started, refl)
  Runs-throw_if x false e m k = k

  pub Runs-if :
      (x : System) (b : Bool) (m n : Action Rides B)
      → Runs x (m x.store)
      → Runs x (n x.store)
      → Runs x ((if b then m else n) x.store)
  Runs-if x true m n k l = k
  Runs-if x false m n k l = l

-- What follows a statement follows from what it leaves.
pub after_step : {A : Type 0} {x y : System} (r : Result A × Rides) → Step x y → Runs y r → Runs x r
unfolding Runs
after_step r st (z, path, e) = (z, before st path, e)
