-- ===== src/Pricing/Tariffs.antt =====
-- The state of PricingService (src/pricing/pricing.service.ts) and its reads: the tables Tariff and
-- CommissionRule, and the copies of their active rows that Redis holds. Names that are only compared
-- (vehicle types, areas, ids) are numbers. A cached row comes back from JSON as it was stored.
use kilo_backend.Prelude.{
  Bool, List, Option, [], false, holds, if◌then◌else◌, is_some, leb, map, none, some, true, ℕ,
  ℕ_discrete, ◌&&◌, ◌+◌, ◌==◌, ◌||◌, ◌∷◌,
}
use kilo_backend.Prelude.Action.{Action, gets, modify, not_found, or_throw, pure, ◌>>=◌, ◌>>◌}
use kilo_backend.Prelude.Decimal.{Decimal}
use kilo_backend.Prelude.Int.{leb_ℤ, ℤ}
use kilo_backend.Prelude.Lists.{first_of?, keep, some_of}
use kilo_backend.Prelude.Sort.{head?, sort}
use kilo_backend.Prelude.Table.{Table}

-- `enum TariffServiceType`
pub data TariffServiceType : Type 0 where
  ride package_type freight : TariffServiceType

unfoldable pub TariffServiceType-discrete : Discrete TariffServiceType
TariffServiceType-discrete = hlevel

pub record Tariff : Type 0 where
  pub vehicle_type : ℕ
  pub service_area : Option ℕ
  pub service_type : Option TariffServiceType
  pub base_fare : Decimal
  pub per_km_rate : Decimal
  pub per_minute_rate : Decimal
  pub minimum_fare : Decimal
  pub cancellation_fee : Decimal
  pub sort_order : ℤ
  pub duration_multiplier : Decimal
  pub is_active : Bool

pub record CommissionRule : Type 0 where
  pub service_type : ℕ
  pub vehicle_type : Option ℕ
  pub rate : Decimal
  pub is_active : Bool

pub record PricingStore : Type 0 where
  pub tariffs : Table ℕ Tariff
  pub rules : Table ℕ CommissionRule
  pub tariffs_cache : Option (List Tariff)
  pub rules_cache : Option (List CommissionRule)

-- `===` on values that may be null
abbrev pub same_option : {A : Type 0} → Discrete A → Option A → Option A → Bool
same_option d none none = true
same_option d none (some b) = false
same_option d (some a) none = false
same_option d (some a) (some b) = holds (d a b)

abbrev pub same_number : Option ℕ → Option ℕ → Bool
same_number = same_option ℕ_discrete

abbrev pub same_service : Option TariffServiceType → Option TariffServiceType → Bool
same_service = same_option TariffServiceType-discrete

abbrev pub rows : {V : Type 0} → Table ℕ V → List V
rows t = map (λ r. r.1) t

-- `findMany({ where: { isActive: true } })`
abbrev pub active_tariffs : Table ℕ Tariff → List Tariff
active_tariffs t = keep (λ x. x.is_active) (rows t)

abbrev pub active_rules : Table ℕ CommissionRule → List CommissionRule
active_rules t = keep (λ x. x.is_active) (rows t)

-- What the cache holds, or else the table's active rows, which the cache holds from then on.
abbrev pub cached_tariffs : Option (List Tariff) → Action PricingStore (List Tariff)
cached_tariffs (some ts) = pure ts
cached_tariffs none = do
  ts ← gets (λ s. active_tariffs s.tariffs)
  modify (λ s. record s { tariffs_cache = some ts })
  pure ts

unfoldable pub get_active_tariffs : Action PricingStore (List Tariff)
get_active_tariffs = do cached ← gets (λ s. s.tariffs_cache); cached_tariffs cached

abbrev pub cached_rules : Option (List CommissionRule) → Action PricingStore (List CommissionRule)
cached_rules (some rs) = pure rs
cached_rules none = do
  rs ← gets (λ s. active_rules s.rules)
  modify (λ s. record s { rules_cache = some rs })
  pure rs

unfoldable pub get_active_commission_rules : Action PricingStore (List CommissionRule)
get_active_commission_rules = do cached ← gets (λ s. s.rules_cache); cached_rules cached

-- `serviceType === undefined || t.serviceType === serviceType || t.serviceType === null`
abbrev pub serves : Option TariffServiceType → Option TariffServiceType → Bool
serves none _ = true
serves (some s) t = same_service t (some s) || same_service t none

-- The test of the filter in `resolveTariff`.
unfoldable pub is_candidate : ℕ → Option ℕ → Option TariffServiceType → Tariff → Bool
is_candidate vehicle area service t =
    (t.vehicle_type == vehicle)
    && (same_number t.service_area area || same_number t.service_area none)
    && serves service t.service_type

unfoldable pub score : Option ℕ → Option TariffServiceType → Tariff → ℕ
score area service t =
    (if is_some service && same_service t.service_type service then 2 else 0)
    + (if is_some area && same_number t.service_area area then 1 else 0)

-- `score(b) - score(a) <= 0`
abbrev pub outranks : Option ℕ → Option TariffServiceType → Tariff → Tariff → Bool
outranks area service a b = leb (score area service b) (score area service a)

unfoldable pub resolve_tariff :
    List Tariff → ℕ → Option ℕ → Option TariffServiceType → Option Tariff
unfolding is_candidate score
resolve_tariff ts vehicle area service =
    head? (sort (outranks area service) (keep (is_candidate vehicle area service) ts))

unfoldable pub get_active_tariff :
    ℕ → Option ℕ → Option TariffServiceType → Action PricingStore Tariff
unfolding get_active_tariffs resolve_tariff
get_active_tariff vehicle area service = do
  ts ← get_active_tariffs
  or_throw not_found (resolve_tariff ts vehicle area service)

abbrev pub has_rule : ℕ → Option ℕ → CommissionRule → Bool
has_rule service vehicle r = (r.service_type == service) && same_number r.vehicle_type vehicle

-- `exact ?? fallback`
abbrev pub or_else : {A : Type 0} → Option A → Option A → Option A
or_else none o = o
or_else (some a) o = some a

unfoldable pub resolve_rule : List CommissionRule → ℕ → Option ℕ → Option CommissionRule
resolve_rule rs service vehicle =
    or_else (first_of? (has_rule service vehicle) rs) (first_of? (has_rule service none) rs)

unfoldable pub get_active_commission_rate : ℕ → Option ℕ → Action PricingStore CommissionRule
unfolding get_active_commission_rules resolve_rule
get_active_commission_rate service vehicle = do
  rs ← get_active_commission_rules
  or_throw not_found (resolve_rule rs service vehicle)

-- `[...new Set(xs)]`: each item once, where it stands first
abbrev pub distinct_from : List ℕ → List ℕ → List ℕ
distinct_from seen [] = []
distinct_from seen (x ∷ xs) =
    let rest = distinct_from seen xs in
    let next = distinct_from (x ∷ seen) xs in if some_of (λ y. y == x) seen then rest else x ∷ next

abbrev pub values : {A : Type 0} → List (Option A) → List A
values [] = []
values (none ∷ os) = values os
values (some a ∷ os) = a ∷ values os

unfoldable pub list_for_service : List Tariff → TariffServiceType → Option ℕ → List Tariff
unfolding resolve_tariff
list_for_service ts service area =
    let offered = keep (λ t. serves (some service) t.service_type) ts in
    let vehicles = distinct_from [] (map (λ t. t.vehicle_type) offered) in
    let resolved = values (map (λ v. resolve_tariff ts v area (some service)) vehicles) in
    sort (λ a b. leb_ℤ a.sort_order b.sort_order) resolved

unfoldable pub list_active_tariffs_for_service :
    TariffServiceType → Option ℕ → Action PricingStore (List Tariff)
unfolding get_active_tariffs list_for_service
list_active_tariffs_for_service service area = do
  ts ← get_active_tariffs
  pure (list_for_service ts service area)
