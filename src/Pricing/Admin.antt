-- ===== src/Pricing/Admin.antt =====
-- The methods of PricingService (src/pricing/pricing.service.ts) that write tariffs and commission
-- rules. Each write drops the cached copy. The id of a new row is an argument.
use kilo_backend.Prelude.{Bool, Option, false, none, not, some, true, ℕ, ◌&&◌, ◌==◌}
use kilo_backend.Prelude.Action.{
  Action, bad_request, conflict, gets, modify, not_found, or_throw, pure, throw_if, ◌>>=◌, ◌>>◌,
}
use kilo_backend.Prelude.Decimal.{Decimal, less_or_equal, of_kobo}
use kilo_backend.Prelude.Int.{ℤ}
use kilo_backend.Prelude.Lists.{some_of}
use kilo_backend.Prelude.Table.{find, number_key, put}
use kilo_backend.Pricing.Tariffs.{
  CommissionRule, PricingStore, Tariff, TariffServiceType, or_else, rows, same_number, same_service,
}

-- `{ vehicleType, serviceAreaId: x ?? null, serviceType: y ?? null, isActive: true }`
unfoldable pub clashes : Tariff → Tariff → Bool
clashes dto t =
    (t.vehicle_type == dto.vehicle_type)
    && same_number t.service_area dto.service_area
    && same_service t.service_type dto.service_type
    && t.is_active

unfoldable pub invalidate_tariff_cache : Action PricingStore (Unit {0})
invalidate_tariff_cache = modify (λ s. record s { tariffs_cache = none })

unfoldable pub invalidate_commission_cache : Action PricingStore (Unit {0})
invalidate_commission_cache = modify (λ s. record s { rules_cache = none })

abbrev pub write_tariff : ℕ → Tariff → Action PricingStore (Unit {0})
write_tariff id t = modify (λ s. record s { tariffs = put id t s.tariffs })

abbrev pub write_rule : ℕ → CommissionRule → Action PricingStore (Unit {0})
write_rule id r = modify (λ s. record s { rules = put id r s.rules })

abbrev pub activated : Tariff → Tariff
activated t = record t { is_active = true }

unfoldable pub create_tariff : ℕ → Tariff → Action PricingStore Tariff
unfolding clashes invalidate_tariff_cache
create_tariff id dto = do
  conflicting ← gets (λ s. some_of (clashes dto) (rows s.tariffs))
  throw_if conflicting conflict
  write_tariff id (activated dto)
  invalidate_tariff_cache
  pure (activated dto)

unfoldable pub find_tariff_or_throw : ℕ → Action PricingStore Tariff
find_tariff_or_throw id = do found ← gets (λ s. find id s.tariffs); or_throw not_found found

-- What an update says of each column: a new value, or nothing.
pub record TariffPatch : Type 0 where
  pub vehicle_type : Option ℕ
  pub service_area : Option ℕ
  pub service_type : Option TariffServiceType
  pub base_fare : Option Decimal
  pub per_km_rate : Option Decimal
  pub per_minute_rate : Option Decimal
  pub minimum_fare : Option Decimal
  pub cancellation_fee : Option Decimal
  pub sort_order : Option ℤ
  pub duration_multiplier : Option Decimal

abbrev pub given : {A : Type 0} → Option A → A → A
given none a = a
given (some b) a = b

abbrev pub patched : TariffPatch → Tariff → Tariff
patched p t = record {
  vehicle_type = given p.vehicle_type t.vehicle_type;
  service_area = or_else p.service_area t.service_area;
  service_type = or_else p.service_type t.service_type;
  base_fare = given p.base_fare t.base_fare;
  per_km_rate = given p.per_km_rate t.per_km_rate;
  per_minute_rate = given p.per_minute_rate t.per_minute_rate;
  minimum_fare = given p.minimum_fare t.minimum_fare;
  cancellation_fee = given p.cancellation_fee t.cancellation_fee;
  sort_order = given p.sort_order t.sort_order;
  duration_multiplier = given p.duration_multiplier t.duration_multiplier;
  is_active = t.is_active;
}

unfoldable pub update_tariff : ℕ → TariffPatch → Action PricingStore Tariff
unfolding find_tariff_or_throw invalidate_tariff_cache
update_tariff id dto = do
  t ← find_tariff_or_throw id
  write_tariff id (patched dto t)
  invalidate_tariff_cache
  pure (patched dto t)

abbrev pub retired : Tariff → Tariff
retired t = record t { is_active = false }

unfoldable pub deactivate_tariff : ℕ → Action PricingStore Tariff
unfolding find_tariff_or_throw invalidate_tariff_cache
deactivate_tariff id = do
  t ← find_tariff_or_throw id
  write_tariff id (retired t)
  invalidate_tariff_cache
  pure (retired t)

unfoldable pub rule_clashes : ℕ → Option ℕ → CommissionRule → Bool
rule_clashes service vehicle r =
    (r.service_type == service) && same_number r.vehicle_type vehicle && r.is_active

-- `dto.rate > 1`; a rate below 0 is no Decimal here
abbrev pub exceeds_one : Decimal → Bool
exceeds_one rate = not (less_or_equal rate (of_kobo 100))

abbrev pub new_rule : ℕ → Option ℕ → Decimal → CommissionRule
new_rule service vehicle rate = record {
  service_type = service;
  vehicle_type = vehicle;
  rate = rate;
  is_active = true;
}

unfoldable pub create_commission_rule :
    ℕ → ℕ → Option ℕ → Decimal → Action PricingStore CommissionRule
unfolding rule_clashes invalidate_commission_cache
create_commission_rule id service vehicle rate = do
  conflicting ← gets (λ s. some_of (rule_clashes service vehicle) (rows s.rules))
  throw_if conflicting conflict
  throw_if (exceeds_one rate) bad_request
  write_rule id (new_rule service vehicle rate)
  invalidate_commission_cache
  pure (new_rule service vehicle rate)

pub record RulePatch : Type 0 where
  pub service_type : Option ℕ
  pub vehicle_type : Option ℕ
  pub rate : Option Decimal
  pub is_active : Option Bool

abbrev pub patched_rule : RulePatch → CommissionRule → CommissionRule
patched_rule p r = record {
  service_type = given p.service_type r.service_type;
  vehicle_type = or_else p.vehicle_type r.vehicle_type;
  rate = given p.rate r.rate;
  is_active = given p.is_active r.is_active;
}

unfoldable pub update_commission_rule : ℕ → RulePatch → Action PricingStore CommissionRule
unfolding invalidate_commission_cache
update_commission_rule id dto = do
  found ← gets (λ s. find id s.rules)
  existing ← or_throw not_found found
  write_rule id (patched_rule dto existing)
  invalidate_commission_cache
  pure (patched_rule dto existing)
