-- ===== src/Promo/Examples.antt =====
-- A code on small tables, and the theorem at an input that meets its hypothesis.
use kilo_backend.Prelude.{[], none, refl, some, true, ℕ_discrete, ◌∷◌}
use kilo_backend.Prelude.Decimal.{of_kobo}
use kilo_backend.Prelude.Table.{number_key}
use kilo_backend.Promo.Codes.{
  Granted, PromoApplicableService-discrete, PromoCode, Promos, discount_of, for_rides, percentage,
  validate, validate_grants,
}

-- 50 % off rides, at most 1000.00, twice for each user.
abbrev half_off : PromoCode
half_off = record {
  type = percentage;
  value = of_kobo 5000;
  max_discount = some (of_kobo 100000);
  usage_limit_total = none;
  usage_limit_per_user = some 2;
  valid_from = 10;
  valid_until = 20;
  applicable_services = for_rides ∷ [];
  is_active = true;
}

abbrev running : Promos
running = record { promos = (1, half_off) ∷ []; redemptions = [] }

validate_grants_example : Granted 15 1 4 for_rides (of_kobo 300000) (of_kobo 100000) running running
unfolding validate discount_of PromoApplicableService-discrete ℕ_discrete
validate_grants_example = validate_grants 15 1 4 for_rides (of_kobo 300000) running refl
