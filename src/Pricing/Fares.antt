-- ===== src/Pricing/Fares.antt =====
-- `calculateFare`, `estimateTripMinutes` and `buildFareBreakdown` of
-- src/pricing/pricing.service.ts, with numbers that are not negative, and their bounds.
use kilo_backend.Prelude.{arith, if◌then◌else◌, leb, refl, ℕ, ◌+◌, ◌-◌, ◌/◌, ◌^◌, ◌≡◌, ◌≤◌}
use kilo_backend.Prelude.Decimal.{
  Decimal, max, min, mul, of_kobo, plus, to_kobo, to_kobo-of_kobo, to_kobo_mono, ◌≤D◌,
}
use kilo_backend.Prelude.Decimal.Order.{
  max-le_right, max_mono, min-le_left, min-le_right, mul-le_self, mul_mono, plus_mono, ≤D_refl,
}
use kilo_backend.Pricing.Tariffs.{Tariff}

-- `roundMoney`
abbrev pub round_money : Decimal → Decimal
round_money d = of_kobo (to_kobo d)

unfoldable pub calculate_fare : Tariff → Decimal → Decimal → Decimal
calculate_fare tariff distance_km duration_minutes =
    let distance_cost = mul tariff.per_km_rate distance_km in
    let time_cost = mul tariff.per_minute_rate duration_minutes in
    let fare = plus (plus tariff.base_fare distance_cost) time_cost in
    round_money (max fare tariff.minimum_fare)

-- `Math.ceil`
unfoldable pub ceil : Decimal → ℕ
ceil d = (d.mantissa + (10 ^ d.scale - 1)) / 10 ^ d.scale

unfoldable pub estimate_trip_minutes : Tariff → Decimal → ℕ
unfolding ceil
estimate_trip_minutes tariff route =
    let minutes = ceil (mul tariff.duration_multiplier route) in
    if leb minutes 1 then 1 else minutes

-- The amounts of a fare, in kobo.
pub record FareBreakdown : Type 0 where
  pub subtotal : ℕ
  pub promo_discount : ℕ
  pub tax : ℕ
  pub total : ℕ

-- `rate` is what `getTaxRate` reads from the platform's configuration.
unfoldable pub build_fare_breakdown : Decimal → Decimal → Decimal → FareBreakdown
build_fare_breakdown rate subtotal promo_discount =
    let rounded = to_kobo subtotal in
    let discount = to_kobo (min promo_discount (of_kobo rounded)) in
    let taxable = rounded - discount in
    let tax = to_kobo (mul (of_kobo taxable) rate) in
    record { subtotal = rounded; promo_discount = discount; tax = tax; total = taxable + tax }

pub record Adds (b : FareBreakdown) (rate subtotal promo : Decimal) : Type 0 where
  pub subtotal_rounded : b.subtotal ≡ to_kobo subtotal
  pub discount_fits : b.promo_discount ≤ b.subtotal
  pub discount_given : b.promo_discount ≤ to_kobo promo
  pub adds_up : b.total + b.promo_discount ≡ b.subtotal + b.tax
  pub tax_of_rest : b.tax ≡ to_kobo (mul (of_kobo (b.subtotal - b.promo_discount)) rate)
  pub tax_fits : rate ≤D of_kobo 100 → b.tax + b.promo_discount ≤ b.subtotal

-- The discount is at most the fare before it and at most the promotion, the total is the fare less
-- the discount plus the tax, the tax is that of the discounted fare, and it is at most the
-- discounted fare where the rate is at most 1.
pub build_fare_breakdown-Adds :
    (rate subtotal promo : Decimal)
    → Adds (build_fare_breakdown rate subtotal promo) rate subtotal promo
unfolding build_fare_breakdown
build_fare_breakdown-Adds rate subtotal promo =
    let rounded : ℕ = to_kobo subtotal in
    let discount : ℕ = to_kobo (min promo (of_kobo rounded)) in
    let fits : discount ≤ rounded = ground (
      arith,
      to_kobo_mono (min promo (of_kobo rounded)) (of_kobo rounded)
          (min-le_right promo (of_kobo rounded)),
      to_kobo-of_kobo rounded,
    ) in
    record {
      subtotal_rounded = refl;
      discount_fits = fits;
      discount_given =
          to_kobo_mono (min promo (of_kobo rounded)) promo (min-le_left promo (of_kobo rounded));
      adds_up = omega (arith, fits);
      tax_of_rest = refl;
      tax_fits = λ h. omega (arith, fits, mul-le_self (rounded - discount) rate h);
    }

-- The fare is at least the tariff's minimum, rounded, and does not fall where the trip gets longer
-- or slower.
pub calculate_fare_bounds :
    (t : Tariff) (d d' m m' : Decimal)
    → d ≤D d'
    → m ≤D m'
    → (to_kobo t.minimum_fare ≤ (calculate_fare t d m).mantissa)
      × ((calculate_fare t d m).mantissa ≤ (calculate_fare t d' m').mantissa)
unfolding calculate_fare
calculate_fare_bounds t d d' m m' h k =
    let floor_of : Decimal → Decimal → Decimal =
      λ x y. plus (plus t.base_fare (mul t.per_km_rate x)) (mul t.per_minute_rate y) in
    (
      to_kobo_mono t.minimum_fare (max (floor_of d m) t.minimum_fare)
          (max-le_right (floor_of d m) t.minimum_fare),
      to_kobo_mono (max (floor_of d m) t.minimum_fare) (max (floor_of d' m') t.minimum_fare) (
          max_mono (floor_of d m) (floor_of d' m') t.minimum_fare (
            plus_mono (plus t.base_fare (mul t.per_km_rate d))
              (plus t.base_fare (mul t.per_km_rate d')) (mul t.per_minute_rate m)
              (mul t.per_minute_rate m')
              (plus_mono t.base_fare t.base_fare (mul t.per_km_rate d) (mul t.per_km_rate d')
                (≤D_refl t.base_fare) (mul_mono t.per_km_rate d d' h))
              (mul_mono t.per_minute_rate m m' k))),
    )
