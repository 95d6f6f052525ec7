-- ===== src/Rides/FeeShares.antt =====
-- The shares of a cancellation fee once the money columns have rounded them
-- (src/rides/cancellation.service.ts).
use kilo_backend.Prelude.{arith, ℕ, ◌*◌, ◌+◌, ◌-◌, ◌<◌, ◌^◌, ◌≡◌, ◌≤◌}
use kilo_backend.Prelude.Decimal.{Decimal, of_kobo, power_pos, to_kobo, to_kobo_near, ◌≤D◌}
use kilo_backend.Prelude.Decimal.Order.{power_add}
use kilo_backend.Rides.Cancellation.{minus}
use mathlib.Core.Path.{subst}
use native.Mathlib.Nat.{le_of_mul-le-mul_right, lt_of_mul-lt-mul_right}

shares_upper :
    (s m k x y : ℕ)
    → m * 100 ≤ k * s
    → 2 * (x * (100 * s)) ≤ 2 * ((k * s - m * 100) * 100) + 100 * s
    → 2 * (y * s) ≤ 2 * (m * 100) + s
    → (x + y) * s ≤ (k + 1) * s
shares_upper s m k x y fits hx hy = omega (arith, fits, hx, hy)

shares_lower :
    (s m k x y : ℕ)
    → m * 100 ≤ k * s
    → 2 * ((k * s - m * 100) * 100) < 2 * (x * (100 * s)) + 100 * s
    → 2 * (m * 100) < 2 * (y * s) + s
    → k * s < (x + y + 1) * s
shares_lower s m k x y fits hx hy = omega (arith, fits, hx, hy)

-- The driver's share and the platform's commission of a fee, each rounded to kobo, are together at
-- least the fee and at most one kobo more, where the commission is at most the fee.
pub fee_rounding :
    (k : ℕ) (commission : Decimal)
    → commission ≤D of_kobo k
    → (k ≤ to_kobo (minus (of_kobo k) commission) + to_kobo commission)
      × (to_kobo (minus (of_kobo k) commission) + to_kobo commission ≤ k + 1)
fee_rounding k c fits =
    let s : ℕ = 10 ^ c.scale in
    let x : ℕ = to_kobo (minus (of_kobo k) c) in
    let y : ℕ = to_kobo c in
    let nx = to_kobo_near (minus (of_kobo k) c) in
    let ny = to_kobo_near c in
    let power : 10 ^ (2 + c.scale) ≡ 100 * s = power_add 2 c.scale in
    let low : k * s < (x + y + 1) * s =
      shares_lower s c.mantissa k x y fits
        (subst (λ u. 2 * ((k * s - c.mantissa * 100) * 100) < 2 * (x * u) + u) power nx.1) ny.1 in
    let high : (x + y) * s ≤ (k + 1) * s =
      shares_upper s c.mantissa k x y fits
        (subst (λ u. 2 * (x * u) ≤ 2 * ((k * s - c.mantissa * 100) * 100) + u) power nx.0) ny.0 in
    (omega (arith, lt_of_mul-lt-mul_right s low), le_of_mul-le-mul_right high (power_pos c.scale))
