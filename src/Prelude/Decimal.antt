-- ===== src/Prelude/Decimal.antt =====
-- decimal.js, on numbers that are not negative: a number is digits with a place of the point.
pub mod Order
use kilo_backend.Prelude.{
  Bool, arith, if◌then◌else◌, leb, suc, zero, ℕ, ◌*◌, ◌+◌, ◌/◌, ◌<◌, ◌^◌, ◌≡◌, ◌≤◌,
}
use native.Mathlib.Nat.{
  div-mul-le_self, le-div_iff_mul-le, le_of_mul-le-mul_right, lt-div-mul-add, mul-le-mul_right,
}

-- `mantissa / 10 ^ scale`
pub record Decimal : Type 0 where
  pub mantissa : ℕ
  pub scale : ℕ

-- The number of units of `10 ^ -(s + t)`, where `d` has `s` decimals.
abbrev pub at_scale : Decimal → ℕ → ℕ
at_scale d t = d.mantissa * 10 ^ t

abbrev pub mul : Decimal → Decimal → Decimal
mul a b = record { mantissa = a.mantissa * b.mantissa; scale = a.scale + b.scale }

abbrev pub plus : Decimal → Decimal → Decimal
plus a b = record { mantissa = at_scale a b.scale + at_scale b a.scale; scale = a.scale + b.scale }

abbrev pub less_or_equal : Decimal → Decimal → Bool
less_or_equal a b = leb (at_scale a b.scale) (at_scale b a.scale)

abbrev pub min : Decimal → Decimal → Decimal
min a b = if less_or_equal a b then a else b

abbrev pub max : Decimal → Decimal → Decimal
max a b = if less_or_equal a b then b else a

abbrev pub of_kobo : ℕ → Decimal
of_kobo k = record { mantissa = k; scale = 2 }

-- `toDecimalPlaces(2, ROUND_HALF_UP)`, in kobo
unfoldable pub to_kobo : Decimal → ℕ
to_kobo d = (2 * (d.mantissa * 100) + 10 ^ d.scale) / (2 * 10 ^ d.scale)

-- The value of one is at most that of the other.
infix 50 ◌≤D◌
abbrev pub ◌≤D◌ : Decimal → Decimal → Type 0
a ≤D b = at_scale a b.scale ≤ at_scale b a.scale

pub power_pos : (n : ℕ) → 0 < 10 ^ n
power_pos zero = ground arith
power_pos (suc n) = ground (arith, power_pos n)

-- Dividing keeps the order of fractions.
fraction_mono : (x k y l : ℕ) → 0 < k → 0 < l → x * l ≤ y * k → x / k ≤ y / l
fraction_mono x k y l hk hl h =
    let q : ℕ = x / k in
    let low : q * k ≤ x = div-mul-le_self x k in
    let both : q * l * k ≤ y * k = omega (arith, mul-le-mul_right l low, h) in
    (le-div_iff_mul-le hl).1 (le_of_mul-le-mul_right both hk)

half_mono :
    (m s n t : ℕ) → m * t ≤ n * s → (2 * (m * 100) + s) * (2 * t) ≤ (2 * (n * 100) + t) * (2 * s)
half_mono m s n t h = omega arith

pub to_kobo_mono : (a b : Decimal) → a ≤D b → to_kobo a ≤ to_kobo b
unfolding to_kobo
to_kobo_mono a b h =
    fraction_mono (2 * (a.mantissa * 100) + 10 ^ a.scale) (2 * 10 ^ a.scale)
      (2 * (b.mantissa * 100) + 10 ^ b.scale) (2 * 10 ^ b.scale) (omega (arith, power_pos a.scale))
      (omega (arith, power_pos b.scale))
      (half_mono a.mantissa (10 ^ a.scale) b.mantissa (10 ^ b.scale) h)

-- A whole number of kobo is rounded to itself.
pub to_kobo-of_kobo : (k : ℕ) → to_kobo (of_kobo k) ≡ k
unfolding to_kobo
to_kobo-of_kobo k = omega arith

-- The result is nearest: it is off by half a kobo at most.
pub to_kobo_near :
    (d : Decimal)
    → (2 * (to_kobo d * 10 ^ d.scale) ≤ 2 * (d.mantissa * 100) + 10 ^ d.scale)
      × (2 * (d.mantissa * 100) < 2 * (to_kobo d * 10 ^ d.scale) + 10 ^ d.scale)
unfolding to_kobo
to_kobo_near d =
    let top : ℕ = 2 * (d.mantissa * 100) + 10 ^ d.scale in
    let unit : ℕ = 2 * 10 ^ d.scale in
    let low : top / unit * unit ≤ top = div-mul-le_self top unit in
    let high : top < top / unit * unit + unit = lt-div-mul-add (omega (arith, power_pos d.scale)) in
    (omega (arith, low), omega (arith, high))
