-- ===== src/Prelude/Decimal/Order.antt =====
-- The order of decimals and how sums, products, minima and maxima keep it.
use kilo_backend.Prelude.{
  Bool-cases, arith, false, inl, inr, suc, true, zero, ℕ, ◌*◌, ◌+◌, ◌<◌, ◌^◌, ◌≡◌, ◌≤◌,
}
use kilo_backend.Prelude.Decimal.{
  Decimal, less_or_equal, max, min, mul, of_kobo, plus, power_pos, to_kobo, to_kobo-of_kobo,
  to_kobo_mono, ◌≤D◌,
}
use native.Mathlib.Nat.{le_of_mul-le-mul_right, mul-le-mul_right, pow-suc, suc-add, zero-add}

cross_trans : (a s b t c u : ℕ) → 0 < t → a * t ≤ b * s → b * u ≤ c * t → a * u ≤ c * s
cross_trans a s b t c u ht h k =
    let left : a * t * u ≤ b * s * u = mul-le-mul_right u h in
    let right : b * u * s ≤ c * t * s = mul-le-mul_right s k in
    let both : a * u * t ≤ c * s * t = omega (arith, left, right) in le_of_mul-le-mul_right both ht

pub ≤D_trans : (a b c : Decimal) → a ≤D b → b ≤D c → a ≤D c
≤D_trans a b c h k =
    cross_trans a.mantissa (10 ^ a.scale) b.mantissa (10 ^ b.scale) c.mantissa (10 ^ c.scale)
      (power_pos b.scale) h k

pub ≤D_refl : (a : Decimal) → a ≤D a
≤D_refl a = omega arith

less_or_equal-≤D : (a b : Decimal) → less_or_equal a b ≡ true → a ≤D b
less_or_equal-≤D a b h = ground arith

less_or_equal-≥D : (a b : Decimal) → less_or_equal a b ≡ false → b ≤D a
less_or_equal-≥D a b h = ground arith

pub min-le_left : (a b : Decimal) → min a b ≤D a
min-le_left a b = elim (Bool-cases (less_or_equal a b)) [
  | inl h ↦ rw h (≤D_refl a)
  | inr h ↦ rw h (less_or_equal-≥D a b h)
]

pub min-le_right : (a b : Decimal) → min a b ≤D b
min-le_right a b = elim (Bool-cases (less_or_equal a b)) [
  | inl h ↦ rw h (less_or_equal-≤D a b h)
  | inr h ↦ rw h (≤D_refl b)
]

pub max-le_left : (a b : Decimal) → a ≤D max a b
max-le_left a b = elim (Bool-cases (less_or_equal a b)) [
  | inl h ↦ rw h (less_or_equal-≤D a b h)
  | inr h ↦ rw h (≤D_refl a)
]

pub max-le_right : (a b : Decimal) → b ≤D max a b
max-le_right a b = elim (Bool-cases (less_or_equal a b)) [
  | inl h ↦ rw h (≤D_refl b)
  | inr h ↦ rw h (less_or_equal-≥D a b h)
]

max-least : (a b c : Decimal) → a ≤D c → b ≤D c → max a b ≤D c
max-least a b c h k = elim (Bool-cases (less_or_equal a b)) [ inl e ↦ rw e k | inr e ↦ rw e h ]

pub max_mono : (a b c : Decimal) → a ≤D b → max a c ≤D max b c
max_mono a b c h =
    max-least a c (max b c) (≤D_trans a b (max b c) h (max-le_left b c)) (max-le_right b c)

pub power_add : (s t : ℕ) → 10 ^ (s + t) ≡ 10 ^ s * 10 ^ t
power_add zero t = rw (zero-add t) (omega arith)
power_add (suc s) t =
    rw (suc-add s t, pow-suc 10 (s + t), pow-suc 10 s) (omega (arith, power_add s t))

product_mono : (r a b R A B : ℕ) → a * B ≤ b * A → r * a * (R * B) ≤ r * b * (R * A)
product_mono r a b R A B h =
    let scaled : a * B * (r * R) ≤ b * A * (r * R) = mul-le-mul_right (r * R) h in
    omega (arith, scaled)

sum_mono :
    (a A a' A' b B b' B' : ℕ)
    → a * A' ≤ a' * A
    → b * B' ≤ b' * B
    → (a * B + b * A) * (A' * B') ≤ (a' * B' + b' * A') * (A * B)
sum_mono a A a' A' b B b' B' h k =
    let left : a * A' * (B * B') ≤ a' * A * (B * B') = mul-le-mul_right (B * B') h in
    let right : b * B' * (A * A') ≤ b' * B * (A * A') = mul-le-mul_right (A * A') k in
    omega (arith, left, right)

pub mul_mono : (r a b : Decimal) → a ≤D b → mul r a ≤D mul r b
mul_mono r a b h =
    rw (power_add r.scale a.scale, power_add r.scale b.scale)
      (product_mono r.mantissa a.mantissa b.mantissa (10 ^ r.scale) (10 ^ a.scale) (10 ^ b.scale) h)

pub plus_mono : (a a' b b' : Decimal) → a ≤D a' → b ≤D b' → plus a b ≤D plus a' b'
plus_mono a a' b b' h k =
    rw (power_add a.scale b.scale, power_add a'.scale b'.scale)
      (sum_mono a.mantissa (10 ^ a.scale) a'.mantissa (10 ^ a'.scale) b.mantissa (10 ^ b.scale)
        b'.mantissa (10 ^ b'.scale) h k)

below_one : (k r R : ℕ) → r * 100 ≤ 100 * R → k * r * 100 ≤ k * (100 * R)
below_one k r R h =
    let scaled : r * 100 * k ≤ 100 * R * k = mul-le-mul_right k h in omega (arith, scaled)

-- A part of a whole number of kobo, by a rate of at most 1, is at most that number.
pub mul-le_self :
    (k : ℕ) (rate : Decimal) → rate ≤D of_kobo 100 → to_kobo (mul (of_kobo k) rate) ≤ k
mul-le_self k rate h =
    let small : mul (of_kobo k) rate ≤D of_kobo k =
      rw (power_add 2 rate.scale) (below_one k rate.mantissa (10 ^ rate.scale) h) in
    ground (arith, to_kobo_mono (mul (of_kobo k) rate) (of_kobo k) small, to_kobo-of_kobo k)
