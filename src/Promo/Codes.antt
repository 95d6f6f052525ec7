-- ===== src/Promo/Codes.antt =====
-- PromoService (src/promo/promo.service.ts). A code in capitals is a number, which stands for the id of
-- its promo too; a time is a number. What a banner shows is left out.
use kilo_backend.Prelude.{
  Bool, List, Option, arith, false, holds, if◌then◌else◌, is_some, leb, ltb, none, not, refl, some,
  suc, true, zero, ℕ, ◌&&◌, ◌*◌, ◌+◌, ◌==◌, ◌^◌, ◌||◌, ◌∷◌, ◌≡◌, ◌≤◌,
}
use kilo_backend.Prelude.Action.{
  Action, Ensures, Ensures-ok, Ensures-or_throw, Ensures-throw_if, bad_request, conflict, gets,
  modify, not_found, ok, or_throw, pure, throw_if, ◌>>=◌, ◌>>◌,
}
use kilo_backend.Prelude.Decimal.{Decimal, less_or_equal, min, of_kobo, ◌≤D◌}
use kilo_backend.Prelude.Decimal.Order.{min-le_left, min-le_right, power_add, ≤D_trans}
use kilo_backend.Prelude.Lists.{keep, length, some_of}
use kilo_backend.Prelude.Table.{Table, find, number_key, put}
use native.Mathlib.Nat.{mul-le-mul_right}

pub data PromoType : Type 0 where
  percentage flat : PromoType

pub data PromoApplicableService : Type 0 where
  for_rides for_deliveries for_kilowatt : PromoApplicableService

unfoldable pub PromoApplicableService-discrete : Discrete PromoApplicableService
PromoApplicableService-discrete = hlevel

pub record PromoCode : Type 0 where
  pub type : PromoType
  pub value : Decimal
  pub max_discount : Option Decimal
  pub usage_limit_total : Option ℕ
  pub usage_limit_per_user : Option ℕ
  pub valid_from : ℕ
  pub valid_until : ℕ
  pub applicable_services : List PromoApplicableService
  pub is_active : Bool

pub record PromoRedemption : Type 0 where
  pub promo : ℕ
  pub user : ℕ
  pub service : PromoApplicableService
  pub discount_amount : Decimal

pub record Promos : Type 0 where
  pub promos : Table ℕ PromoCode
  pub redemptions : List PromoRedemption

-- `applicableServices.includes(service)`
abbrev pub applies_to : PromoApplicableService → List PromoApplicableService → Bool
applies_to service l = some_of (λ x. holds (PromoApplicableService-discrete x service)) l

abbrev pub redeemed : ℕ → List PromoRedemption → ℕ
redeemed code l = length (keep (λ r. r.promo == code) l)

abbrev pub redeemed_by : ℕ → ℕ → List PromoRedemption → ℕ
redeemed_by code user l = length (keep (λ r. (r.promo == code) && (r.user == user)) l)

-- A limit that is absent or 0 is no limit.
abbrev pub reached : Option ℕ → ℕ → Bool
reached none count = false
reached (some zero) count = false
reached (some (suc n)) count = leb (suc n) count

-- `fareAmount.mul(value).dividedBy(100)`
abbrev pub percent_of : Decimal → Decimal → Decimal
percent_of fare value = record {
  mantissa = fare.mantissa * value.mantissa;
  scale = fare.scale + value.scale + 2;
}

abbrev pub capped_at : Option Decimal → Decimal → Decimal
capped_at none d = d
capped_at (some m) d = if less_or_equal d m then d else m

unfoldable pub discount_of : PromoType → PromoCode → Decimal → Decimal
discount_of percentage p fare = capped_at p.max_discount (percent_of fare p.value)
discount_of flat p fare = min p.value fare

-- The discount; the final amount is the fare less it.
unfoldable pub validate : ℕ → ℕ → PromoApplicableService → Decimal → ℕ → Action Promos Decimal
unfolding discount_of
validate now code service fare user = do
  found ← gets (λ s. find code s.promos)
  p ← or_throw not_found found
  throw_if (not p.is_active) not_found
  throw_if (ltb now p.valid_from || ltb p.valid_until now) bad_request
  throw_if (not (applies_to service p.applicable_services)) bad_request
  total ← gets (λ s. redeemed code s.redemptions)
  throw_if (reached p.usage_limit_total total) conflict
  own ← gets (λ s. redeemed_by code user s.redemptions)
  throw_if (reached p.usage_limit_per_user own) conflict
  pure (discount_of p.type p fare)

unfoldable pub record_redemption :
    ℕ → ℕ → PromoApplicableService → Decimal → Action Promos (Unit {0})
record_redemption code user service discount = modify (λ s. record s {
  redemptions =
      record { promo = code; user = user; service = service; discount_amount = discount }
      ∷ s.redemptions;
})

unfoldable pub create_promo : ℕ → PromoCode → Action Promos (Unit {0})
create_promo code p = do
  existing ← gets (λ s. is_some (find code s.promos))
  throw_if existing conflict
  modify (λ s. record s { promos = put code p s.promos })

-- What a code that is accepted has to be.
pub record Granted (now code user : ℕ) (service : PromoApplicableService) (fare d : Decimal)
    (s s' : Promos) : Type 0 where
  pub promo : PromoCode
  pub known : find code s.promos ≡ some promo
  pub active : promo.is_active ≡ true
  pub begun : promo.valid_from ≤ now
  pub not_over : now ≤ promo.valid_until
  pub served : applies_to service promo.applicable_services ≡ true
  pub total_left : reached promo.usage_limit_total (redeemed code s.redemptions) ≡ false
  pub user_left : reached promo.usage_limit_per_user (redeemed_by code user s.redemptions) ≡ false
  pub unchanged : s' ≡ s
  pub fits : promo.value ≤D of_kobo 10000 → d ≤D fare
  pub flat_fits : promo.type ≡ flat → d ≤D fare

percent_bound : (f v F V : ℕ) → v * 100 ≤ 10000 * V → f * v * F ≤ f * (F * V * 100)
percent_bound f v F V h =
    let scaled : v * 100 * (f * F) ≤ 10000 * V * (f * F) = mul-le-mul_right (f * F) h in
    omega (arith, scaled)

percent_fits : (fare v : Decimal) → v ≤D of_kobo 10000 → percent_of fare v ≤D fare
percent_fits fare v h =
    rw (power_add (fare.scale + v.scale) 2, power_add fare.scale v.scale)
      (percent_bound fare.mantissa v.mantissa (10 ^ fare.scale) (10 ^ v.scale) h)

capped_fits : (o : Option Decimal) (d fare : Decimal) → d ≤D fare → capped_at o d ≤D fare
capped_fits none d fare h = h
capped_fits (some m) d fare h = ≤D_trans (min d m) d fare (min-le_left d m) h

discount_fits :
    (t : PromoType) (p : PromoCode) (fare : Decimal)
    → p.value ≤D of_kobo 10000
    → discount_of t p fare ≤D fare
unfolding discount_of
discount_fits percentage p fare h =
    capped_fits p.max_discount (percent_of fare p.value) fare (percent_fits fare p.value h)
discount_fits flat p fare h = min-le_right p.value fare

flat_discount_fits :
    (t : PromoType) (p : PromoCode) (fare : Decimal) → t ≡ flat → discount_of t p fare ≤D fare
unfolding discount_of
flat_discount_fits percentage p fare h = absurd (ground (arith, h))
flat_discount_fits flat p fare h = min-le_right p.value fare

module _ (now code user : ℕ) (service : PromoApplicableService) (fare : Decimal) (s : Promos) where
  pub validate-Granted :
      Ensures
        (λ d s'. Granted now code user service fare d s s')
        (validate now code service fare user s)
  unfolding validate
  validate-Granted =
      let Q : Decimal → Promos → Type 0 = λ d s'. Granted now code user service fare d s s' in
      Ensures-or_throw Q not_found (find code s.promos) _ s (λ p known.
        Ensures-throw_if Q (not p.is_active) not_found _ s (λ live.
          Ensures-throw_if Q (ltb now p.valid_from || ltb p.valid_until now) bad_request _ s
            (λ timely.
              Ensures-throw_if Q (not (applies_to service p.applicable_services)) bad_request _ s
                (λ serves_it.
                  Ensures-throw_if Q (reached p.usage_limit_total (redeemed code s.redemptions))
                    conflict _ s
                    (λ total.
                      Ensures-throw_if Q
                        (reached p.usage_limit_per_user (redeemed_by code user s.redemptions))
                        conflict _ s
                        (λ own. record {
                          promo = p;
                          known = known;
                          active = ground (arith, live);
                          begun = ground (arith, timely);
                          not_over = ground (arith, timely);
                          served = ground (arith, serves_it);
                          total_left = total;
                          user_left = own;
                          unchanged = refl;
                          fits = discount_fits p.type p fare;
                          flat_fits = flat_discount_fits p.type p fare;
                        }))))))

-- Where `validate` accepts a code, the promo is active, its time has come and is not over, it applies
-- to the service and neither of its limits is reached, nothing is written, and the discount is at
-- most the fare if the promo is flat or its percentage is at most 100.
pub validate_grants :
    (now code user : ℕ) (service : PromoApplicableService) (fare : Decimal) (s : Promos)
    {d : Decimal} {s' : Promos}
    → validate now code service fare user s ≡ (ok d, s')
    → Granted now code user service fare d s s'
validate_grants now code user service fare s e =
    Ensures-ok (λ d s'. Granted now code user service fare d s s')
      (validate-Granted now code user service fare s) e
