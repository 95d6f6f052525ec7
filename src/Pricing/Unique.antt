-- ===== src/Pricing/Unique.antt =====
-- One active tariff of a key (src/pricing/pricing.service.ts), whatever is created and deactivated.
use kilo_backend.Prelude.{
  Bool, Bool-cases, List, Option, Option-cases, [], ap, arith, false, holds, inl, inr, ite, none,
  refl, some, sym, true, ℕ, ℕ_discrete, ◌&&◌, ◌==◌, ◌∙◌, ◌∷◌, ◌≡◌, ◌⊎◌,
}
use kilo_backend.Prelude.Lists.{some_of}
use kilo_backend.Prelude.Table.{Table, find, find-put, number_key, put, same?}
use kilo_backend.Pricing.Admin.{
  activated, clashes, create_tariff, deactivate_tariff, find_tariff_or_throw,
  invalidate_tariff_cache, retired,
}
use kilo_backend.Pricing.Tariffs.{
  PricingStore, Tariff, TariffServiceType-discrete, rows, same_number, same_option, same_service,
}
use mathlib.Core.Option.{some-injective}

pub data TariffCall : Type 0 where
  tariff_created : (id : ℕ) (dto : Tariff) → TariffCall
  tariff_deactivated : (id : ℕ) → TariffCall

unfoldable pub after_tariff_call : TariffCall → PricingStore → PricingStore
unfolding create_tariff deactivate_tariff
after_tariff_call (tariff_created id dto) s = (create_tariff id dto s).1
after_tariff_call (tariff_deactivated id) s = (deactivate_tariff id s).1

unfoldable pub after_tariff_calls : List TariffCall → PricingStore → PricingStore
unfolding after_tariff_call
after_tariff_calls [] s = s
after_tariff_calls (c ∷ cs) s = after_tariff_calls cs (after_tariff_call c s)

-- Two active rows of one key are one row.
unfoldable pub IsUnambiguous : Table ℕ Tariff → Type 0
IsUnambiguous t =
    (i j : ℕ) (a b : Tariff)
    → find i t ≡ some a
    → find j t ≡ some b
    → a.is_active ≡ true
    → clashes a b ≡ true
    → i ≡ j

no_clash :
    (dto b : Tariff) (j : ℕ) (t : Table ℕ Tariff)
    → some_of (clashes dto) (rows t) ≡ false
    → find j t ≡ some b
    → clashes dto b ≡ false
no_clash dto b j [] h at = absurd (ground (arith, at))
no_clash dto b j ((k, x) ∷ t) h at = go (same? j k) at (no_clash dto b j t (ground (arith, h)))
  where
    go :
        (e : Dec (j ≡ k))
        → ite e (some x) (find j t) ≡ some b
        → (find j t ≡ some b → clashes dto b ≡ false)
        → clashes dto b ≡ false
    go (yes e) found below = ap (clashes dto) (sym (some-injective x b found)) ∙ ground (arith, h)
    go (no n) found below = below found

same_option_sym :
    {A : Type 0} (d : Discrete A) (a b : Option A)
    → same_option d a b ≡ true
    → same_option d b a ≡ true
same_option_sym d none none h = refl
same_option_sym d none (some b) h = absurd (ground (arith, h))
same_option_sym d (some a) none h = absurd (ground (arith, h))
same_option_sym d (some a) (some b) h = go (d a b) h (d b a)
  where
    go : (e : Dec (a ≡ b)) → holds e ≡ true → (f : Dec (b ≡ a)) → holds f ≡ true
    go (yes e) k (yes f) = refl
    go (yes e) k (no n) = absurd (n (sym e))
    go (no n) k f = absurd (ground (arith, k))

all_true : (a b c d : Bool) → a ≡ true → b ≡ true → c ≡ true → d ≡ true → a && b && c && d ≡ true
all_true a b c d ha hb hc hd = rw (ha, hb, hc, hd) refl

-- An active row that the other one clashes with clashes with it.
clashes_sym : (a b : Tariff) → a.is_active ≡ true → clashes a b ≡ true → clashes b a ≡ true
unfolding clashes
clashes_sym a b live h =
    all_true (a.vehicle_type == b.vehicle_type) (same_number a.service_area b.service_area)
      (same_service a.service_type b.service_type) a.is_active (ground (arith, h))
      (same_option_sym ℕ_discrete b.service_area a.service_area (ground (arith, h)))
      (same_option_sym TariffServiceType-discrete b.service_type a.service_type (ground (arith, h)))
      live

-- What a row is after `put`.
find-put_cases :
    (j id : ℕ) (x b : Tariff) (t : Table ℕ Tariff)
    → find j (put id x t) ≡ some b
    → ((j ≡ id) × (x ≡ b)) ⊎ (find j t ≡ some b)
find-put_cases j id x b t h = go (same? j id) (sym (find-put j id x t) ∙ h)
  where
    go :
        (e : Dec (j ≡ id))
        → ite e (some x) (find j t) ≡ some b
        → ((j ≡ id) × (x ≡ b)) ⊎ (find j t ≡ some b)
    go (yes e) k = inl (e, some-injective x b k)
    go (no n) k = inr k

put-created :
    (id : ℕ) (dto : Tariff) (t : Table ℕ Tariff)
    → some_of (clashes dto) (rows t) ≡ false
    → IsUnambiguous t
    → IsUnambiguous (put id (activated dto) t)
unfolding IsUnambiguous clashes
put-created id dto t free u i j a b ai bj live h =
    go (find-put_cases i id (activated dto) a t ai) (find-put_cases j id (activated dto) b t bj)
  where
    go :
        ((i ≡ id) × (activated dto ≡ a)) ⊎ (find i t ≡ some a)
        → ((j ≡ id) × (activated dto ≡ b)) ⊎ (find j t ≡ some b)
        → i ≡ j
    go (inl p) (inl q) = p.0 ∙ sym q.0
    go (inl p) (inr q) =
        absurd (ground (arith, no_clash dto b j t free q, ap (λ x. clashes x b) p.1 ∙ h))
    go (inr p) (inl q) = absurd (
        ground
          (arith, no_clash dto a i t free p, ap (λ x. clashes x a) q.1 ∙ clashes_sym a b live h))
    go (inr p) (inr q) = u i j a b p q live h

put-retired :
    (id : ℕ) (x : Tariff) (t : Table ℕ Tariff)
    → IsUnambiguous t
    → IsUnambiguous (put id (retired x) t)
unfolding IsUnambiguous clashes
put-retired id x t u i j a b ai bj live h =
    go (find-put_cases i id (retired x) a t ai) (find-put_cases j id (retired x) b t bj)
  where
    go :
        ((i ≡ id) × (retired x ≡ a)) ⊎ (find i t ≡ some a)
        → ((j ≡ id) × (retired x ≡ b)) ⊎ (find j t ≡ some b)
        → i ≡ j
    go (inl p) q = absurd (ground (arith, live, ap (λ y. y.is_active) p.1))
    go (inr p) (inl q) = absurd (ground (arith, h, ap (λ y. y.is_active) q.1))
    go (inr p) (inr q) = u i j a b p q live h

created_keeps :
    (id : ℕ) (dto : Tariff) (s : PricingStore)
    → IsUnambiguous s.tariffs
    → IsUnambiguous (create_tariff id dto s).1.tariffs
unfolding create_tariff invalidate_tariff_cache
created_keeps id dto s u = elim (Bool-cases (some_of (clashes dto) (rows s.tariffs))) [
  | inl e ↦ rw (create_tariff, e) u
  | inr e ↦ rw (create_tariff, e) (put-created id dto s.tariffs e u)
]

retired_keeps :
    (id : ℕ) (s : PricingStore)
    → IsUnambiguous s.tariffs
    → IsUnambiguous (deactivate_tariff id s).1.tariffs
unfolding deactivate_tariff find_tariff_or_throw invalidate_tariff_cache
retired_keeps id s u = elim (Option-cases (find id s.tariffs)) [
  | inl e ↦ rw (deactivate_tariff, find_tariff_or_throw, e) u
  | inr x ↦ rw (deactivate_tariff, find_tariff_or_throw, x.1) (put-retired id x.0 s.tariffs u)
]

call_keeps :
    (c : TariffCall) (s : PricingStore)
    → IsUnambiguous s.tariffs
    → IsUnambiguous (after_tariff_call c s).tariffs
unfolding after_tariff_call
call_keeps (tariff_created id dto) s u = created_keeps id dto s u
call_keeps (tariff_deactivated id) s u = retired_keeps id s u

-- From tables in which an active tariff of a vehicle type, an area and a service type is alone, any
-- calls of `createTariff` and `deactivateTariff`, refused ones included, lead to such tables.
pub calls-IsUnambiguous :
    (cs : List TariffCall) (s : PricingStore)
    → IsUnambiguous s.tariffs
    → IsUnambiguous (after_tariff_calls cs s).tariffs
unfolding after_tariff_calls
calls-IsUnambiguous [] s u = u
calls-IsUnambiguous (c ∷ cs) s u = calls-IsUnambiguous cs (after_tariff_call c s) (call_keeps c s u)
