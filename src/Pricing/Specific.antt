-- ===== src/Pricing/Specific.antt =====
-- Which tariffs fit a request, and which is the more specific, apart from the filter and the score of
-- `resolveTariff` (src/pricing/pricing.service.ts).
use kilo_backend.Prelude.{
  Bool, Bool-cases, Option, ap, arith, false, holds, inl, inr, is_some, none, refl, some, sym, true,
  ℕ, ℕ_discrete, ◌&&◌, ◌∙◌, ◌≡◌, ◌≤◌, ◌⊎◌,
}
use kilo_backend.Pricing.Tariffs.{
  Tariff, TariffServiceType, TariffServiceType-discrete, is_candidate, same_number, same_option,
  same_service, score, serves,
}
use kilo_backend.Rides.Frame.{holds_sound}

-- The request asks for a value, and the row names that value.
abbrev pub Names : {A : Type 0} → Option A → Option A → Type 0
Names {A} asked named = (a : A) × (asked ≡ some a) × (named ≡ some a)

-- A row without a service type is for any, and so is a request.
abbrev pub FitsService : Option TariffServiceType → Option TariffServiceType → Type 0
FitsService none named = Unit
FitsService (some k) named = (named ≡ some k) ⊎ (named ≡ none)

-- A tariff of the vehicle type, of the area or of any area, and for the service.
abbrev pub Fits : ℕ → Option ℕ → Option TariffServiceType → Tariff → Type 0
Fits vehicle area service t =
    (t.vehicle_type ≡ vehicle)
    × ((t.service_area ≡ area) ⊎ (t.service_area ≡ none))
    × FitsService service t.service_type

-- `u` is more specific than `t`: it names the service and `t` does not, or it is not behind in that
-- and names the area, which `t` does not.
abbrev pub Beats : Option ℕ → Option TariffServiceType → Tariff → Tariff → Type 0
Beats area service u t =
    (Names service u.service_type × (¬ Names service t.service_type))
    ⊎ ((Names service u.service_type ⊎ (¬ Names service t.service_type))
        × Names area u.service_area
        × (¬ Names area t.service_area))

module _ {A : Type 0} (d : Discrete A) where
  same_option_sound : (x y : Option A) → same_option d x y ≡ true → x ≡ y
  same_option_sound none none h = refl
  same_option_sound none (some b) h = absurd (ground (arith, h))
  same_option_sound (some a) none h = absurd (ground (arith, h))
  same_option_sound (some a) (some b) h = ap some (holds_sound (d a b) h)

  same_option_self : (x : Option A) → same_option d x x ≡ true
  same_option_self none = refl
  same_option_self (some a) = holds_self (d a a)
    where
      holds_self : (c : Dec (a ≡ a)) → holds c ≡ true
      holds_self (yes _) = refl
      holds_self (no n) = absurd (n refl)

  same_option_of : (x y : Option A) → x ≡ y → same_option d x y ≡ true
  same_option_of x y e = ap (λ z. same_option d x z) (sym e) ∙ same_option_self x

  abbrev names? : Option A → Option A → Bool
  names? asked named = is_some asked && same_option d named asked

  Names-true : (asked named : Option A) → Names asked named → names? asked named ≡ true
  Names-true none named n = cc
  Names-true (some a) named n = same_option_of named (some a) (n.2 ∙ sym n.1)

  Names-false : (asked named : Option A) → ¬ Names asked named → names? asked named ≡ false
  Names-false none named n = refl
  Names-false (some a) named n = elim (Bool-cases (same_option d named (some a))) [
    | inl e ↦ absurd (n (a, refl, same_option_sound named (some a) e))
    | inr e ↦ e
  ]

fits_service :
    (service named : Option TariffServiceType)
    → FitsService service named
    → serves service named ≡ true
fits_service none named f = refl
fits_service (some k) named (inl e) =
    let same = same_option_of TariffServiceType-discrete named (some k) e in ground (arith, same)
fits_service (some k) named (inr e) =
    let same = same_option_of TariffServiceType-discrete named none e in ground (arith, same)

service_fits :
    (service named : Option TariffServiceType)
    → serves service named ≡ true
    → FitsService service named
service_fits none named h = tt
service_fits (some k) named h = elim (Bool-cases (same_service named (some k))) [
  | inl e ↦ inl (same_option_sound TariffServiceType-discrete named (some k) e)
  | inr e ↦ inr (same_option_sound TariffServiceType-discrete named none (ground (arith, e, h)))
]

pub candidate_of :
    (vehicle : ℕ) (area : Option ℕ) (service : Option TariffServiceType) (t : Tariff)
    → Fits vehicle area service t
    → is_candidate vehicle area service t ≡ true
unfolding is_candidate
candidate_of vehicle area service t (v, a, k) =
    let serving : serves service t.service_type ≡ true = fits_service service t.service_type k in
    elim a [
      | inl e ↦
          let same = same_option_of ℕ_discrete t.service_area area e in
          ground (arith, v, same, serving)
      | inr e ↦
          let same = same_option_of ℕ_discrete t.service_area none e in
          ground (arith, v, same, serving)
    ]

pub candidate-Fits :
    (vehicle : ℕ) (area : Option ℕ) (service : Option TariffServiceType) (t : Tariff)
    → is_candidate vehicle area service t ≡ true
    → Fits vehicle area service t
unfolding is_candidate
candidate-Fits vehicle area service t h = (
  ground (arith, h),
  elim (Bool-cases (same_number t.service_area area)) [
    | inl e ↦ inl (same_option_sound ℕ_discrete t.service_area area e)
    | inr e ↦ inr (same_option_sound ℕ_discrete t.service_area none (ground (arith, e, h)))
  ],
  service_fits service t.service_type (ground (arith, h)),
)

-- A score of 2 for the service and 1 for the area puts the more specific one first.
pub not_beaten :
    (area : Option ℕ) (service : Option TariffServiceType) (u t : Tariff)
    → score area service u ≤ score area service t
    → ¬ Beats area service u t
unfolding score
not_beaten area service u t best (inl (n, m)) =
    let su = Names-true TariffServiceType-discrete service u.service_type n in
    let st = Names-false TariffServiceType-discrete service t.service_type m in
    ground (arith, best, su, st)
not_beaten area service u t best (inr (inl k, n, m)) =
    let su = Names-true TariffServiceType-discrete service u.service_type k in
    let au = Names-true ℕ_discrete area u.service_area n in
    let at = Names-false ℕ_discrete area t.service_area m in ground (arith, best, su, au, at)
not_beaten area service u t best (inr (inr k, n, m)) =
    let st = Names-false TariffServiceType-discrete service t.service_type k in
    let au = Names-true ℕ_discrete area u.service_area n in
    let at = Names-false ℕ_discrete area t.service_area m in ground (arith, best, st, au, at)
