-- ===== src/Pricing/Choice.antt =====
-- Which tariff `resolveTariff` of src/pricing/pricing.service.ts chooses.
use kilo_backend.Prelude.{List, Option, arith, false, none, refl, some, true, ℕ, ◌≡◌, ◌≤◌}
use kilo_backend.Prelude.Lists.{All, All-Mem, All-keep, All-map, keep, keep-All, keep_none}
use kilo_backend.Prelude.Sort.{sort_head-All, sort_head_best, sort_head_none}
use kilo_backend.Pricing.Specific.{Beats, Fits, candidate-Fits, candidate_of, not_beaten}
use kilo_backend.Pricing.Tariffs.{
  Tariff, TariffServiceType, is_candidate, outranks, resolve_tariff, score,
}
use mathlib.Core.List.{Mem}

-- A tariff of the list that fits, and none that fits is more specific.
pub record Chosen (ts : List Tariff) (vehicle : ℕ) (area : Option ℕ)
    (service : Option TariffServiceType) (t : Tariff) : Type 0 where
  pub listed : Mem t ts
  pub fits : Fits vehicle area service t
  pub most_specific : All (λ u. ¬ (Fits vehicle area service u × Beats area service u t)) ts

abbrev pub Resolved : List Tariff → ℕ → Option ℕ → Option TariffServiceType → Option Tariff → Type 0
Resolved ts vehicle area service none = All (λ u. ¬ Fits vehicle area service u) ts
Resolved ts vehicle area service (some t) = Chosen ts vehicle area service t

resolved :
    (ts : List Tariff) (vehicle : ℕ) (area : Option ℕ) (service : Option TariffServiceType)
    (o : Option Tariff)
    → resolve_tariff ts vehicle area service ≡ o
    → Resolved ts vehicle area service o
unfolding resolve_tariff
resolved ts vehicle area service none e =
    All-map (λ u. is_candidate vehicle area service u ≡ false) (λ u. ¬ Fits vehicle area service u)
      ts (λ u no f. absurd (ground (arith, no, candidate_of vehicle area service u f)))
      (keep_none (is_candidate vehicle area service) ts
        (sort_head_none (outranks area service) (keep (is_candidate vehicle area service) ts) e))
resolved ts vehicle area service (some t) e =
    let passing : List Tariff = keep (is_candidate vehicle area service) ts in
    let known : Mem t ts × (is_candidate vehicle area service t ≡ true) =
      sort_head-All (outranks area service)
        (λ u. Mem u ts × (is_candidate vehicle area service u ≡ true)) passing t
        (keep-All (λ u. Mem u ts) (is_candidate vehicle area service) ts (All-Mem ts)) e in
    record {
      listed = known.0;
      fits = candidate-Fits vehicle area service t known.1;
      most_specific =
          All-map
            (λ u.
              is_candidate vehicle area service u ≡ true
              → score area service u ≤ score area service t)
            (λ u. ¬ (Fits vehicle area service u × Beats area service u t)) ts
            (λ u best f.
              not_beaten area service u t (best (candidate_of vehicle area service u f.0)) f.1)
            (All-keep (λ u. score area service u ≤ score area service t)
              (is_candidate vehicle area service) ts
              (sort_head_best (score area service) passing t e));
    }

-- The tariff that is returned is one of the list, of the vehicle type, of the area or of any, and for
-- the service or for any, and no tariff of the list that fits so is more specific: a tariff that
-- names the service is ahead of one that does not, and among the others one that names the area.
-- Nothing is returned only where no tariff fits.
pub resolve_tariff-Resolved :
    (ts : List Tariff) (vehicle : ℕ) (area : Option ℕ) (service : Option TariffServiceType)
    → Resolved ts vehicle area service (resolve_tariff ts vehicle area service)
resolve_tariff-Resolved ts vehicle area service = resolved ts vehicle area service _ refl
