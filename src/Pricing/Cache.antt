-- ===== src/Pricing/Cache.antt =====
-- The cached copies of PricingService (src/pricing/pricing.service.ts) over any history of its calls.
use kilo_backend.Prelude.{List, Option, [], none, refl, some, ℕ, ◌∷◌, ◌≡◌}
use kilo_backend.Prelude.Action.{Result, err, not_found, ok, or_throw, pure, ◌>>=◌, ◌>>◌}
use kilo_backend.Prelude.Decimal.{Decimal}
use kilo_backend.Prelude.Keeps.{Keeps, keeps_rules}
use kilo_backend.Pricing.Admin.{RulePatch, TariffPatch}
use kilo_backend.Pricing.Tariffs.{
  CommissionRule, PricingStore, Tariff, TariffServiceType, active_rules, active_tariffs,
}
use kilo_backend.Pricing.Tariffs
use kilo_backend.Pricing.Admin

-- A copy that is there holds the active rows.
abbrev pub Fresh : {V : Type 0} → List V → Option (List V) → Type 0
Fresh active none = Unit
Fresh active (some cached) = cached ≡ active

pub record IsCoherent (s : PricingStore) : Type 0 where
  pub tariffs_fresh : Fresh (active_tariffs s.tariffs) s.tariffs_cache
  pub rules_fresh : Fresh (active_rules s.rules) s.rules_cache

-- The methods of the service, and the end of the lifetime of each copy.
pub data PricingCall : Type 0 where
  get_active_tariff : ℕ → Option ℕ → Option TariffServiceType → PricingCall
  list_active_tariffs_for_service : TariffServiceType → Option ℕ → PricingCall
  get_active_commission_rate : ℕ → Option ℕ → PricingCall
  create_tariff : ℕ → Tariff → PricingCall
  update_tariff : ℕ → TariffPatch → PricingCall
  deactivate_tariff : ℕ → PricingCall
  create_commission_rule : ℕ → ℕ → Option ℕ → Decimal → PricingCall
  update_commission_rule : ℕ → RulePatch → PricingCall
  expire_tariffs expire_rules : PricingCall

abbrev pub end_of : {A : Type 0} → Result A × PricingStore → PricingStore
end_of (_, s) = s

unfoldable pub serve : PricingCall → PricingStore → PricingStore
serve (get_active_tariff v a k) s = end_of (Tariffs.get_active_tariff v a k s)
serve (list_active_tariffs_for_service k a) s =
    end_of (Tariffs.list_active_tariffs_for_service k a s)
serve (get_active_commission_rate k v) s = end_of (Tariffs.get_active_commission_rate k v s)
serve (create_tariff id dto) s = end_of (Admin.create_tariff id dto s)
serve (update_tariff id dto) s = end_of (Admin.update_tariff id dto s)
serve (deactivate_tariff id) s = end_of (Admin.deactivate_tariff id s)
serve (create_commission_rule id k v r) s = end_of (Admin.create_commission_rule id k v r s)
serve (update_commission_rule id dto) s = end_of (Admin.update_commission_rule id dto s)
serve expire_tariffs s = record s { tariffs_cache = none }
serve expire_rules s = record s { rules_cache = none }

unfoldable pub serve_all : List PricingCall → PricingStore → PricingStore
serve_all [] s = s
serve_all (c ∷ cs) s = serve_all cs (serve c s)

cached_tariffs-IsCoherent : (o : Option (List Tariff)) → Keeps IsCoherent (Tariffs.cached_tariffs o)
cached_tariffs-IsCoherent none = record {
  at = λ s h. record { tariffs_fresh = refl; rules_fresh = h.rules_fresh };
}
cached_tariffs-IsCoherent (some ts) = record { at = λ s h. h }

cached_rules-IsCoherent :
    (o : Option (List CommissionRule)) → Keeps IsCoherent (Tariffs.cached_rules o)
cached_rules-IsCoherent none = record {
  at = λ s h. record { tariffs_fresh = h.tariffs_fresh; rules_fresh = refl };
}
cached_rules-IsCoherent (some rs) = record { at = λ s h. h }

-- A write of a tariff drops the copy of the tariffs, a write of a rule that of the rules.
tariff_written :
    (id : ℕ) (t : Tariff)
    → Keeps IsCoherent (Admin.write_tariff id t >> (Admin.invalidate_tariff_cache >> pure t))
unfolding Admin.invalidate_tariff_cache
tariff_written id t = record {
  at = λ s h. record { tariffs_fresh = tt; rules_fresh = h.rules_fresh };
}

rule_written :
    (id : ℕ) (r : CommissionRule)
    → Keeps IsCoherent (Admin.write_rule id r >> (Admin.invalidate_commission_cache >> pure r))
unfolding Admin.invalidate_commission_cache
rule_written id r = record {
  at = λ s h. record { tariffs_fresh = h.tariffs_fresh; rules_fresh = tt };
}

ruleset cache_rules =
    (keeps_rules, cached_tariffs-IsCoherent, cached_rules-IsCoherent, tariff_written, rule_written)

get_active_tariff-IsCoherent :
    (v : ℕ) (a : Option ℕ) (k : Option TariffServiceType)
    → Keeps IsCoherent (Tariffs.get_active_tariff v a k)
unfolding Tariffs.get_active_tariff Tariffs.get_active_tariffs
get_active_tariff-IsCoherent v a k = search cache_rules depth 12

list_for_service-IsCoherent :
    (k : TariffServiceType) (a : Option ℕ)
    → Keeps IsCoherent (Tariffs.list_active_tariffs_for_service k a)
unfolding Tariffs.list_active_tariffs_for_service Tariffs.get_active_tariffs
list_for_service-IsCoherent k a = search cache_rules depth 12

get_active_commission_rate-IsCoherent :
    (k : ℕ) (v : Option ℕ) → Keeps IsCoherent (Tariffs.get_active_commission_rate k v)
unfolding Tariffs.get_active_commission_rate Tariffs.get_active_commission_rules
get_active_commission_rate-IsCoherent k v = search cache_rules depth 12

create_tariff-IsCoherent : (id : ℕ) (dto : Tariff) → Keeps IsCoherent (Admin.create_tariff id dto)
unfolding Admin.create_tariff
create_tariff-IsCoherent id dto = search cache_rules depth 12

update_tariff-IsCoherent :
    (id : ℕ) (dto : TariffPatch) → Keeps IsCoherent (Admin.update_tariff id dto)
unfolding Admin.update_tariff Admin.find_tariff_or_throw
update_tariff-IsCoherent id dto = search cache_rules depth 12

deactivate_tariff-IsCoherent : (id : ℕ) → Keeps IsCoherent (Admin.deactivate_tariff id)
unfolding Admin.deactivate_tariff Admin.find_tariff_or_throw
deactivate_tariff-IsCoherent id = search cache_rules depth 12

create_commission_rule-IsCoherent :
    (id k : ℕ) (v : Option ℕ) (r : Decimal)
    → Keeps IsCoherent (Admin.create_commission_rule id k v r)
unfolding Admin.create_commission_rule
create_commission_rule-IsCoherent id k v r = search cache_rules depth 12

update_commission_rule-IsCoherent :
    (id : ℕ) (dto : RulePatch) → Keeps IsCoherent (Admin.update_commission_rule id dto)
unfolding Admin.update_commission_rule
update_commission_rule-IsCoherent id dto = search cache_rules depth 12

serve-IsCoherent : (c : PricingCall) (s : PricingStore) → IsCoherent s → IsCoherent (serve c s)
unfolding serve
serve-IsCoherent (get_active_tariff v a k) s h = (get_active_tariff-IsCoherent v a k).at s h
serve-IsCoherent (list_active_tariffs_for_service k a) s h =
    (list_for_service-IsCoherent k a).at s h
serve-IsCoherent (get_active_commission_rate k v) s h =
    (get_active_commission_rate-IsCoherent k v).at s h
serve-IsCoherent (create_tariff id dto) s h = (create_tariff-IsCoherent id dto).at s h
serve-IsCoherent (update_tariff id dto) s h = (update_tariff-IsCoherent id dto).at s h
serve-IsCoherent (deactivate_tariff id) s h = (deactivate_tariff-IsCoherent id).at s h
serve-IsCoherent (create_commission_rule id k v r) s h =
    (create_commission_rule-IsCoherent id k v r).at s h
serve-IsCoherent (update_commission_rule id dto) s h =
    (update_commission_rule-IsCoherent id dto).at s h
serve-IsCoherent expire_tariffs s h = record { tariffs_fresh = tt; rules_fresh = h.rules_fresh }
serve-IsCoherent expire_rules s h = record { tariffs_fresh = h.tariffs_fresh; rules_fresh = tt }

serve_all-IsCoherent :
    (cs : List PricingCall) (s : PricingStore) → IsCoherent s → IsCoherent (serve_all cs s)
unfolding serve_all
serve_all-IsCoherent [] s h = h
serve_all-IsCoherent (c ∷ cs) s h = serve_all-IsCoherent cs (serve c s) (serve-IsCoherent c s h)

-- What `getActiveTariff` answers, as the table of tariffs has it.
abbrev pub answer : Option Tariff → Result Tariff
answer none = err not_found
answer (some t) = ok t

or_throw-answer : (o : Option Tariff) (s : PricingStore) → (or_throw not_found o s).0 ≡ answer o
or_throw-answer none s = refl
or_throw-answer (some t) s = refl

answered :
    (s : PricingStore) (v : ℕ) (a : Option ℕ) (k : Option TariffServiceType)
    (o : Option (List Tariff))
    → Fresh (active_tariffs s.tariffs) o
    → ((Tariffs.cached_tariffs o >>= λ ts. or_throw not_found (Tariffs.resolve_tariff ts v a k))
        s).0
      ≡ answer (Tariffs.resolve_tariff (active_tariffs s.tariffs) v a k)
answered s v a k none h =
    or_throw-answer (Tariffs.resolve_tariff (active_tariffs s.tariffs) v a k) _
answered s v a k (some ts) h =
    rw h (or_throw-answer (Tariffs.resolve_tariff (active_tariffs s.tariffs) v a k) s)

-- After any calls of the service and with copies that expire at any time, `getActiveTariff` answers
-- with the tariff that `resolveTariff` finds among the active rows of the table, and throws
-- not-found exactly where it finds none.
pub get_active_tariff_current :
    (cs : List PricingCall) (s : PricingStore) (v : ℕ) (a : Option ℕ) (k : Option TariffServiceType)
    → IsCoherent s
    → (Tariffs.get_active_tariff v a k (serve_all cs s)).0
      ≡ answer (Tariffs.resolve_tariff (active_tariffs (serve_all cs s).tariffs) v a k)
unfolding Tariffs.get_active_tariff Tariffs.get_active_tariffs
get_active_tariff_current cs s v a k h =
    let now : PricingStore = serve_all cs s in
    answered now v a k now.tariffs_cache (serve_all-IsCoherent cs s h).tariffs_fresh
