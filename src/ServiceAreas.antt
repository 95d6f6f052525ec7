-- ===== src/ServiceAreas.antt =====
-- ServiceAreasService (src/service-areas/service-areas.service.ts): its writes and its cached list. A
-- coordinate is a whole number of any unit, since the service only compares them.
-- The id of a new row is an argument; the point-in-polygon test of `validateLocation` is left out.
pub mod Rings
mod Examples
use kilo_backend.Prelude.{
  Bool, List, Option, [], if◌then◌else◌, ite, ltb, none, some, true, ℕ, ℕ_discrete, ◌==◌, ◌∷◌,
}
use kilo_backend.Prelude.Action.{
  Action, bad_request, gets, modify, not_found, or_throw, pure, throw, throw_if, ◌>>=◌, ◌>>◌,
}
use kilo_backend.Prelude.Int.{ℤ}
use kilo_backend.Prelude.Lists.{keep, length}
use kilo_backend.Prelude.Table.{Table, find, number_key, put}
use kilo_backend.Pricing.Admin.{given}

unfoldable pub Point-discrete : Discrete (ℤ × ℤ)
Point-discrete = hlevel (ℕ_discrete)

-- The outer ring of a polygon, in the order of GeoJSON: longitude, latitude.
abbrev pub Ring : Type 0
Ring = List (ℤ × ℤ)

pub record ServiceArea : Type 0 where
  pub name : ℕ
  pub polygon : Ring
  pub is_active : Bool

-- The table and the copy of the active rows that the cache holds.
pub record AreaStore : Type 0 where
  pub areas : Table ℕ ServiceArea
  pub active_cache : Option (Table ℕ ServiceArea)

-- `ring[ring.length - 1]`
unfoldable pub last_point : ℤ × ℤ → Ring → ℤ × ℤ
last_point p [] = p
last_point p (q ∷ ps) = last_point q ps

unfoldable pub append_point : Ring → ℤ × ℤ → Ring
append_point [] p = p ∷ []
append_point (q ∷ ps) p = q ∷ append_point ps p

unfoldable pub close_ring : ℤ × ℤ → Ring → Ring
close_ring p ps = ite (Point-discrete (last_point p ps) p) (p ∷ ps) (append_point (p ∷ ps) p)

unfoldable pub normalize_polygon : Ring → Action AreaStore Ring
normalize_polygon [] = throw bad_request
normalize_polygon (p ∷ ps) = do
  throw_if (ltb (length (p ∷ ps)) 4) bad_request
  pure (close_ring p ps)

abbrev pub invalidate_cache : Action AreaStore (Unit {0})
invalidate_cache = modify (λ s. record s { active_cache = none })

abbrev pub write_area : ℕ → ServiceArea → Action AreaStore (Unit {0})
write_area id a = modify (λ s. record s { areas = put id a s.areas })

unfoldable pub create_area : ℕ → ℕ → Ring → Option Bool → Action AreaStore ServiceArea
create_area id name polygon is_active = do
  ring ← normalize_polygon polygon
  let area : ServiceArea = record { name = name; polygon = ring; is_active = given is_active true }
  write_area id area
  invalidate_cache
  pure area

abbrev pub find_area_or_throw : ℕ → Action AreaStore ServiceArea
find_area_or_throw id = do found ← gets (λ s. find id s.areas); or_throw not_found found

abbrev pub normalize_given : Option Ring → Ring → Action AreaStore Ring
normalize_given none old = pure old
normalize_given (some r) old = normalize_polygon r

unfoldable pub update_area : ℕ → Option ℕ → Option Ring → Option Bool → Action AreaStore ServiceArea
update_area id name polygon is_active = do
  a ← find_area_or_throw id
  ring ← normalize_given polygon a.polygon
  let area : ServiceArea = record {
    name = given name a.name;
    polygon = ring;
    is_active = given is_active a.is_active;
  }
  write_area id area
  invalidate_cache
  pure area

unfoldable pub delete_row : ℕ → Table ℕ ServiceArea → Table ℕ ServiceArea
delete_row id [] = []
delete_row id ((j, a) ∷ t) = let rest = delete_row id t in if id == j then rest else (j, a) ∷ rest

unfoldable pub remove_area : ℕ → Action AreaStore (Unit {0})
remove_area id = do
  _ ← find_area_or_throw id
  modify (λ s. record s { areas = delete_row id s.areas })
  invalidate_cache

-- `findMany({ where: { isActive: true } })`
abbrev pub active_areas : Table ℕ ServiceArea → Table ℕ ServiceArea
active_areas t = keep (λ x. x.1.is_active) t

abbrev pub cached_areas : Option (Table ℕ ServiceArea) → Action AreaStore (Table ℕ ServiceArea)
cached_areas (some records) = pure records
cached_areas none = do
  records ← gets (λ s. active_areas s.areas)
  modify (λ s. record s { active_cache = some records })
  pure records

unfoldable pub get_active_areas : Action AreaStore (Table ℕ ServiceArea)
get_active_areas = do cached ← gets (λ s. s.active_cache); cached_areas cached

-- The calls of the service, and the end of the lifetime of the cached copy.
pub data AreaCall : Type 0 where
  create_call : ℕ → ℕ → Ring → Option Bool → AreaCall
  update_call : ℕ → Option ℕ → Option Ring → Option Bool → AreaCall
  remove_call : ℕ → AreaCall
  list_call expire_call : AreaCall

unfoldable pub after_area_call : AreaCall → AreaStore → AreaStore
after_area_call (create_call id n r b) s = (create_area id n r b s).1
after_area_call (update_call id n r b) s = (update_area id n r b s).1
after_area_call (remove_call id) s = (remove_area id s).1
after_area_call list_call s = (get_active_areas s).1
after_area_call expire_call s = record s { active_cache = none }

unfoldable pub after_area_calls : List AreaCall → AreaStore → AreaStore
after_area_calls [] s = s
after_area_calls (c ∷ cs) s = after_area_calls cs (after_area_call c s)
