-- ===== src/ServiceAreas/Examples.antt =====
-- An area that is drawn without its closing point, on small tables (src/service-areas).
use kilo_backend.Prelude.{List, [], none, refl, some, true, ℕ_discrete, ◌∷◌, ◌≡◌}
use kilo_backend.Prelude.Action.{ok}
use kilo_backend.Prelude.Int.{negsuc, pos}
use kilo_backend.Prelude.Lists.{All}
use kilo_backend.ServiceAreas.{
  AreaCall, AreaStore, Point-discrete, Ring, active_areas, after_area_call, after_area_calls,
  append_point, close_ring, create_area, create_call, get_active_areas, last_point, list_call,
  normalize_polygon, update_area, update_call,
}
use kilo_backend.ServiceAreas.Rings.{IsCharted, IsClosedRing, active_areas_charted}

abbrev open_square : Ring
open_square = (pos 0, pos 0) ∷ (pos 4, pos 0) ∷ (pos 4, pos 4) ∷ (negsuc 0, pos 4) ∷ []

abbrev no_areas : AreaStore
no_areas = record { areas = []; active_cache = none }

-- One area is drawn and listed, one is refused, and the first gets another name.
abbrev some_calls : List AreaCall
some_calls =
    create_call 1 10 open_square none
    ∷ list_call
    ∷ create_call 2 11 ((pos 0, pos 0) ∷ []) none
    ∷ update_call 1 (some 12) none none
    ∷ []

abbrev drawn : AreaStore
drawn = after_area_calls some_calls no_areas

drawn_area :
    drawn.areas
    ≡ (1, record { name = 12; polygon = append_point open_square (pos 0, pos 0); is_active = true })
      ∷ []
unfolding after_area_calls after_area_call create_area update_area normalize_polygon close_ring
    last_point append_point get_active_areas kilo_backend.Prelude.ℕ_discrete
    kilo_backend.ServiceAreas.Point-discrete
drawn_area = refl

no_areas-IsCharted : IsCharted no_areas
no_areas-IsCharted = record { closed_rings = tt; current = tt }

active_areas_charted_example :
    ((get_active_areas drawn).0 ≡ ok (active_areas drawn.areas))
    × All (λ x. IsClosedRing x.1.polygon × (x.1.is_active ≡ true)) (active_areas drawn.areas)
active_areas_charted_example = active_areas_charted some_calls no_areas no_areas-IsCharted
