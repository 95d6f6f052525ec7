-- ===== src/ServiceAreas/Rings.antt =====
-- What is stored of service areas and what the cache holds of them
-- (src/service-areas/service-areas.service.ts).
use kilo_backend.Prelude.{
  Bool, Bool-cases, List, Option, [], ap, arith, if_neg, if_pos, inl, inr, ltb, none, refl, some,
  suc, true, ℕ, ℕ_discrete, ◌==◌, ◌∷◌, ◌≡◌, ◌≤◌,
}
use kilo_backend.Prelude.Action.{
  Action, Ensures, bad_request, not_found, ok, or_throw, pure, ◌>>=◌, ◌>>◌,
}
use kilo_backend.Prelude.Int.{ℤ}
use kilo_backend.Prelude.Keeps.{
  Keeps, Keeps-bind, Keeps-bind_with, Keeps-pure, Keeps-throw, keeps_rules,
}
use kilo_backend.Prelude.Lists.{All, keep-All, length}
use kilo_backend.Prelude.Table.{Table, find, number_key, put}
use kilo_backend.Pricing.Admin.{given}
use kilo_backend.ServiceAreas.{
  AreaCall, AreaStore, Point-discrete, Ring, ServiceArea, active_areas, after_area_call,
  after_area_calls, append_point, cached_areas, close_ring, create_area, create_call, delete_row,
  expire_call, find_area_or_throw, get_active_areas, invalidate_cache, last_point, list_call,
  normalize_given, normalize_polygon, remove_area, remove_call, update_area, update_call,
  write_area,
}

-- A ring that ends where it starts.
abbrev pub IsClosedRing : Ring → Type 0
IsClosedRing [] = ⊥
IsClosedRing (p ∷ ps) = (4 ≤ length (p ∷ ps)) × (last_point p ps ≡ p)

abbrev HasClosedRing : ℕ × ServiceArea → Type 0
HasClosedRing x = IsClosedRing x.1.polygon

abbrev IsCopy : Table ℕ ServiceArea → Option (Table ℕ ServiceArea) → Type 0
IsCopy rows none = Unit
IsCopy rows (some copy) = copy ≡ active_areas rows

pub record IsCharted (s : AreaStore) : Type 0 where
  pub closed_rings : All HasClosedRing s.areas
  pub current : IsCopy s.areas s.active_cache

last-append : (p q : ℤ × ℤ) (ps : Ring) → last_point q (append_point ps p) ≡ p
unfolding last_point append_point
last-append p q [] = refl
last-append p q (r ∷ ps) = last-append p r ps

length-append : (p : ℤ × ℤ) (ps : Ring) → length (append_point ps p) ≡ suc (length ps)
unfolding append_point
length-append p [] = refl
length-append p (q ∷ ps) = ap suc (length-append p ps)

close_ring-IsClosedRing :
    (p : ℤ × ℤ) (ps : Ring) → 4 ≤ length (p ∷ ps) → IsClosedRing (close_ring p ps)
unfolding close_ring append_point
close_ring-IsClosedRing p ps long = elim (Point-discrete (last_point p ps) p) [
  | yes e ↦ rw (if_pos _ e) (long, e)
  | no n ↦ rw (if_neg _ n) ((let more = length-append p ps in omega arith), last-append p p ps)
]

normalized : (r : Ring) (s : AreaStore) → Ensures (λ x _. IsClosedRing x) (normalize_polygon r s)
unfolding normalize_polygon
normalized [] s = tt
normalized (p ∷ ps) s = elim (Bool-cases (ltb (length (p ∷ ps)) 4)) [
  | inl short ↦ rw short tt
  | inr long ↦ rw long (close_ring-IsClosedRing p ps (grind (arith, long)))
]

normalize-IsCharted : (r : Ring) → Keeps IsCharted (normalize_polygon r)
unfolding normalize_polygon
normalize-IsCharted [] = Keeps-throw bad_request
normalize-IsCharted (p ∷ ps) = search keeps_rules depth 12

All-put :
    (id : ℕ) (a : ServiceArea) (t : Table ℕ ServiceArea)
    → IsClosedRing a.polygon
    → All HasClosedRing t
    → All HasClosedRing (put id a t)
All-put id a [] c h = (c, tt)
All-put id a ((j, b) ∷ t) c h = elim (ℕ_discrete id j) [
  | yes e ↦ rw (if_pos _ e) (c, h.1)
  | no n ↦ rw (if_neg _ n) (h.0, All-put id a t c h.1)
]

All-find :
    (id : ℕ) (a : ServiceArea) (t : Table ℕ ServiceArea)
    → find id t ≡ some a
    → All HasClosedRing t
    → IsClosedRing a.polygon
All-find id a [] e h = cc
All-find id a ((j, b) ∷ t) e h = elim (ℕ_discrete id j) [
  | yes p ↦ let w : some b ≡ some a = rw (if_pos _ p) at e in let same : a ≡ b = cc w in rw same h.0
  | no n ↦ All-find id a t (rw (if_neg _ n) at e) h.1
]

All-delete :
    (id : ℕ) (t : Table ℕ ServiceArea) → All HasClosedRing t → All HasClosedRing (delete_row id t)
unfolding delete_row
All-delete id [] h = tt
All-delete id ((j, a) ∷ t) h = elim (Bool-cases (id == j)) [
  | inl e ↦ rw e (All-delete id t h.1)
  | inr e ↦ rw e (h.0, All-delete id t h.1)
]

-- A row with a closed ring is written, and the copy is dropped.
area_written :
    (id : ℕ) (a : ServiceArea)
    → IsClosedRing a.polygon
    → Keeps IsCharted (write_area id a >> (invalidate_cache >> pure a))
area_written id a c = record {
  at = λ s h. record { closed_rings = All-put id a s.areas c h.closed_rings; current = tt };
}

create_area-IsCharted :
    (id name : ℕ) (r : Ring) (b : Option Bool) → Keeps IsCharted (create_area id name r b)
unfolding create_area
create_area-IsCharted id name r b =
    Keeps-bind_with IsClosedRing (normalize_polygon r) _ (normalize-IsCharted r) (normalized r)
      (λ ring c. area_written id _ c)

remove_area-IsCharted : (id : ℕ) → Keeps IsCharted (remove_area id)
unfolding remove_area
remove_area-IsCharted id = Keeps-bind (find_area_or_throw id) _ (search keeps_rules depth 12) (λ _.
    record {
      at = λ s h. record { closed_rings = All-delete id s.areas h.closed_rings; current = tt };
    })

normalize_given-IsCharted : (r : Option Ring) (old : Ring) → Keeps IsCharted (normalize_given r old)
normalize_given-IsCharted none old = Keeps-pure old
normalize_given-IsCharted (some r) old = normalize-IsCharted r

given_normalized :
    (r : Option Ring) (old : Ring) (s : AreaStore)
    → IsClosedRing old
    → Ensures (λ x _. IsClosedRing x) (normalize_given r old s)
given_normalized none old s c = c
given_normalized (some r) old s c = normalized r s

update_area-IsCharted :
    (id : ℕ) (name : Option ℕ) (r : Option Ring) (b : Option Bool)
    → Keeps IsCharted (update_area id name r b)
unfolding update_area
update_area-IsCharted id name r b = record { at = λ s h. go s h (find id s.areas) refl }
  where
    row : ServiceArea → Ring → ServiceArea
    row a ring = record {
      name = given name a.name;
      polygon = ring;
      is_active = given b a.is_active;
    }

    rest : ServiceArea → Action AreaStore ServiceArea
    rest a = do
      ring ← normalize_given r a.polygon
      write_area id (row a ring)
      invalidate_cache
      pure (row a ring)

    go :
        (s : AreaStore)
        → IsCharted s
        → (o : Option ServiceArea) → find id s.areas ≡ o
        → IsCharted ((or_throw not_found o >>= rest) s).1
    go s h none e = h
    go s h (some a) e =
        (Keeps-bind_with IsClosedRing (normalize_given r a.polygon) _
            (normalize_given-IsCharted r a.polygon)
            (λ u. given_normalized r a.polygon u (All-find id a s.areas e h.closed_rings))
            (λ ring c. area_written id (row a ring) c)).at
          s h

cached_areas-IsCharted : (o : Option (Table ℕ ServiceArea)) → Keeps IsCharted (cached_areas o)
cached_areas-IsCharted none = record {
  at = λ s h. record { closed_rings = h.closed_rings; current = refl };
}
cached_areas-IsCharted (some rows) = record { at = λ s h. h }

get_active_areas-IsCharted : Keeps IsCharted get_active_areas
unfolding get_active_areas
get_active_areas-IsCharted = search (keeps_rules, cached_areas-IsCharted) depth 12

after_call-IsCharted :
    (c : AreaCall) (s : AreaStore) → IsCharted s → IsCharted (after_area_call c s)
unfolding after_area_call
after_call-IsCharted (create_call id n r b) s h = (create_area-IsCharted id n r b).at s h
after_call-IsCharted (update_call id n r b) s h = (update_area-IsCharted id n r b).at s h
after_call-IsCharted (remove_call id) s h = (remove_area-IsCharted id).at s h
after_call-IsCharted list_call s h = get_active_areas-IsCharted.at s h
after_call-IsCharted expire_call s h = record { closed_rings = h.closed_rings; current = tt }

after_calls-IsCharted :
    (cs : List AreaCall) (s : AreaStore) → IsCharted s → IsCharted (after_area_calls cs s)
unfolding after_area_calls
after_calls-IsCharted [] s h = h
after_calls-IsCharted (c ∷ cs) s h =
    after_calls-IsCharted cs (after_area_call c s) (after_call-IsCharted c s h)

listed :
    (s : AreaStore) (o : Option (Table ℕ ServiceArea))
    → IsCopy s.areas o
    → (cached_areas o s).0 ≡ ok (active_areas s.areas)
listed s none h = refl
listed s (some rows) h = ap ok h

-- From tables with closed rings and a current copy, after any calls of the service, refused ones
-- included, and with copies that expire at any time: the list of active areas is that of the table
-- as it is then, and each of them is active and its ring has at least four points and ends where
-- it starts.
pub active_areas_charted :
    (cs : List AreaCall) (s : AreaStore)
    → IsCharted s
    → let now : AreaStore = after_area_calls cs s in
      ((get_active_areas now).0 ≡ ok (active_areas now.areas))
      × All (λ x. IsClosedRing x.1.polygon × (x.1.is_active ≡ true)) (active_areas now.areas)
unfolding get_active_areas
active_areas_charted cs s h =
    let now : AreaStore = after_area_calls cs s in
    let charted : IsCharted now = after_calls-IsCharted cs s h in
    (
      listed now now.active_cache charted.current,
      keep-All HasClosedRing (λ x. x.1.is_active) now.areas charted.closed_rings,
    )
