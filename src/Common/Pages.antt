-- ===== src/Common/Pages.antt =====
-- `toPaginated` (src/common/utils/paginate.util.ts), with numbers that are not negative.
use kilo_backend.Prelude.{
  Bool, Bool-cases, Option, arith, if◌then◌else◌, inl, inr, leb, ltb, none, refl, some, suc, true,
  zero, ℕ, ◌*◌, ◌+◌, ◌-◌, ◌/◌, ◌<◌, ◌↔◌, ◌≡◌, ◌≤◌, ◌⊎◌,
}
use kilo_backend.Prelude.Action.{skip}
use kilo_backend.Rides.Dispatch.{take}
use native.Mathlib.Nat.{div-mul-le_self, lt_of_not-le, lt-div-mul-add, mul-le-mul_right}

pub record Page : Type 0 where
  pub total : ℕ
  pub page : ℕ
  pub page_size : ℕ
  pub total_pages : ℕ
  pub has_next_page : Bool

-- `query.take && query.take > 0 ? query.take : 50`
abbrev pub page_size_of : Option ℕ → ℕ
page_size_of none = 50
page_size_of (some zero) = 50
page_size_of (some (suc n)) = suc n

abbrev pub skip_of : Option ℕ → ℕ
skip_of none = 0
skip_of (some n) = n

-- `Math.max(1, Math.ceil(total / pageSize))`
unfoldable pub pages_of : ℕ → ℕ → ℕ
pages_of total size = let pages = (total + (size - 1)) / size in if leb pages 1 then 1 else pages

unfoldable pub to_paginated : ℕ → Option ℕ → Option ℕ → Page
unfolding pages_of
to_paginated total take skip =
    let size = page_size_of take in
    let page = skip_of skip / size + 1 in
    record {
      total = total;
      page = page;
      page_size = size;
      total_pages = pages_of total size;
      has_next_page = ltb page (pages_of total size);
    }

page_size_pos : (take : Option ℕ) → 0 < page_size_of take
page_size_pos none = omega arith
page_size_pos (some zero) = omega arith
page_size_pos (some (suc n)) = omega arith

-- The rounded quotient is the least number of pages that hold all items.
ceil_bounds :
    (total size : ℕ)
    → 0 < size
    → (total ≤ (total + (size - 1)) / size * size)
      × ((total + (size - 1)) / size * size < total + size)
ceil_bounds total size some_room =
    let top : ℕ = total + (size - 1) in
    let low : top / size * size ≤ top = div-mul-le_self top size in
    let high : top < top / size * size + size = lt-div-mul-add some_room in
    (omega (arith, high), omega (arith, low, some_room))

-- A page has a next one just where its end lies before the last item.
next_lem :
    (total size q page : ℕ)
    → 0 < size
    → total ≤ q * size
    → q * size < total + size
    → (page < q → page * size < total) × (page * size < total → page < q)
next_lem total size q page some_room enough least = (to, from)
  where
    to : page < q → page * size < total
    to h =
        let step : suc page * size ≤ q * size = mul-le-mul_right size h in
        omega (arith, step, least)

    from : page * size < total → page < q
    from h = lt_of_not-le (λ le.
        let held : q * size ≤ page * size = mul-le-mul_right size le in
        omega (arith, held, h, enough))

module _ (total size q : ℕ) (some_room : 0 < size) (enough : total ≤ q * size)
    (least : q * size < total + size) where
  abbrev count : ℕ
  count = if leb q 1 then 1 else q

  count_cases : ((q ≤ 1) × (count ≡ 1)) ⊎ (count ≡ q)
  count_cases = elim (Bool-cases (leb q 1)) [
    | inl e ↦ inl (ground (arith, e), rw e refl)
    | inr e ↦ inr (rw e refl)
  ]

  one_page : q ≤ 1 → total ≤ 1 * size
  one_page le =
      let held : q * size ≤ 1 * size = mul-le-mul_right size le in omega (arith, held, enough)

  count_holds : total ≤ count * size
  count_holds = elim count_cases [ inl c ↦ rw c.1 (one_page c.0) | inr e ↦ rw e enough ]

  count_least : (count ≡ 1) ⊎ (count * size < total + size)
  count_least = elim count_cases [ inl c ↦ inl c.1 | inr e ↦ inr (rw e least) ]

  -- A page has a next one just where its end lies before the last item.
  count_next :
      (index : ℕ)
      → (index + 1 < count → (index + 1) * size < total)
        × ((index + 1) * size < total → index + 1 < count)
  count_next index = elim count_cases [
    | inl c ↦ rw c.1 (λ h. absurd (omega (arith, h)), λ h. absurd (omega (arith, h, one_page c.0)))
    | inr e ↦ rw e (next_lem total size q (index + 1) some_room enough least)
  ]

page_at :
    (index size k : ℕ)
    → index * size ≤ k
    → k < index * size + size
    → ((index + 1) * size ≤ k + size) × (k < (index + 1) * size)
page_at index size k low high = (omega (arith, low), omega (arith, high))

-- What the envelope says of the whole list.
pub record Envelope (total skip : ℕ) (p : Page) : Type 0 where
  pub sized : 0 < p.page_size
  pub at_skip : (p.page * p.page_size ≤ skip + p.page_size) × (skip < p.page * p.page_size)
  pub first : 0 < p.page
  pub holds_all : total ≤ p.total_pages * p.page_size
  pub no_spare : (p.total_pages ≡ 1) ⊎ (p.total_pages * p.page_size < total + p.page_size)
  pub next_there : (p.has_next_page ≡ true) ↔ (p.page * p.page_size < total)

-- The envelope of a page: the item that is skipped to lies on it, the pages hold all items and none of
-- them is to spare, save that there is one page for an empty list, and there is a next page just
-- where an item lies behind this one.
pub to_paginated-Envelope :
    (total : ℕ) (wanted from : Option ℕ)
    → Envelope total (skip_of from) (to_paginated total wanted from)
unfolding to_paginated pages_of
to_paginated-Envelope total wanted from =
    let size : ℕ = page_size_of wanted in
    let some_room : 0 < size = page_size_pos wanted in
    let index : ℕ = skip_of from / size in
    let q : ℕ = (total + (size - 1)) / size in
    let low : index * size ≤ skip_of from = div-mul-le_self (skip_of from) size in
    let high : skip_of from < index * size + size = lt-div-mul-add some_room in
    let c = ceil_bounds total size some_room in
    let next = count_next total size q some_room c.0 c.1 index in
    record {
      sized = some_room;
      at_skip = page_at index size (skip_of from) low high;
      first = omega arith;
      holds_all = count_holds total size q some_room c.0 c.1;
      no_spare = count_least total size q some_room c.0 c.1;
      next_there = (λ h. next.0 (ground (arith, h)), λ h. ground (arith, next.1 h));
    }
