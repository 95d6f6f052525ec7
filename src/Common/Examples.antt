-- ===== src/Common/Examples.antt =====
-- A top-up of 500 that is sent three times (src/common/interceptors/idempotency.interceptor.ts).
use kilo_backend.Common.Csv.{CsvRow, csv_null, csv_text, escape_csv_cell, to_csv}
use kilo_backend.Common.Csv.Reading.{csv_table, parse_csv, parse_csv-to_csv}
use kilo_backend.Common.Idempotency.{Api, intercept}
use kilo_backend.Common.Idempotency.Replay.{
  Request, intercept_all, kept_for, replayed_until_over, serve_request,
}
use kilo_backend.Common.Pages.{Envelope, pages_of, to_paginated, to_paginated-Envelope}
use kilo_backend.Prelude.{List, [], arith, false, refl, some, true, ℕ, ℕ_discrete, ◌+◌, ◌∷◌, ◌≡◌}
use kilo_backend.Prelude.Action.{Action, ok}
use kilo_backend.Prelude.Table.{find, number_key}

-- The world is a balance, and the answer to a top-up the new one.
abbrev adds : ℕ → Action ℕ ℕ
adds amount balance = (ok (balance + amount), balance + amount)

abbrev empty_api : Api ℕ ℕ
empty_api = record { keys = []; world = 100 }

abbrev topped_up : Api ℕ ℕ
topped_up = record {
  keys = (7, record { request_hash = 3; response_body = 600; expires_at = 86400012 }) ∷ [];
  world = 600;
}

abbrev elsewhere_too : List (Request ℕ ℕ)
elsewhere_too =
    record { now = 20; answered = 21; saves = false; header = some 8; hash = 3; handler = adds 1 }
    ∷ []

abbrev the_same : Request ℕ ℕ
the_same = record {
  now = 30;
  answered = 31;
  saves = true;
  header = some 7;
  hash = 3;
  handler = adds 500;
}

-- Between the two, another key adds 1.
replayed_until_over_example :
    (adds 500 100 ≡ (ok 600, 600))
    × (find 7 topped_up.keys ≡ some (kept_for {World = ℕ} 12 3 600))
    × (serve_request the_same (intercept_all elsewhere_too topped_up)
        ≡ (ok 600, intercept_all elsewhere_too topped_up))
unfolding intercept ℕ_discrete
replayed_until_over_example =
    replayed_until_over 10 12 7 3 (adds 500) elsewhere_too the_same empty_api tt refl
      (omega arith, tt) (omega arith) refl

-- The third answer leaves 601, and not 1101.
once_sample : (intercept_all elsewhere_too topped_up).world ≡ 601
unfolding intercept_all intercept ℕ_discrete
once_sample = refl

-- Two records of one key, the first with a formula, a comma and a quote in its text.
abbrev two_rows : List CsvRow
two_rows = ((110 ∷ [], csv_text (61 ∷ 97 ∷ 44 ∷ 34 ∷ [])) ∷ []) ∷ ((110 ∷ [], csv_null) ∷ []) ∷ []

parse_csv-to_csv_example :
    parse_csv (to_csv (λ _. false) two_rows) ≡ csv_table (λ _. false) two_rows
parse_csv-to_csv_example =
    parse_csv-to_csv (λ _. false) (110 ∷ [], csv_text (61 ∷ 97 ∷ 44 ∷ 34 ∷ [])) []
      (((110 ∷ [], csv_null) ∷ []) ∷ [])

-- n, a line break, "'=a,""", a line break.
csv_sample :
    to_csv (λ _. false) two_rows
    ≡ 110 ∷ 13 ∷ 10 ∷ 34 ∷ 39 ∷ 61 ∷ 97 ∷ 44 ∷ 34 ∷ 34 ∷ 34 ∷ 13 ∷ 10 ∷ []
unfolding to_csv escape_csv_cell
csv_sample = refl

-- Items 20 to 29 of 45.
to_paginated-Envelope_example :
    Envelope 45 20
      (record { total = 45; page = 3; page_size = 10; total_pages = 5; has_next_page = true })
unfolding to_paginated pages_of
to_paginated-Envelope_example = to_paginated-Envelope 45 (some 10) (some 20)
