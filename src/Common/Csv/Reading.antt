-- ===== src/Common/Csv/Reading.antt =====
-- A reader of RFC 4180, and that it reads back what `toCsv` writes (src/common/utils/csv.util.ts).
use kilo_backend.Common.Csv.{
  CsvCell, CsvRow, Text, cell_at, cell_content, double_quotes, escape_csv_cell, header_line,
  is_special, join, neutral_text, quoted_text, row_line, to_csv,
}
use kilo_backend.Prelude.{
  Bool, Bool-cases, List, [], ap, arith, false, if◌then◌else◌, inl, inr, map, refl, sym, true, ℕ,
  ◌++◌, ◌==◌, ◌∙◌, ◌∷◌, ◌≡◌, ◌⊎◌,
}
use kilo_backend.Prelude.Lists.{some_of}
use mathlib.Core.List.{append-nil, append_assoc}

pub data Mode : Type 0 where
  at_field in_field in_quotes after_quote after_return : Mode

-- What is read: the rest of a field, the fields after it in its record, and the records after that.
pub record Doc : Type 0 where
  pub field : Text
  pub fields : List Text
  pub records : List (List Text)

abbrev pub add_char : ℕ → Doc → Doc
add_char c d = record d { field = c ∷ d.field }

abbrev pub new_field : Doc → Doc
new_field d = record d { field = []; fields = d.field ∷ d.fields }

abbrev pub new_record : Doc → Doc
new_record d = record { field = []; fields = []; records = (d.field ∷ d.fields) ∷ d.records }

-- A code unit outside of quotes, with what follows a comma, a carriage return and anything else.
abbrev pub outside : ℕ → Doc → Doc → Doc → Doc
outside c f e p = if c == 44 then new_field f else if c == 13 then e else add_char c p

abbrev pub read : Mode → Text → Doc
read m [] = record { field = []; fields = []; records = [] }
read at_field (c ∷ cs) =
    if c == 34
    then read in_quotes cs
    else outside c (read at_field cs) (read after_return cs) (read in_field cs)
read in_field (c ∷ cs) = outside c (read at_field cs) (read after_return cs) (read in_field cs)
read in_quotes (c ∷ cs) = if c == 34 then read after_quote cs else add_char c (read in_quotes cs)
read after_quote (c ∷ cs) =
    if c == 34
    then add_char 34 (read in_quotes cs)
    else outside c (read at_field cs) (read after_return cs) (read in_field cs)
read after_return (c ∷ cs) =
    if c == 10 then new_record (read at_field cs) else add_char c (read in_field cs)

abbrev pub parse_csv : Text → List (List Text)
parse_csv t = let d = read at_field t in (d.field ∷ d.fields) ∷ d.records

abbrev prepend : Text → Doc → Doc
prepend [] d = d
prepend (c ∷ cs) d = add_char c (prepend cs d)

same_code : (c d : ℕ) → c == d ≡ true → d ≡ c
same_code c d h = ground (arith, h)

read-double_quotes :
    (s rest : Text)
    → read in_quotes (double_quotes s ++ (34 ∷ rest)) ≡ prepend s (read after_quote rest)
read-double_quotes [] rest = refl
read-double_quotes (c ∷ cs) rest = elim (Bool-cases (c == 34)) [
  | inl e ↦ rw e (
      ap (add_char 34) (read-double_quotes cs rest)
      ∙ ap (λ k. add_char k (prepend cs (read after_quote rest))) (same_code c 34 e))
  | inr e ↦ rw (e, e) (ap (add_char c) (read-double_quotes cs rest))
]

read-plain :
    (s rest : Text)
    → some_of is_special s ≡ false
    → read in_field (s ++ rest) ≡ prepend s (read in_field rest)
read-plain [] rest h = refl
read-plain (c ∷ cs) rest h =
    let no_comma : c == 44 ≡ false = ground (arith, h) in
    let no_return : c == 13 ≡ false = ground (arith, h) in
    rw (no_comma, no_return) (ap (add_char c) (read-plain cs rest (ground (arith, h))))

-- Where a field ends.
IsEnd : Text → Type 0
IsEnd [] = Unit
IsEnd (c ∷ _) = (c ≡ 44) ⊎ (c ≡ 13)

end_same :
    (rest : Text)
    → IsEnd rest
    → (read in_field rest ≡ read at_field rest) × (read after_quote rest ≡ read at_field rest)
unfolding IsEnd
end_same [] h = (refl, refl)
end_same (c ∷ cs) (inl e) = rw e (refl, refl)
end_same (c ∷ cs) (inr e) = rw e (refl, refl)

-- A cell is read back up to where its field ends.
read-quoted_text :
    (s rest : Text)
    → IsEnd rest
    → read at_field (quoted_text s ++ rest) ≡ prepend s (read at_field rest)
read-quoted_text s rest h = elim (Bool-cases (some_of is_special s)) [
  | inl e ↦ rw e (
      ap (read in_quotes) (append_assoc (double_quotes s) (34 ∷ []) rest)
      ∙ read-double_quotes s rest
      ∙ ap (prepend s) (end_same rest h).1)
  | inr e ↦ rw e (unquoted s e)
]
  where
    unquoted :
        (t : Text)
        → some_of is_special t ≡ false
        → read at_field (t ++ rest) ≡ prepend t (read at_field rest)
    unquoted [] e = refl
    unquoted (c ∷ cs) e =
        let no_quote : c == 34 ≡ false = ground (arith, e) in
        rw no_quote (read-plain (c ∷ cs) rest e ∙ ap (λ d. prepend (c ∷ cs) d) (end_same rest h).0)

prepend_field : (s : Text) (d : Doc) → prepend s d ≡ record d { field = s ++ d.field }
prepend_field [] d = refl
prepend_field (c ∷ cs) d = ap (add_char c) (prepend_field cs d)

last_field :
    (x : Text) (d : Doc)
    → d.field ≡ []
    → d.fields ≡ []
    → record d { field = x ++ d.field } ≡ record { field = x; fields = []; records = d.records }
last_field x d e f =
    ap (λ t. record d { field = x ++ t }) e
    ∙ ap (λ t. record d { field = t }) (append-nil x)
    ∙ ap (λ t. record { field = x; fields = t; records = d.records }) f

-- What follows a record: nothing, or a line break with the records behind it.
IsLineEnd : Text → Type 0
IsLineEnd t = IsEnd t × ((read at_field t).field ≡ []) × ((read at_field t).fields ≡ [])

read-cells :
    (x : Text) (xs : List Text) (rest : Text)
    → IsLineEnd rest
    → read at_field (join (44 ∷ []) (map quoted_text (x ∷ xs)) ++ rest)
      ≡ record { field = x; fields = xs; records = (read at_field rest).records }
unfolding IsLineEnd IsEnd
read-cells x [] rest h =
    read-quoted_text x rest h.0
    ∙ prepend_field x (read at_field rest)
    ∙ last_field x (read at_field rest) h.1 h.2
read-cells x (y ∷ ys) rest h =
    let behind : Text = join (44 ∷ []) (map quoted_text (y ∷ ys)) in
    ap (read at_field) (append_assoc (quoted_text x) (44 ∷ behind) rest)
    ∙ read-quoted_text x (44 ∷ (behind ++ rest)) (inl refl)
    ∙ ap (λ d. prepend x (new_field d)) (read-cells y ys rest h)
    ∙ prepend_field x
        (record { field = []; fields = y ∷ ys; records = (read at_field rest).records })
    ∙ ap (λ t. record { field = t; fields = y ∷ ys; records = (read at_field rest).records })
        (append-nil x)

abbrev line_of : Text × List Text → Text
line_of (x, xs) = join (44 ∷ []) (map quoted_text (x ∷ xs))

abbrev cells_of : Text × List Text → List Text
cells_of (x, xs) = x ∷ xs

read-lines :
    (r : Text × List Text) (rs : List (Text × List Text))
    → parse_csv (join (13 ∷ 10 ∷ []) (map line_of (r ∷ rs))) ≡ map cells_of (r ∷ rs)
unfolding IsLineEnd IsEnd
read-lines (x, xs) [] =
    ap parse_csv (sym (append-nil (line_of (x, xs))))
    ∙ ap (λ d. (d.field ∷ d.fields) ∷ d.records) (read-cells x xs [] (tt, refl, refl))
read-lines (x, xs) (r ∷ rs) =
    let behind : Text = join (13 ∷ 10 ∷ []) (map line_of (r ∷ rs)) in
    ap (λ d. (d.field ∷ d.fields) ∷ d.records)
      (read-cells x xs (13 ∷ 10 ∷ behind) (inr refl, refl, refl))
    ∙ ap (λ t. (x ∷ xs) ∷ t) (read-lines r rs)

map-twice :
    (f : Text → Text) (l : List Text) → map (λ k. quoted_text (f k)) l ≡ map quoted_text (map f l)
map-twice f [] = refl
map-twice f (x ∷ xs) = ap (λ t. quoted_text (f x) ∷ t) (map-twice f xs)

module _ (is_number : Text → Bool) where
  -- The texts of a record's cells under these keys, the first of them apart.
  contents : Text → List Text → CsvRow → Text × List Text
  contents h hs row =
      (cell_content is_number (cell_at h row), map (λ k. cell_content is_number (cell_at k row)) hs)

  headers : Text → List Text → Text × List Text
  headers h hs = (neutral_text is_number h, map (neutral_text is_number) hs)

  row_lines :
      (h : Text) (hs : List Text) (l : List CsvRow)
      → map (row_line is_number (h ∷ hs)) l ≡ map line_of (map (contents h hs) l)
  unfolding escape_csv_cell contents
  row_lines h hs [] = refl
  row_lines h hs (r ∷ rs) =
      ap
        (λ t.
          join (44 ∷ []) (quoted_text (cell_content is_number (cell_at h r)) ∷ t)
          ∷ map (row_line is_number (h ∷ hs)) rs)
        (map-twice (λ k. cell_content is_number (cell_at k r)) hs)
      ∙ ap (λ t. line_of (contents h hs r) ∷ t) (row_lines h hs rs)

  first_line : (h : Text) (hs : List Text) → header_line is_number (h ∷ hs) ≡ line_of (headers h hs)
  unfolding escape_csv_cell headers
  first_line h hs =
      ap (λ t. join (44 ∷ []) (quoted_text (neutral_text is_number h) ∷ t))
        (map-twice (neutral_text is_number) hs)

  row_cells :
      (h : Text) (hs : List Text) (l : List CsvRow)
      → map cells_of (map (contents h hs) l)
        ≡ map (λ row. map (λ k. cell_content is_number (cell_at k row)) (h ∷ hs)) l
  unfolding contents
  row_cells h hs [] = refl
  row_cells h hs (r ∷ rs) =
      ap (λ t. map (λ k. cell_content is_number (cell_at k r)) (h ∷ hs) ∷ t) (row_cells h hs rs)

  -- What a reader of the export is meant to see: the keys of the first record, and under them the
  -- values of each record, formulas defused.
  abbrev pub csv_table : List CsvRow → List (List Text)
  csv_table [] = []
  csv_table (r ∷ rs) =
      let hs = map (λ x. x.0) r in
      map (neutral_text is_number) hs
      ∷ map (λ row. map (λ h. cell_content is_number (cell_at h row)) hs) (r ∷ rs)

  -- A reader of RFC 4180 that is given what `toCsv` writes of records, the first of which has a key,
  -- reads the keys of the first record and the values of each record under them, formulas defused
  -- and nothing else changed.
  pub parse_csv-to_csv :
      (c : Text × CsvCell) (cs : CsvRow) (rs : List CsvRow)
      → parse_csv (to_csv is_number ((c ∷ cs) ∷ rs)) ≡ csv_table ((c ∷ cs) ∷ rs)
  unfolding to_csv headers
  parse_csv-to_csv c cs rs =
      let hs : List Text = map (λ x. x.0) cs in
      let l : List CsvRow = (c ∷ cs) ∷ rs in
      ap (λ t. parse_csv (join (13 ∷ 10 ∷ []) (header_line is_number (c.0 ∷ hs) ∷ t)))
        (row_lines c.0 hs l)
      ∙ ap (λ t. parse_csv (join (13 ∷ 10 ∷ []) (t ∷ map line_of (map (contents c.0 hs) l))))
          (first_line c.0 hs)
      ∙ read-lines (headers c.0 hs) (map (contents c.0 hs) l)
      ∙ ap (λ t. cells_of (headers c.0 hs) ∷ t) (row_cells c.0 hs l)
