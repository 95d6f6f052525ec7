-- ===== src/Common/Csv.antt =====
-- `toCsv` (src/common/utils/csv.util.ts). A text is a list of UTF-16 code units; whether JavaScript reads a
-- text as a number is an argument, and so is the text of a value that is no string.
pub mod Reading
use kilo_backend.Prelude.{
  Bool, List, [], false, if◌then◌else◌, map, not, true, ℕ, ◌&&◌, ◌++◌, ◌==◌, ◌||◌, ◌∷◌,
}
use kilo_backend.Prelude.Lists.{some_of}

abbrev pub Text : Type 0
Text = List ℕ

-- `null` or `undefined`, a string, and any other value by its text.
pub data CsvCell : Type 0 where
  csv_null : CsvCell
  csv_text csv_other : Text → CsvCell

-- A record of the export: its keys with their values, in order.
abbrev pub CsvRow : Type 0
CsvRow = List (Text × CsvCell)

-- /[",\r\n]/
abbrev pub is_special : ℕ → Bool
is_special c = (c == 34) || (c == 44) || (c == 13) || (c == 10)

-- /^[=+\-@\t\r]/
abbrev pub starts_formula : Text → Bool
starts_formula [] = false
starts_formula (c ∷ _) = (c == 61) || (c == 43) || (c == 45) || (c == 64) || (c == 9) || (c == 13)

-- `str.replace(/"/g, '""')`
abbrev pub double_quotes : Text → Text
double_quotes [] = []
double_quotes (c ∷ cs) = let rest = double_quotes cs in if c == 34 then 34 ∷ 34 ∷ rest else c ∷ rest

abbrev pub quoted_text : Text → Text
quoted_text s = if some_of is_special s then 34 ∷ (double_quotes s ++ (34 ∷ [])) else s

-- A text that a spreadsheet would run gets an apostrophe before it.
abbrev pub neutral_text : (Text → Bool) → Text → Text
neutral_text is_number s = if starts_formula s && not (is_number s) then 39 ∷ s else s

abbrev pub cell_content : (Text → Bool) → CsvCell → Text
cell_content is_number csv_null = []
cell_content is_number (csv_text s) = neutral_text is_number s
cell_content is_number (csv_other s) = s

unfoldable pub escape_csv_cell : (Text → Bool) → CsvCell → Text
escape_csv_cell is_number x = quoted_text (cell_content is_number x)

abbrev pub same_text : Text → Text → Bool
same_text [] [] = true
same_text [] (_ ∷ _) = false
same_text (_ ∷ _) [] = false
same_text (c ∷ cs) (d ∷ ds) = (c == d) && same_text cs ds

-- `row[h]`
abbrev pub cell_at : Text → CsvRow → CsvCell
cell_at h [] = csv_null
cell_at h ((k, x) ∷ row) = if same_text k h then x else cell_at h row

-- `xs.join(sep)`
abbrev pub join : Text → List Text → Text
join sep [] = []
join sep (x ∷ []) = x
join sep (x ∷ y ∷ xs) = x ++ (sep ++ join sep (y ∷ xs))

abbrev pub header_line : (Text → Bool) → List Text → Text
header_line is_number hs = join (44 ∷ []) (map (λ h. escape_csv_cell is_number (csv_text h)) hs)

abbrev pub row_line : (Text → Bool) → List Text → CsvRow → Text
row_line is_number hs row = join (44 ∷ []) (map (λ h. escape_csv_cell is_number (cell_at h row)) hs)

unfoldable pub to_csv : (Text → Bool) → List CsvRow → Text
unfolding escape_csv_cell
to_csv is_number [] = []
to_csv is_number (r ∷ rs) =
    let hs = map (λ x. x.0) r in
    join (13 ∷ 10 ∷ []) (header_line is_number hs ∷ map (row_line is_number hs) (r ∷ rs))
