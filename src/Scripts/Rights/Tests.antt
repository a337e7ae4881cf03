-- ===== src/Scripts/Rights/Tests.antt =====
-- A rights.csv of four rows, and the theorem on its combinations.
use a3m.Common.{
  String, ◌≡◌, refl, false, ◌==◌, some, List, [], ◌∷◌, ok, raise, attribute_error, Result,
  if◌then◌else◌, All, length,
}
use Prim.Native.String.{◌++◌ as ◌⧺◌}
use a3m.Common.Dict.{lookup}
use a3m.Client.{
  Job, new_job, print_output, print_error, set_status, write_output, write_error, join,
}
use a3m.Common.Int.{show}
use a3m.Scripts.Rights.{
  new_reader, parse_rows, import_rights, usage_of, validate_columns, parse_row,
}
use a3m.Scripts.Rights.Store.{
  Strings, Row, store_row, column_value, end_at, copyright_end_date, end_date_of, end_open, info_of,
  store_copyright_info, store_license_info, store_statute_info, store_other_info, store_grant_info,
  store_info, store_doc_id, attributes_of, generate_rights_statement,
}
use a3m.Scripts.Rights.Unique.{parse_rows-IsUnique, IsUnique, IsImported}

abbrev lower : String → String
lower s = if s == "OPEN" then "open" else s

abbrev strings : Strings
strings = record {
  strip = λ s. s;
  lower = lower;
  capitalize = λ s. if s == "copyright" then "Copyright" else s;
}

abbrev row : (file basis act : String) → Row
row file basis act =
    ("file", some file)
    ∷ ("basis", some basis)
    ∷ ("grant_act", some act)
    ∷ ("end_date", some "OPEN")
    ∷ []

abbrev rows : List Row
rows =
    row "a" "copyright" "disseminate"
    ∷ row "b" "License" "disseminate"
    ∷ row "a" "Copyright" "disseminate"
    ∷ row "a" "Copyright" "modify"
    ∷ []

abbrev file_at : String → Result String
file_at location = ok ("uuid of " ⧺ location)

program : Unit {0}
unfolding lookup show print_output print_error set_status write_output write_error join parse_rows
    parse_row import_rights usage_of validate_columns store_row column_value copyright_end_date
    end_date_of info_of store_copyright_info store_license_info store_statute_info store_other_info
    store_grant_info store_info store_doc_id attributes_of generate_rights_statement
program = tt

skipped : (parse_rows strings file_at rows new_reader).1.skipped ≡ 3 ∷ []
unfolding program
skipped = refl

-- The end date "open" of a copyright is stored as a date, that of a license is not.
open_copyright : copyright_end_date strings (some "OPEN") ≡ end_at "OPEN"
unfolding program
open_copyright = refl

open_license : end_date_of strings (some "OPEN") ≡ end_open
unfolding program
open_license = refl

-- A row without a basis, which is an optional column, raises an AttributeError.
no_basis :
    (parse_rows strings file_at
      ((("file", some "a") ∷ ("grant_act", some "x") ∷ []) ∷ [])
      new_reader).0
    ≡ raise attribute_error
unfolding program
no_basis = refl

abbrev job : Job
job = new_job "rights_from_csv" "1" [] false

printed :
    (import_rights strings file_at (λ e n. ("", "")) "rights.csv" (some rows) job).output
    ≡ "Attempting to import rights data...\nSkipping duplicate basis/act combination at row 3\nProcessed rows: 4\n"
unfolding program
printed = refl

parse_rows-IsUnique_example :
    IsUnique (parse_rows strings file_at rows new_reader).1
    × ((parse_rows strings file_at rows new_reader).0 ≡ ok tt
        → All (IsImported strings file_at (parse_rows strings file_at rows new_reader).1) rows
          × ((parse_rows strings file_at rows new_reader).1.rows_processed ≡ length rows)
          × ((parse_rows strings file_at rows new_reader).1.unfinished ≡ []))
parse_rows-IsUnique_example = parse_rows-IsUnique strings file_at rows
