-- ===== src/Scripts/Normalize/Manual.antt =====
-- `check_manual_normalization` of a3m/client/clientScripts/normalize.py. The rows of normalization.csv come as
-- the reader gives them, with whether it fails after them; the order of texts is a parameter.
use a3m.Common.{
  String, Bool, true, false, ◌&&◌, ◌==◌, Option, none, some, List, [], ◌∷◌, if◌then◌else◌,
  value_error, does_not_exist, other_error, Result, ok, raise, ◌>>=◌,
}
use Prim.Native.String.{◌++◌ as ◌⧺◌}
use a3m.Common.Text.{starts, ends, contains, replace, replace_first}
use a3m.Client.{Job, print_output, print_error}
use a3m.Packages.{OsPath}
use a3m.Helpers.Database.{FileRow}

pub record Options : Type 0 where
  pub file_uuid : String
  pub file_path : String
  pub sip_path : String
  pub sip_uuid : String
  pub task_uuid : String
  pub normalize_file_grp_use : String

pub record Csv : Type 0 where
  pub path : String
  pub rows : List (List String)
  pub fails : Bool
  pub line_num : String
  pub traceback : String
  pub lower : String → String

unfoldable pub find_file : String → List FileRow → Option FileRow
find_file uuid [] = none
find_file uuid (row ∷ rows) = if row.uuid == uuid then some row else find_file uuid rows

-- The look-up in normalization.csv: an error of the reader, no row, or the preservation file of one.
pub data Found : Type 0 where
  csv_error not_listed : Found
  listed : String → Found

-- The rows in order; a row that has no three columns raises.
unfoldable pub find_row : (bname : String) → Bool → List (List String) → Result Found
unfolding contains
find_row bname true [] = ok csv_error
find_row bname false [] = ok not_listed
find_row bname fails ([] ∷ rows) = find_row bname fails rows
find_row bname fails ((original ∷ columns) ∷ rows) =
    let rest = find_row bname fails rows in
    if contains "#" original then rest else elim columns [
      | [] ↦ raise value_error
      | access ∷ others ↦ elim others [
        | [] ↦ raise value_error
        | preservation ∷ more ↦ elim more [
          | [] ↦ (if original == bname then ok (listed preservation) else rest)
          | extra ∷ tail ↦ raise value_error
        ]
      ]
    ]

-- `File.objects.get(...)`: the one row that passes.
abbrev pub only : List FileRow → Result FileRow
only [] = raise does_not_exist
only (row ∷ []) = ok row
only (row ∷ _ ∷ _) = raise other_error

abbrev pub is_sip : String → Option String → Bool
is_sip sip_uuid none = false
is_sip sip_uuid (some other) = other == sip_uuid

-- The rows of the SIP whose original location ends with the name, in any case.
unfoldable pub ending_in :
    (lower : String → String) → (sip_uuid filename : String) → List FileRow → List FileRow
unfolding ends
ending_in lower sip_uuid filename [] = []
ending_in lower sip_uuid filename (row ∷ rows) =
    let rest = ending_in lower sip_uuid filename rows in
    if is_sip sip_uuid row.sip_id && ends (lower filename) (lower row.originallocation)
    then row ∷ rest
    else rest

abbrev pub location : FileRow → String
location row = elim row.currentlocation [ none ↦ "" | some s ↦ s ]

-- The rows of the SIP whose current location starts with the path.
unfoldable pub starting_with : (sip_uuid path : String) → List FileRow → List FileRow
unfolding starts
starting_with sip_uuid path [] = []
starting_with sip_uuid path (row ∷ rows) =
    let rest = starting_with sip_uuid path rows in
    if is_sip sip_uuid row.sip_id && starts path (location row) then row ∷ rest else rest

-- The first of the rows when they are sorted by their locations.
unfoldable pub first_sorted : (before : String → String → Bool) → FileRow → List FileRow → FileRow
first_sorted before row [] = row
first_sorted before row (other ∷ rows) =
    first_sorted before (if before (location other) (location row) then other else row) rows

unfoldable pub unlisted_path : OsPath → Options → String
unfolding replace replace_first
unlisted_path os opts =
    replace (os.splitext (replace_first opts.file_path opts.sip_path "%SIPDirectory%")).0
      "%SIPDirectory%objects/" "%SIPDirectory%objects/manualNormalization/preservation/"

-- The unique file in the directory of manual normalizations, or the first by its location.
unfoldable pub among : (before : String → String → Bool) → List FileRow → Job → Option FileRow × Job
among before [] job = (none, print_output ("No such file found." ∷ []) job)
among before (row ∷ []) job = (some row, job)
among before (row ∷ other ∷ rows) job =
    let first = first_sorted before row (other ∷ rows) in
    (
      some first,
      print_output (("Returning file at " ⧺ location first) ∷ []) (
          print_output ("Multiple files matching path {} found. Returning the shortest one." ∷ [])
            job),
    )

abbrev pub by_path :
    OsPath → (String → String → Bool) → Options → List FileRow → Job → Option FileRow × Job
by_path os before opts files job =
    let path = unlisted_path os opts in
    among before (starting_with opts.sip_uuid path files) (
      print_output
        (("Checking for a manually normalized file by trying to get the unique file that matches SIP UUID "
            ⧺ opts.sip_uuid ⧺ " and whose currentlocation value starts with this path: " ⧺ path
            ⧺ ".")
          ∷ [])
        job)

-- What the look-up comes to: a row without a preservation file is no manual normalization.
unfoldable pub resolved :
    OsPath
    → (String → String → Bool)
    → Csv
    → (bname : String) → Options
    → List FileRow
    → Found
    → Job
    → Result (Option FileRow × Job)
resolved os before csv bname opts files csv_error job = ok (
  none,
  print_error (csv.traceback ∷ [])
      (print_error ("Error reading" ∷ csv.path ∷ " on line" ∷ csv.line_num ∷ []) job),
)
resolved os before csv bname opts files not_listed job = ok (by_path os before opts files job)
resolved os before csv bname opts files (listed preservation) job =
    let matched =
      print_output ("Filename" ∷ bname ∷ "matches entry in normalization.csv" ∷ bname ∷ []) job in
    if preservation == ""
    then ok (none, matched)
    else only (ending_in csv.lower opts.sip_uuid preservation files) >>= (λ row.
      ok (some row, print_output ("Looking for" ∷ preservation ∷ "in database" ∷ []) matched))

unfoldable pub in_csv :
    OsPath
    → (String → String → Bool)
    → Option Csv
    → (bname : String) → Options
    → List FileRow
    → Job
    → Result (Option FileRow × Job)
unfolding resolved
in_csv os before none bname opts files job = ok (by_path os before opts files job)
in_csv os before (some csv) bname opts files job =
    find_row bname csv.fails csv.rows
    >>= (λ found. resolved os before csv bname opts files found job)

unfoldable pub of_file :
    OsPath
    → (String → String → Bool)
    → Option Csv
    → Options
    → List FileRow
    → Option FileRow
    → Job
    → Result (Option FileRow × Job)
unfolding in_csv replace_first
of_file os before csv opts files none job = raise does_not_exist
of_file os before csv opts files (some file_) job =
    in_csv os before csv
      (replace_first (replace_first file_.originallocation "%transferDirectory%objects/" "")
        "%SIPDirectory%objects/" "")
      opts files job

unfoldable pub check_manual_normalization :
    OsPath
    → (String → String → Bool)
    → Option Csv
    → Options
    → List FileRow
    → Job
    → Result (Option FileRow × Job)
unfolding of_file find_file
check_manual_normalization os before csv opts files job =
    of_file os before csv opts files (find_file opts.file_uuid files) job
