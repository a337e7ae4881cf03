-- ===== src/Scripts/Normalize/Listed.antt =====
-- The file that `check_manual_normalization` of a3m/client/clientScripts/normalize.py finds is in the table.
use a3m.Common.{
  String, ◌≡◌, Bool, true, false, ◌&&◌, inl, inr, Option, none, some, List, [], ◌∷◌, arith, mem,
  if◌then◌else◌, ◌==◌, All, Bool-cases, eq_refl, ok, raise-ne-ok, ok-injective, bind_ok,
}
use mathlib.Core.Path.{subst}
use a3m.Client.{Job}
use a3m.Packages.{OsPath}
use a3m.Common.Text.{starts, ends}
use a3m.Helpers.Database.{FileRow, uuids}
use a3m.Scripts.Normalize.Manual.{
  Options, Csv, Found, csv_error, not_listed, listed, find_file, find_row, only, is_sip, ending_in,
  location, starting_with, unlisted_path, first_sorted, among, by_path, resolved, in_csv, of_file,
  check_manual_normalization,
}

-- The file that was found, if one was, is one of the files.
abbrev pub IsListed : List FileRow → Option FileRow → Type 0
IsListed files none = Unit
IsListed files (some row) = mem row.uuid (uuids files) ≡ true

-- A selection of a list that satisfies `P` satisfies it.
filtered :
    (P : FileRow → Type 0) (b : Bool) (row : FileRow) (rest : List FileRow)
    → P row
    → All P rest
    → All P (if b then row ∷ rest else rest)
filtered P true row rest p all = (p, all)
filtered P false row rest p all = all

ending_in-All :
    (P : FileRow → Type 0) (lower : String → String) (sip filename : String) (files : List FileRow)
    → All P files
    → All P (ending_in lower sip filename files)
unfolding ending_in
ending_in-All P lower sip filename [] all = tt
ending_in-All P lower sip filename (row ∷ rows) all =
    filtered P (is_sip sip row.sip_id && ends (lower filename) (lower row.originallocation)) row
      (ending_in lower sip filename rows) all.0 (ending_in-All P lower sip filename rows all.1)

starting_with-All :
    (P : FileRow → Type 0) (sip path : String) (files : List FileRow)
    → All P files
    → All P (starting_with sip path files)
unfolding starting_with
starting_with-All P sip path [] all = tt
starting_with-All P sip path (row ∷ rows) all =
    filtered P (is_sip sip row.sip_id && starts path (location row)) row
      (starting_with sip path rows) all.0 (starting_with-All P sip path rows all.1)

first_sorted-Holds :
    (P : FileRow → Type 0) (before : String → String → Bool) (row : FileRow) (rows : List FileRow)
    → P row
    → All P rows
    → P (first_sorted before row rows)
unfolding first_sorted
first_sorted-Holds P before row [] p all = p
first_sorted-Holds P before row (other ∷ rows) p all =
    first_sorted-Holds P before _ rows (pick (before (location other) (location row))) all.1
  where
    pick : (b : Bool) → P (if b then other else row)
    pick true = all.0
    pick false = p

-- Each row is listed under its UUID.
uuids-All : (files : List FileRow) → All (λ (r : FileRow). mem r.uuid (uuids files) ≡ true) files
uuids-All [] = tt
uuids-All (row ∷ rows) = (ground (arith, eq_refl row.uuid), widened rows (uuids-All rows))
  where
    widened :
        (l : List FileRow)
        → All (λ (r : FileRow). mem r.uuid (uuids rows) ≡ true) l
        → All (λ (r : FileRow). mem r.uuid (uuids (row ∷ rows)) ≡ true) l
    widened [] h = tt
    widened (r ∷ l) h = (ground (arith, h.0), widened l h.1)

module _ (os : OsPath) (before : String → String → Bool) (opts : Options)
    (files : List FileRow) where
  abbrev Listed : FileRow → Type 0
  Listed row = mem row.uuid (uuids files) ≡ true

  among-IsListed :
      (rows : List FileRow) (job : Job) → All Listed rows → IsListed files (among before rows job).0
  unfolding among
  among-IsListed [] job all = tt
  among-IsListed (row ∷ []) job all = all.0
  among-IsListed (row ∷ other ∷ rows) job all =
      first_sorted-Holds Listed before row (other ∷ rows) all.0 all.1

  by_path-IsListed : (job : Job) → IsListed files (by_path os before opts files job).0
  by_path-IsListed job =
      among-IsListed (starting_with opts.sip_uuid (unlisted_path os opts) files) _
        (starting_with-All Listed opts.sip_uuid (unlisted_path os opts) files (uuids-All files))

  only-Holds :
      (rows : List FileRow) (row : FileRow) → All Listed rows → only rows ≡ ok row → Listed row
  only-Holds [] row all e = absurd (raise-ne-ok e)
  only-Holds (r ∷ []) row all e = subst Listed (ok-injective e) all.0
  only-Holds (r ∷ _ ∷ _) row all e = absurd (raise-ne-ok e)

  resolved-IsListed :
      (csv : Csv) (bname : String) (found : Found) (job : Job) (result : Option FileRow × Job)
      → resolved os before csv bname opts files found job ≡ ok result
      → IsListed files result.0
  unfolding resolved
  resolved-IsListed csv bname csv_error job result e =
      subst (λ (r : Option FileRow × Job). IsListed files r.0) (ok-injective e) tt
  resolved-IsListed csv bname not_listed job result e =
      subst (λ (r : Option FileRow × Job). IsListed files r.0) (ok-injective e)
        (by_path-IsListed job)
  resolved-IsListed csv bname (listed preservation) job result e =
      elim (Bool-cases (preservation == "")) [
        | inl q ↦
            subst (λ (r : Option FileRow × Job). IsListed files r.0) (ok-injective (rw q at e)) tt
        | inr q ↦
            let (row, p, e1) =
              bind_ok (only (ending_in csv.lower opts.sip_uuid preservation files)) _ (rw q at e) in
            subst (λ (r : Option FileRow × Job). IsListed files r.0) (ok-injective e1)
              (only-Holds (ending_in csv.lower opts.sip_uuid preservation files) row
                (ending_in-All Listed csv.lower opts.sip_uuid preservation files (uuids-All files))
                p)
      ]

  in_csv-IsListed :
      (csv : Option Csv) (bname : String) (job : Job) (result : Option FileRow × Job)
      → in_csv os before csv bname opts files job ≡ ok result
      → IsListed files result.0
  unfolding in_csv
  in_csv-IsListed none bname job result e =
      subst (λ (r : Option FileRow × Job). IsListed files r.0) (ok-injective e)
        (by_path-IsListed job)
  in_csv-IsListed (some csv) bname job result e =
      let (found, _, e1) = bind_ok (find_row bname csv.fails csv.rows) _ e in
      resolved-IsListed csv bname found job result e1

  of_file-IsListed :
      (csv : Option Csv) (file : Option FileRow) (job : Job) (result : Option FileRow × Job)
      → of_file os before csv opts files file job ≡ ok result
      → IsListed files result.0
  unfolding of_file
  of_file-IsListed csv none job result e = absurd (raise-ne-ok e)
  of_file-IsListed csv (some file_) job result e = in_csv-IsListed csv _ job result e

pub check_manual_normalization-IsListed :
    (os : OsPath) (before : String → String → Bool) (csv : Option Csv) (opts : Options)
    (files : List FileRow) (job : Job) (result : Option FileRow × Job)
    → check_manual_normalization os before csv opts files job ≡ ok result
    → IsListed files result.0
unfolding check_manual_normalization
check_manual_normalization-IsListed os before csv opts files job result e =
    of_file-IsListed os before opts files csv (find_file opts.file_uuid files) job result e
