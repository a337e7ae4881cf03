-- ===== src/Helpers/Variables.antt =====
-- a3m/dicts.py: the variables of a package and a file. `os.path`, `str.lower` and the settings are
-- parameters; the dictionary is in the order in which its keys were set. The look-up of a row by its
-- UUID is not modelled: the rows come as they are found.
use Prim.Native.String.{◌++◌ as ◌⧺◌}
use a3m.Common.{
  String, Bool, true, false, Option, none, some, List, [], ◌∷◌, Result, ok, raise, attribute_error,
  ◌>>=◌,
}
use a3m.Common.Dict.{Dict, update}
use a3m.Common.Text.{replace}
use a3m.Packages.{OsPath, Settings, File}
use a3m.Helpers.Options.{hyphenate, inner, rstrip_slashes}

-- The kinds of `type_`.
pub data Kind : Type 0 where
  of_file of_sip of_transfer : Kind

-- A row of `models.SIP`, or of `models.Transfer`, and where it is.
pub record Unit_ : Type 0 where
  pub uuid : String
  pub relative_location : String

-- A row of `models.File` with its `sip` and its `transfer`, which may be `None`.
pub record FileOf : Type 0 where
  pub file : File
  pub sip : Option Unit_
  pub transfer : Option Unit_

-- `sip = file_.sip`: a `sip` that is `None` raises nothing, and the transfer is not looked at.
unfoldable pub unit_of : Option Unit_ → Option FileOf → Option Unit_
unit_of (some sip) file_ = some sip
unit_of none none = none
unit_of none (some file_) = file_.sip

module _ (os : OsPath) (settings : Settings) where
  abbrev pub expanded : Bool → String → String
  expanded true location = replace location "%sharedPath%" settings.shared_directory
  expanded false location = location

  abbrev pub relative_locations : Kind → String → String → Dict String
  relative_locations of_file sipdir location = []
  relative_locations of_sip sipdir location = ("%relativeLocation%", location) ∷ []
  relative_locations of_transfer sipdir location =
      ("%transferDirectory%", sipdir) ∷ ("%relativeLocation%", location) ∷ []

  -- The variables of the unit, and its directory.
  unfoldable pub unit_variables : Kind → Bool → Option Unit_ → Dict String × Option String
  unfolding update
  unit_variables kind expand_path none = ([], none)
  unit_variables kind expand_path (some sip) =
      let sipdir = expanded expand_path sip.relative_location in
      (
        update
            (("%SIPUUID%", sip.uuid)
              ∷ ("%SIPName%", replace (os.basename (rstrip_slashes sipdir)) ("-" ⧺ sip.uuid) "")
              ∷ ("%currentPath%", sipdir)
              ∷ ("%SIPDirectory%", sipdir)
              ∷ ("%SIPDirectoryBasename%", os.basename (os.abspath sipdir))
              ∷ ("%SIPLogsDirectory%", os.join sipdir ("logs" ∷ "" ∷ []))
              ∷ ("%SIPObjectsDirectory%", os.join sipdir ("objects" ∷ "" ∷ []))
              ∷ [])
            (relative_locations kind sipdir sip.relative_location),
        some sipdir,
      )

  -- `base_location`: without a `sip` that of the transfer, which may be missing too.
  unfoldable pub base_location : FileOf → Result String
  base_location file_ = elim file_.sip [
    | some sip ↦ ok sip.relative_location
    | none ↦ elim file_.transfer [
      | some transfer ↦ ok transfer.relative_location
      | none ↦ raise attribute_error
    ]
  ]

  -- The original and the current location.
  unfoldable pub locations : Bool → Option String → String → File → String × String
  locations true (some sipdir) base file =
      let base' = expanded true base in
      (
        replace file.originallocation "%transferDirectory%" base',
        replace (replace file.currentlocation "%transferDirectory%" base') "%SIPDirectory%" sipdir,
      )
  locations expand_path sipdir base file = (file.originallocation, file.currentlocation)

  abbrev pub file_location : Kind → String → Dict String
  file_location of_file current = ("%relativeLocation%", current) ∷ []
  file_location _ current = []

  abbrev pub synonyms : String → String × String → Dict String
  synonyms current (name, ext) =
      ("%inputFile%", current)
      ∷ ("%fileFullName%", current)
      ∷ ("%fileName%", os.basename name)
      ∷ ("%fileExtension%", os.drop_first ext)
      ∷ ("%fileExtensionWithDot%", ext)
      ∷ []

  -- The variables of the file.
  unfoldable pub file_variables : Kind → Bool → Option String → Option FileOf → Result (Dict String)
  unfolding update
  file_variables kind expand_path sipdir none = ok []
  file_variables kind expand_path sipdir (some file_) = do
    base ← base_location file_
    let (origin, current) = locations expand_path sipdir base file_.file in
        ok (
          update
            (update
              (("%fileUUID%", file_.file.pk)
                ∷ ("%originalLocation%", origin)
                ∷ ("%currentLocation%", current)
                ∷ ("%fileDirectory%", os.dirname current)
                ∷ ("%fileGrpUse%", file_.file.filegrpuse)
                ∷ [])
              (file_location kind current))
            (synonyms current (os.splitext current)))

  abbrev pub directories : Dict String
  directories =
      ("%tmpDirectory%", os.join settings.shared_directory ("tmp" ∷ "" ∷ []))
      ∷ ("%processingDirectory%", settings.processing_directory)
      ∷ ("%rejectedDirectory%", settings.rejected_directory)
      ∷ []

  -- `ReplacementDict.frommodel`
  unfoldable pub frommodel : Kind → Option Unit_ → Option FileOf → Bool → Result (Dict String)
  unfolding update
  frommodel kind sip file_ expand_path =
      let of_unit = unit_variables kind expand_path (unit_of sip file_) in
      do
        file_part ← file_variables kind expand_path of_unit.1 file_
        ok (update (update of_unit.0 file_part) directories)

-- `ReplacementDict.replace`, of one text.
unfoldable pub replace_variables : Dict String → String → String
unfolding replace
replace_variables [] orig = orig
replace_variables ((key, value) ∷ rest) orig = replace_variables rest (replace orig key value)

-- `to_gnu_options`
unfoldable pub to_gnu_options : (lower : String → String) → Dict String → List String
unfolding hyphenate inner
to_gnu_options lower [] = []
to_gnu_options lower ((key, value) ∷ rest) =
    ("--" ⧺ lower (hyphenate false (inner key)) ⧺ "=" ⧺ value) ∷ to_gnu_options lower rest

-- `replace_string_values`
unfoldable pub replace_string_values :
    OsPath → Settings → Kind → Option Unit_ → Option FileOf → String → Result String
replace_string_values os settings kind sip file_ text = do
  rd ← frommodel os settings kind sip file_ true
  ok (replace_variables rd text)
