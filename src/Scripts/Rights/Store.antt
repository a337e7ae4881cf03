-- ===== src/Scripts/Rights/Store.antt =====
-- What a row of a rights.csv stores in the database (a3m/client/clientScripts/rights_from_csv.py): a
-- statement, the information of its basis, and the grant. Attributes have the names of the columns of
-- the models.
use a3m.Common.{
  String, ◌==◌, Option, none, some, List, [], ◌∷◌, if◌then◌else◌, mem, rights_row, attribute_error,
  Result, ok, raise, ◌>>=◌,
}
use Prim.Native.String.{◌++◌ as ◌⧺◌}
use a3m.Common.Dict.{Dict, lookup}

pub record Strings : Type 0 where
  pub strip : String → String
  pub lower : String → String
  pub capitalize : String → String

abbrev pub Row : Type 0
Row = Dict (Option String)

abbrev pub normalize : Strings → String → String
normalize strings s = strings.capitalize (strings.lower s)

-- `end_date` of a model, or its `enddateopen`.
pub data EndDate : Type 0 where
  no_end end_open : EndDate
  end_at : String → EndDate

-- The row of a model with its attributes, its documentation identifier and its note.
pub record Info : Type 0 where
  pub attributes : Dict (Option String)
  pub end_date : EndDate
  pub doc_id : Option (Dict (Option String))
  pub note : Option String

pub record Grant : Type 0 where
  pub act : Option String
  pub startdate : Option String
  pub end_date : EndDate
  pub restriction : Option String
  pub note : Option String

pub record Statement : Type 0 where
  pub metadataappliestoidentifier : String
  pub rightsbasis : String
  pub status : String
  pub info : Option Info
  pub grant : Grant

-- `RightsStatement.RIGHTS_BASIS_CHOICES`
abbrev pub rights_basis_choices : List String
rights_basis_choices = "Copyright" ∷ "Statute" ∷ "License" ∷ "Donor" ∷ "Policy" ∷ "Other" ∷ []

module _ (strings : Strings) where
  -- `column_value`; `None` has no method `strip`.
  unfoldable pub column_value : Row → String → Result (Option String)
  column_value row column_name = elim (lookup column_name row) [
    | none ↦ ok none
    | some none ↦ raise attribute_error
    | some (some v) ↦ let value = strings.strip v in ok (if value == "" then none else some value)
  ]

  -- The end date of licenses, statutes, other bases and grants.
  unfoldable pub end_date_of : Option String → EndDate
  end_date_of none = no_end
  end_date_of (some end_date) =
      if strings.lower end_date == "open" then end_open else end_at end_date

  -- That of a copyright: `end_date.lower == "open"` compares the method, and never holds.
  unfoldable pub copyright_end_date : Option String → EndDate
  copyright_end_date none = no_end
  copyright_end_date (some end_date) = end_at end_date

  -- `store_doc_id`
  abbrev pub doc_id_of :
      Option String → Option String → Option String → Option (Dict (Option String))
  doc_id_of none none none = none
  doc_id_of id_type id_value id_role =
      some (("type", id_type) ∷ ("value", id_value) ∷ ("role", id_role) ∷ [])

  unfoldable pub store_doc_id : Row → Result (Option (Dict (Option String)))
  store_doc_id row = do
    id_type ← column_value row "doc_id_type"
    id_value ← column_value row "doc_id_value"
    id_role ← column_value row "doc_id_role"
    ok (doc_id_of id_type id_value id_role)

  -- The attributes with the values of their columns.
  unfoldable pub attributes_of : Row → List (String × String) → Result (Dict (Option String))
  attributes_of row [] = ok []
  attributes_of row ((attribute, column_name) ∷ rest) = do
    value ← column_value row column_name
    others ← attributes_of row rest
    ok ((attribute, value) ∷ others)

  -- The information of a basis, from the columns of its attributes.
  unfoldable pub store_info : (Option String → EndDate) → List (String × String) → Row → Result Info
  store_info end_date_from columns row = do
    attributes ← attributes_of row columns
    end_date ← column_value row "end_date"
    doc_id ← store_doc_id row
    note ← column_value row "note"
    ok (record {
      attributes = attributes;
      end_date = end_date_from end_date;
      doc_id = doc_id;
      note = note;
    })

  unfoldable pub store_copyright_info : Row → Result Info
  store_copyright_info row =
      store_info copyright_end_date
        (("copyrightstatus", "status")
          ∷ ("copyrightjurisdiction", "jurisdiction")
          ∷ ("copyrightstatusdeterminationdate", "determination_date")
          ∷ ("copyrightapplicablestartdate", "start_date")
          ∷ [])
        row

  unfoldable pub store_license_info : Row → Result Info
  store_license_info row =
      store_info end_date_of
        (("licenseterms", "terms") ∷ ("licenseapplicablestartdate", "start_date") ∷ []) row

  unfoldable pub store_statute_info : Row → Result Info
  store_statute_info row =
      store_info end_date_of
        (("statutejurisdiction", "jurisdiction")
          ∷ ("statutecitation", "citation")
          ∷ ("statutedeterminationdate", "determination_date")
          ∷ ("statuteapplicablestartdate", "start_date")
          ∷ [])
        row

  unfoldable pub store_other_info : String → Row → Result Info
  store_other_info basis row = do
    info ← store_info end_date_of (("otherrightsapplicablestartdate", "start_date") ∷ []) row
    ok (record info { attributes = ("otherrightsbasis", some basis) ∷ info.attributes })

  unfoldable pub store_grant_info : Row → Result Grant
  store_grant_info row = do
    act ← column_value row "grant_act"
    startdate ← column_value row "grant_start_date"
    end_date ← column_value row "grant_end_date"
    restriction ← column_value row "grant_restriction"
    note ← column_value row "grant_note"
    ok (record {
      act = act;
      startdate = startdate;
      end_date = end_date_of end_date;
      restriction = restriction;
      note = note;
    })

  -- The branch of `store_row` by the basis; the others are Other, Donor and Policy.
  unfoldable pub info_of : String → Row → Result Info
  info_of basis row =
      if basis == "Copyright"
      then store_copyright_info row
      else if basis == "License"
      then store_license_info row
      else if basis == "Statute"
      then store_statute_info row
      else store_other_info basis row

  -- `generate_rights_statement`, which saves a statement with this file and basis; `file_at` finds the file of an original location.
  abbrev pub basis_from : Option String → Result String
  basis_from none = raise attribute_error
  basis_from (some text) =
      let basis = normalize strings text in
      if mem basis rights_basis_choices then ok basis else raise rights_row

  abbrev pub location_of : Option String → Result String
  location_of none = raise attribute_error
  location_of (some filepath) = ok ("%transferDirectory%" ⧺ filepath)

  unfoldable pub generate_rights_statement :
      (file_at : String → Result String) → Row → Result (String × String)
  generate_rights_statement file_at row = do
    text ← column_value row "basis"
    basis ← basis_from text
    filepath ← column_value row "file"
    location ← location_of filepath
    file_uuid ← file_at location
    ok (file_uuid, basis)

  -- `store_row`: what a row that does not raise has saved in the end.
  unfoldable pub store_row : (file_at : String → Result String) → Row → Result Statement
  unfolding generate_rights_statement
  store_row file_at row = do
    generated ← generate_rights_statement file_at row
    info ← info_of generated.1 row
    grant ← store_grant_info row
    ok (record {
      metadataappliestoidentifier = generated.0;
      rightsbasis = generated.1;
      status = "ORIGINAL";
      info = some info;
      grant = grant;
    })
