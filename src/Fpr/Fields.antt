-- ===== src/Fpr/Fields.antt =====
-- The fields of an item of the data, as `JSONBackend._load` of a3m/fpr/registry.py reads them. `uuid.UUID` of a
-- text, `datetime.strptime` and `str.casefold` are parameters.
use a3m.Common.{
  String, Bool, false, not, ◌==◌, Option, none, some, List, [], ◌∷◌, if◌then◌else◌, mem, key_error,
  value_error, type_error, attribute_error, Result, ok, raise, ◌>>=◌,
}
use a3m.Common.Dict.{Dict, lookup}
use a3m.Helpers.Subprocess.{ScriptType, as_is, bash_script, command_line, python_script}
use a3m.Fpr.{
  Value, null, boolean, text, Key, by_uuid, Keyed, get, put, Purpose, access, characterization,
  characterize, default_access, default_characterization, default_thumbnail, extract, policy_check,
  preservation, thumbnail, transcription, validation, purpose_value,
}

-- An item of the data.
pub record Item : Type 0 where
  pub model : String
  pub fields : Dict Value

pub record Library : Type 0 where
  pub parse_uuid : String → Result String
  pub strptime : (date fmt : String) → Option String
  pub casefold : String → String

-- `fields[name]`
unfoldable pub field : String → Dict Value → Result Value
unfolding lookup
field name fields = elim (lookup name fields) [ none ↦ raise key_error | some value ↦ ok value ]

abbrev pub truth : Value → Bool
truth null = false
truth (boolean b) = b
truth (text s) = not (s == "")

-- `d[id]`
unfoldable pub item_of {ℓ} : {V : Type ℓ} → Key → Keyed V → Result V
unfolding get
item_of key d = elim (get key d) [ none ↦ raise key_error | some value ↦ ok value ]

-- The purposes that `RulePurpose(value)` looks through.
abbrev pub purposes : List Purpose
purposes =
    access ∷ characterization ∷ characterize ∷ default_access ∷ default_characterization
    ∷ default_thumbnail ∷ extract ∷ policy_check ∷ preservation ∷ thumbnail ∷ transcription
    ∷ validation ∷ []

abbrev pub purpose_among : String → List Purpose → Result Purpose
purpose_among s [] = raise value_error
purpose_among s (purpose ∷ rest) =
    if purpose_value purpose == s then ok purpose else purpose_among s rest

abbrev pub purpose_of : Value → Result Purpose
purpose_of (text s) = purpose_among s purposes
purpose_of _ = raise value_error

-- `CommandScriptType(value)`
abbrev pub script_type_of : Value → Result ScriptType
script_type_of (text s) =
    if s == "as_is"
    then ok as_is
    else if s == "bashScript"
    then ok bash_script
    else if s == "command"
    then ok command_line
    else if s == "pythonScript"
    then ok python_script
    else raise value_error
script_type_of _ = raise value_error

-- `get_replaced_objects`, from the pairs of `replaces` and `id`.
abbrev pub replaced_by : List (Option String × String) → Keyed String → Keyed String
replaced_by [] replaced = replaced
replaced_by ((none, id) ∷ rest) replaced = replaced_by rest replaced
replaced_by ((some other, id) ∷ rest) replaced = replaced_by rest (put (by_uuid other) id replaced)

abbrev pub pairs {ℓ} :
    {V : Type ℓ} → (V → Option String × String) → Keyed V → List (Option String × String)
pairs f [] = []
pairs f ((key, value) ∷ d) = f value ∷ pairs f d

module _ (library : Library) where
  -- `uuid.UUID(value)`
  unfoldable pub to_uuid : Value → Result String
  to_uuid null = raise type_error
  to_uuid (boolean b) = raise attribute_error
  to_uuid (text s) = library.parse_uuid s

  -- `uuid.UUID(value) if value else None`
  unfoldable pub uuid_or_none : Value → Result (Option String)
  unfolding to_uuid
  uuid_or_none value = if truth value then to_uuid value >>= (λ id. ok (some id)) else ok none

  -- `convert_django_date_to_datetime`
  abbrev pub parsed_date : Option String → Option String → Result String
  parsed_date (some date) _ = ok date
  parsed_date none (some date) = ok date
  parsed_date none none = raise value_error

  unfoldable pub to_datetime : Value → Result String
  to_datetime (text date) =
      parsed_date (library.strptime date "%Y-%m-%dT%H:%M:%SZ")
        (library.strptime date "%Y-%m-%dT%H:%M:%S.%fZ")
  to_datetime _ = raise type_error

  -- `CommandUsage(value.casefold())`
  unfoldable pub command_usage_of : Value → Result String
  command_usage_of (text s) =
      if mem (library.casefold s) (
        "characterization" ∷ "event_detail" ∷ "extraction" ∷ "normalization" ∷ "transcription"
        ∷ "validation" ∷ "verification" ∷ [])
      then ok (library.casefold s)
      else raise value_error
  command_usage_of _ = raise attribute_error
