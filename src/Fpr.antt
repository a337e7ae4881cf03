-- ===== src/Fpr.antt =====
-- a3m/fpr/registry.py: the format policy registry, its queries here and the loading of its data in a child. A
-- dictionary of the registry is a list of its keys and values in order; a key is a UUID, or the JSON value that
-- a look-up asks for, which equals no UUID. A UUID is the text that `uuid.UUID` gives it.
-- An object refers to another by its UUID. A file comes with the rows of its format versions.
-- The children: Fields and Loading (`_load`), Rules, Keyed, Objects and Closed (theorems), Tests.
pub mod Fields
pub mod Loading
pub mod Rules
pub mod Keyed
pub mod Objects
pub mod Closed
mod Tests
use a3m.Common.{
  String, Bool, true, false, not, ◌&&◌, ◌==◌, Option, none, some, List, [], ◌∷◌, ◌++◌,
  if◌then◌else◌, Result, ok, raise, value_error, ◌>>=◌,
}
use a3m.Helpers.Subprocess.{ScriptType}

-- The values of the fields in the data.
pub data Value : Type 0 where
  null : Value
  boolean : Bool → Value
  text : String → Value

pub data Key : Type 0 where
  by_uuid : String → Key
  by_value : Value → Key

abbrev pub same_value : Value → Value → Bool
same_value null null = true
same_value (boolean true) (boolean b) = b
same_value (boolean false) (boolean b) = not b
same_value (text s) (text t) = s == t
same_value _ _ = false

abbrev pub same_key : Key → Key → Bool
same_key (by_uuid a) (by_uuid b) = a == b
same_key (by_value a) (by_value b) = same_value a b
same_key _ _ = false

abbrev pub Keyed {ℓ} : Type ℓ → Type ℓ
Keyed V = List (Key × V)

module _ {ℓ} {V : Type ℓ} where
  -- `d.get(key)`
  unfoldable pub get : Key → Keyed V → Option V
  get key [] = none
  get key ((k, v) ∷ d) = if same_key k key then some v else get key d

  -- `d[key] = value`
  unfoldable pub put : Key → V → Keyed V → Keyed V
  put key value [] = (key, value) ∷ []
  put key value ((k, v) ∷ d) = if same_key k key then (k, value) ∷ d else (k, v) ∷ put key value d

  -- `key in d`
  abbrev pub is_in : Key → Keyed V → Bool
  is_in key [] = false
  is_in key ((k, v) ∷ d) = if same_key k key then true else is_in key d

-- `RulePurpose`, and its values.
pub data Purpose : Type 0 where
  access characterization characterize default_access default_characterization default_thumbnail :
      Purpose
  extract policy_check preservation thumbnail transcription validation : Purpose

abbrev pub purpose_value : Purpose → String
purpose_value access = "access"
purpose_value characterization = "characterization"
purpose_value characterize = "characterize"
purpose_value default_access = "default_access"
purpose_value default_characterization = "default_characterization"
purpose_value default_thumbnail = "default_thumbnail"
purpose_value extract = "extract"
purpose_value policy_check = "policy_check"
purpose_value preservation = "preservation"
purpose_value thumbnail = "thumbnail"
purpose_value transcription = "transcription"
purpose_value validation = "validation"

abbrev pub same_purpose : Purpose → Purpose → Bool
same_purpose a b = purpose_value a == purpose_value b

-- `get_fallback`
abbrev pub get_fallback : Purpose → Option Purpose
get_fallback thumbnail = some default_thumbnail
get_fallback characterization = some default_characterization
get_fallback access = some default_access
get_fallback _ = none

pub record FormatGroup : Type 0 where
  pub id : String
  pub slug : Value
  pub description : Value

pub record Format : Type 0 where
  pub id : String
  pub group : String
  pub slug : Value
  pub description : Value

pub record FormatVersion : Type 0 where
  pub id : String
  pub replaces : Option String
  pub format : String
  pub last_modified : String
  pub enabled : Bool
  pub access_format : Value
  pub preservation_format : Value
  pub version : Value
  pub slug : Value
  pub pronom_id : Value
  pub description : Value

pub record Tool : Type 0 where
  pub id : String
  pub slug : Value
  pub version : Value
  pub description : Value

-- `output_format` is not an attribute of every command; where it is, it may be `None`.
pub record Command : Type 0 where
  pub id : String
  pub replaces : Option String
  pub last_modified : String
  pub enabled : Bool
  pub output_location : Value
  pub command_usage : String
  pub command : Value
  pub script_type : ScriptType
  pub description : Value
  pub tool : String
  pub output_format : Option (Option String)
  pub verification_command : Option String
  pub event_detail_command : Option String

pub record Rule : Type 0 where
  pub id : String
  pub replaces : Option String
  pub purpose : Purpose
  pub command : String
  pub format : String
  pub last_modified : String
  pub enabled : Bool

-- `JSONBackend`
pub record Backend : Type 0 where
  pub formats : Keyed Format
  pub groups : Keyed FormatGroup
  pub versions : Keyed FormatVersion
  pub commands : Keyed Command
  pub rules : Keyed Rule
  pub tools : Keyed Tool
  pub replaced_versions : Keyed String
  pub replaced_commands : Keyed String
  pub replaced_rules : Keyed String

-- `get_format_version_by_id`
unfoldable pub get_format_version_by_id : Backend → String → Option FormatVersion
unfolding get
get_format_version_by_id backend id = elim (get (by_uuid id) backend.versions) [
  | none ↦ none
  | some version ↦
      (if not version.enabled
        then none
        else if is_in (by_uuid version.id) backend.replaced_versions
        then none
        else some version)
]

-- `get_format_version_by_puid`: the first of the versions in service.
unfoldable pub first_in_service : Keyed String → Value → Keyed FormatVersion → Option FormatVersion
first_in_service replaced puid [] = none
first_in_service replaced puid ((key, version) ∷ rest) =
    if same_value version.pronom_id puid
      && (version.enabled && not (is_in (by_uuid version.id) replaced))
    then some version
    else first_in_service replaced puid rest

abbrev pub get_format_version_by_puid : Backend → Value → Option FormatVersion
get_format_version_by_puid backend puid =
    first_in_service backend.replaced_versions puid backend.versions

-- `get_rule_by_id`
abbrev pub get_rule_by_id : Backend → String → Option Rule
get_rule_by_id backend id = get (by_uuid id) backend.rules

-- The loop of `get_rules`.
unfoldable pub rules_of : Keyed String → String → Purpose → Keyed Rule → List Rule
rules_of replaced format_version_id purpose [] = []
rules_of replaced format_version_id purpose ((key, rule) ∷ rest) =
    let others = rules_of replaced format_version_id purpose rest in
    if (rule.format == format_version_id)
      && (same_purpose rule.purpose purpose
          && (rule.enabled && not (is_in (by_uuid rule.id) replaced)))
    then rule ∷ others
    else others

unfoldable pub get_rules : Backend → String → Purpose → Result (List Rule)
unfolding get rules_of
get_rules backend format_version_id purpose =
    elim (get (by_uuid format_version_id) backend.versions) [
      | none ↦ raise value_error
      | some version ↦ ok (rules_of backend.replaced_rules format_version_id purpose backend.rules)
    ]

module _ (parse_uuid : String → Result String) (backend : Backend) where
  -- `Registry.get_rules`
  unfoldable pub registry_get_rules : String → Purpose → Result (List Rule)
  registry_get_rules format_version_id purpose = do
    id ← parse_uuid format_version_id
    get_rules backend id purpose

  -- The rules of one of the file's format versions: those of the fallback where there are none.
  pub with_fallback : String → Bool → Option Purpose → List Rule → Result (List Rule)
  with_fallback format_version_id true (some fallback_purpose) [] =
      registry_get_rules format_version_id fallback_purpose
  with_fallback format_version_id fallback fallback_purpose rules = ok rules

  -- `get_file_rules`, of a file with the given rows of `fileformatversion_set`.
  unfoldable pub get_file_rules : List String → Purpose → Bool → Result (List Rule)
  unfolding with_fallback
  get_file_rules [] purpose fallback = ok []
  get_file_rules (format_version_id ∷ rest) purpose fallback = do
    own ← registry_get_rules format_version_id purpose
    rules ← with_fallback format_version_id fallback (get_fallback purpose) own
    others ← get_file_rules rest purpose fallback
    ok (rules ++ others)
