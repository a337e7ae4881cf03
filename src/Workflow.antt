-- ===== src/Workflow.antt =====
-- a3m/server/workflow.py and the job statuses of a3m/main/models.py: the decoder of the workflow
-- document and the methods of `Workflow` and `Link` by which the engine reads it. A link that has the
-- shape of the schema is a record, an optional key an `Option`. `jsonschema.validate` is not modelled:
-- the decoder's own failures (an unknown status label) are.
-- The children: Translation (a3m/server/translation.py), Decoding (theorems), Tests.
pub mod Translation
pub mod Decoding
mod Tests
use a3m.Common.{
  ℕ, String, Bool, true, false, Option, none, some, List, [], ◌∷◌, ◌==◌, if◌then◌else◌, Exception,
  key_error, Result, ok, raise, ◌>>=◌,
}
use a3m.Common.Dict.{Dict, lookup, insert}
use a3m.Common.Int.{ℤ, show_code}

-- `models.Job.STATUS`: the identifiers and their English labels.
abbrev pub status_unknown : ℕ
status_unknown = 0

abbrev pub status_completed_successfully : ℕ
status_completed_successfully = 1

abbrev pub status_executing_commands : ℕ
status_executing_commands = 2

abbrev pub status_failed : ℕ
status_failed = 3

abbrev pub job_status : List (ℕ × String)
job_status =
    (status_unknown, "Unknown")
    ∷ (status_completed_successfully, "Completed successfully")
    ∷ (status_executing_commands, "Executing command(s)")
    ∷ (status_failed, "Failed")
    ∷ []

-- `_invert_job_statuses`
invert_job_statuses : List (ℕ × String) → Dict ℕ → Dict ℕ
invert_job_statuses [] statuses = statuses
invert_job_statuses ((id, label) ∷ rest) statuses =
    invert_job_statuses rest (insert label id statuses)

-- `_STATUSES`
unfoldable pub statuses : Dict ℕ
unfolding invert_job_statuses insert
statuses = invert_job_statuses job_status []

-- A choice of a decision link, and what it compares: JSON's booleans, and the numbers that a
-- processing configuration also holds.
pub data Value : Type 0 where
  flag : Bool → Value
  number : ℕ → Value

pub record Choice : Type 0 where
  pub value : Value
  pub link_id : String

-- `link["config"]`; `manager` is the key `@manager`.
pub record Config : Type 0 where
  pub manager : String
  pub execute : Option String
  pub arguments : Option String
  pub stdout_file : Option String
  pub stderr_file : Option String
  pub filter_subdir : Option String
  pub config_attr : Option String
  pub default : Option Value
  pub choices : List Choice
  -- the translations of each item, if they are there
  pub replacements : Option (List (Option (Dict String)))

-- An exit code's entry, with its status as a label, if it is there (`S` is `Option String`: the schema
-- does not require that of an entry), or decoded (`S` is `ℕ`).
pub record ExitCode (S : Type 0) : Type 0 where
  pub link_id : Option String
  pub job_status : S

-- A link's attributes, before and after `_decode_job_statuses`.
pub record Attrs (S : Type 0) : Type 0 where
  pub config : Config
  pub start : Option Bool
  pub end : Option Bool
  pub exit_codes : Option (Dict (ExitCode S))
  pub fallback_job_status : S
  pub fallback_link_id : Option String
  -- the translations, which `TranslationLabel` wraps
  pub description : Option (Dict String)
  pub group : Option (Dict String)

pub record Link : Type 0 where
  pub id : String
  pub src : Attrs ℕ

pub record Workflow : Type 0 where
  pub links : Dict Link

-- `d[key]`
abbrev pub get_item {ℓ} : {V : Type ℓ} → Option V → Result V
get_item none = raise key_error
get_item (some v) = ok v

-- `d.get(key, default)`
abbrev pub get_or {ℓ} : {V : Type ℓ} → Option V → V → V
get_or none d = d
get_or (some v) d = v

-- `_STATUSES[src["job_status"]]`: the label may be missing, and it may be none of the job model.
unfoldable pub find_status : Option String → Option ℕ
find_status none = none
find_status (some label) = lookup label statuses

unfoldable pub decode_exit_codes : Dict (ExitCode (Option String)) → Result (Dict (ExitCode ℕ))
decode_exit_codes [] = ok []
decode_exit_codes ((code, entry) ∷ rest) = do
  status ← get_item (find_status entry.job_status)
  decoded ← decode_exit_codes rest
  ok ((code, record { link_id = entry.link_id; job_status = status }) ∷ decoded)

unfoldable pub decode_optional :
    Option (Dict (ExitCode (Option String))) → Result (Option (Dict (ExitCode ℕ)))
decode_optional none = ok none
decode_optional (some codes) = do decoded ← decode_exit_codes codes; ok (some decoded)

-- The loop over the replacements in `_decode_translations`.
unfoldable pub decode_items : List (Option (Dict String)) → Result (Unit {0})
decode_items [] = ok tt
decode_items (item ∷ rest) = do translation_dict ← get_item item; decode_items rest

unfoldable pub decode_replacements : Config → Result (Unit {0})
unfolding decode_items
decode_replacements config =
    if config.manager == "linkTaskManagerReplacementDicFromChoice"
    then get_item config.replacements >>= (λ items. decode_items items)
    else ok tt

-- `Link.__init__`, with `_decode_job_statuses` and `_decode_translations`.
unfoldable pub decode_link : String → Attrs (Option String) → Result Link
decode_link id_ attrs = do
  status ← get_item (find_status attrs.fallback_job_status)
  codes ← decode_optional attrs.exit_codes
  description ← get_item attrs.description
  group ← get_item attrs.group
  _ ← decode_replacements attrs.config
  ok (record {
    id = id_;
    src = record {
      config = attrs.config;
      start = attrs.start;
      end = attrs.end;
      exit_codes = codes;
      fallback_job_status = status;
      fallback_link_id = attrs.fallback_link_id;
      description = some description;
      group = some group;
    };
  })

decode_links_into : Dict Link → Dict (Attrs (Option String)) → Result (Dict Link)
decode_links_into links [] = ok links
decode_links_into links ((id_, attrs) ∷ rest) = do
  link ← decode_link id_ attrs
  decode_links_into (insert id_ link links) rest

-- `Workflow.__init__` with `_decode_links`
unfoldable pub decode_links : Dict (Attrs (Option String)) → Result Workflow
unfolding decode_links_into
decode_links src = do links ← decode_links_into [] src; ok (record { links = links })

-- `Workflow.get_link`; an identifier may be `None`, which is no key.
unfoldable pub get_link : Workflow → Option String → Result Link
get_link workflow none = raise key_error
get_link workflow (some link_id) = get_item (lookup link_id workflow.links)

-- `Link.is_initiator`, `Link.is_terminal`
abbrev pub is_initiator : Link → Bool
is_initiator link = get_or link.src.start false

abbrev pub is_terminal : Link → Bool
is_terminal link = get_or link.src.end false

unfoldable pub first_initiator : Dict Link → Option Link
first_initiator [] = none
first_initiator ((id_, link) ∷ rest) = if is_initiator link then some link else first_initiator rest

unfoldable pub get_initiator : Workflow → Option Link
unfolding first_initiator
get_initiator workflow = first_initiator workflow.links

-- `Link.exit_codes`
abbrev pub exit_codes : {S : Type 0} → Attrs S → Dict (ExitCode S)
exit_codes src = get_or src.exit_codes []

-- The `link_id` that `Link.get_next_link` finds, from the entry for the code.
pub next_link_id : Option (ExitCode ℕ) → Link → Result (Option String)
next_link_id (some entry) link = ok entry.link_id
next_link_id none link = elim link.src.fallback_link_id [
  | none ↦ raise key_error
  | some id_ ↦ ok (some id_)
]

-- `Link.get_next_link`
unfoldable pub get_next_link : Workflow → Link → Option ℤ → Result Link
unfolding next_link_id
get_next_link workflow link code = do
  link_id ← next_link_id (lookup (show_code code) (exit_codes link.src)) link
  get_link workflow link_id

status_of : Option (ExitCode ℕ) → Link → ℕ
status_of (some entry) link = entry.job_status
status_of none link = link.src.fallback_job_status

-- `Link.get_status_id`
unfoldable pub get_status_id : Link → Option ℤ → ℕ
unfolding status_of
get_status_id link code = status_of (lookup (show_code code) (exit_codes link.src)) link
