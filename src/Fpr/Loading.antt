-- ===== src/Fpr/Loading.antt =====
-- `JSONBackend._load` of a3m/fpr/registry.py, after `json.loads`. `uuid.UUID` of a text, `datetime.strptime`
-- and `str.casefold` are parameters.
use a3m.Common.{
  String, Bool, true, false, ◌==◌, Option, none, some, List, [], ◌∷◌, if◌then◌else◌, key_error,
  Result, ok, raise, ◌>>=◌,
}
use a3m.Common.Dict.{Dict}
use a3m.Fpr.{Value, by_uuid, by_value, Keyed, get, put, FormatVersion, Command, Rule, Backend}
use a3m.Fpr.Fields.{
  Item, Library, field, truth, item_of, purpose_of, script_type_of, replaced_by, pairs, to_uuid,
  uuid_or_none, to_datetime, command_usage_of,
}

abbrev pub empty_backend : Backend
empty_backend = record {
  formats = [];
  groups = [];
  versions = [];
  commands = [];
  rules = [];
  tools = [];
  replaced_versions = [];
  replaced_commands = [];
  replaced_rules = [];
}

module _ (library : Library) where
  -- One loop over the data: every item's UUID is read, and the items of the model are added.
  abbrev pub add_if : Bool → Result Backend → Backend → Result Backend
  add_if true added backend = added
  add_if false added backend = ok backend

  unfoldable pub load_model :
      (String → Dict Value → Backend → Result Backend)
      → String
      → List Item
      → Backend
      → Result Backend
  unfolding field to_uuid
  load_model add model [] backend = ok backend
  load_model add model (item ∷ data_) backend = do
    uuid ← field "uuid" item.fields
    id ← to_uuid library uuid
    added ← add_if (item.model == model) (add id item.fields backend) backend
    load_model add model data_ added

  unfoldable pub load_group : String → Dict Value → Backend → Result Backend
  load_group id fields backend = do
    slug ← field "slug" fields
    description ← field "description" fields
    ok (record backend {
      groups =
          put (by_uuid id) (record { id = id; slug = slug; description = description })
            backend.groups;
    })

  unfoldable pub load_format : String → Dict Value → Backend → Result Backend
  unfolding field to_uuid item_of
  load_format id fields backend = do
    slug ← field "slug" fields
    description ← field "description" fields
    group ← field "group" fields
    group_id ← to_uuid library group
    found ← item_of (by_uuid group_id) backend.groups
    ok (record backend {
      formats =
          put (by_uuid id)
            (record { id = id; group = group_id; slug = slug; description = description })
            backend.formats;
    })

  unfoldable pub load_version : String → Dict Value → Backend → Result Backend
  unfolding field to_uuid item_of uuid_or_none to_datetime
  load_version id fields backend = do
    replaces ← field "replaces" fields
    replaced ← uuid_or_none library replaces
    lastmodified ← field "lastmodified" fields
    last_modified ← to_datetime library lastmodified
    enabled ← field "enabled" fields
    access_format ← field "access_format" fields
    preservation_format ← field "preservation_format" fields
    version ← field "version" fields
    slug ← field "slug" fields
    pronom_id ← field "pronom_id" fields
    description ← field "description" fields
    format ← field "format" fields
    format_id ← to_uuid library format
    found ← item_of (by_uuid format_id) backend.formats
    ok (record backend {
      versions =
          put (by_uuid id)
            (record {
              id = id;
              replaces = replaced;
              format = format_id;
              last_modified = last_modified;
              enabled = truth enabled;
              access_format = access_format;
              preservation_format = preservation_format;
              version = version;
              slug = slug;
              pronom_id = pronom_id;
              description = description;
            })
            backend.versions;
    })

  unfoldable pub load_tool : String → Dict Value → Backend → Result Backend
  unfolding field
  load_tool id fields backend = do
    slug ← field "slug" fields
    description ← field "description" fields
    version ← field "version" fields
    ok (record backend {
      tools =
          put (by_uuid id)
            (record { id = id; slug = slug; version = version; description = description })
            backend.tools;
    })

  -- `self.versions.get(...)`, as its UUID; the attribute is set where the field is not empty.
  abbrev pub id_if {ℓ} : {V : Type ℓ} → String → Option V → Option String
  id_if id none = none
  id_if id (some value) = some id

  unfoldable pub output_format_of : Keyed FormatVersion → Value → Result (Option (Option String))
  unfolding to_uuid get
  output_format_of versions value =
      if truth value
      then to_uuid library value >>= (λ id. ok (some (id_if id (get (by_uuid id) versions))))
      else ok none

  unfoldable pub load_command : String → Dict Value → Backend → Result Backend
  unfolding field to_uuid item_of uuid_or_none to_datetime command_usage_of output_format_of
  load_command id fields backend = do
    replaces ← field "replaces" fields
    replaced ← uuid_or_none library replaces
    enabled ← field "enabled" fields
    lastmodified ← field "lastmodified" fields
    last_modified ← to_datetime library lastmodified
    output_location ← field "output_location" fields
    command ← field "command" fields
    usage ← field "command_usage" fields
    command_usage ← command_usage_of library usage
    type_ ← field "script_type" fields
    script_type ← script_type_of type_
    description ← field "description" fields
    tool ← field "tool" fields
    tool_id ← to_uuid library tool
    found ← item_of (by_uuid tool_id) backend.tools
    output ← field "output_format" fields
    output_format ← output_format_of backend.versions output
    ok (record backend {
      commands =
          put (by_uuid id)
            (record {
              id = id;
              replaces = replaced;
              last_modified = last_modified;
              enabled = truth enabled;
              output_location = output_location;
              command_usage = command_usage;
              command = command;
              script_type = script_type;
              description = description;
              tool = tool_id;
              output_format = output_format;
              verification_command = none;
              event_detail_command = none;
            })
            backend.commands;
    })

  -- `self.commands.get(value)`, as its UUID: the value is no `uuid.UUID`.
  unfoldable pub command_id : Value → Keyed Command → Option String
  unfolding get
  command_id value commands = elim (get (by_value value) commands) [
    | none ↦ none
    | some command ↦ some command.id
  ]

  unfoldable pub link_command : String → Dict Value → Backend → Result Backend
  unfolding field item_of command_id
  link_command id fields backend = do
    command ← item_of (by_uuid id) backend.commands
    verification ← field "verification_command" fields
    event_detail ← field "event_detail_command" fields
    ok (record backend {
      commands =
          put (by_uuid id)
            (record command {
              verification_command = command_id verification backend.commands;
              event_detail_command = command_id event_detail backend.commands;
            })
            backend.commands;
    })

  -- The format version and the command of a rule.
  unfoldable pub rule_links : Dict Value → Backend → Result (String × String)
  unfolding field to_uuid item_of
  rule_links fields backend = do
    format ← field "format" fields
    format_id ← to_uuid library format
    version ← item_of (by_uuid format_id) backend.versions
    command ← field "command" fields
    command_id_ ← to_uuid library command
    found ← item_of (by_uuid command_id_) backend.commands
    ok (format_id, command_id_)

  -- A rule whose version or command is missing (`KeyError`) is left out.
  unfoldable pub add_rule :
      (String × String → Rule) → Result (String × String) → Backend → Result Backend
  add_rule make (ok links) backend =
      ok (record backend { rules = put (by_uuid (make links).id) (make links) backend.rules })
  add_rule make (raise key_error) backend = ok backend
  add_rule make (raise e) backend = raise e

  unfoldable pub load_rule : String → Dict Value → Backend → Result Backend
  unfolding field uuid_or_none to_datetime rule_links add_rule
  load_rule id fields backend = do
    lastmodified ← field "lastmodified" fields
    last_modified ← to_datetime library lastmodified
    replaces ← field "replaces" fields
    replaced ← uuid_or_none library replaces
    enabled ← field "enabled" fields
    purpose_ ← field "purpose" fields
    purpose ← purpose_of purpose_
    add_rule
        (λ links. record {
          id = id;
          replaces = replaced;
          purpose = purpose;
          command = links.1;
          format = links.0;
          last_modified = last_modified;
          enabled = truth enabled;
        })
        (rule_links fields backend) backend

  abbrev pub set_replaced_versions : Backend → Backend
  set_replaced_versions backend = record backend {
    replaced_versions =
        replaced_by (pairs (λ (v : FormatVersion). (v.replaces, v.id)) backend.versions) [];
  }

  abbrev pub set_replaced_commands : Backend → Backend
  set_replaced_commands backend = record backend {
    replaced_commands =
        replaced_by (pairs (λ (c : Command). (c.replaces, c.id)) backend.commands) [];
  }

  abbrev pub set_replaced_rules : Backend → Backend
  set_replaced_rules backend = record backend {
    replaced_rules = replaced_by (pairs (λ (r : Rule). (r.replaces, r.id)) backend.rules) [];
  }

  -- `_load`
  unfoldable pub load : List Item → Result Backend
  load data_ = do
    grouped ← load_model load_group "fpr.formatgroup" data_ empty_backend
    formatted ← load_model load_format "fpr.format" data_ grouped
    versioned ← load_model load_version "fpr.formatversion" data_ formatted
    tooled ← load_model load_tool "fpr.fptool" data_ (set_replaced_versions versioned)
    commanded ← load_model load_command "fpr.fpcommand" data_ tooled
    linked ← load_model link_command "fpr.fpcommand" data_ (set_replaced_commands commanded)
    ruled ← load_model load_rule "fpr.fprule" data_ linked
    ok (set_replaced_rules ruled)
