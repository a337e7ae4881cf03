-- ===== src/Fpr/Tests.antt =====
-- A registry of one format with two versions, two commands and three rules, loaded and asked.
use a3m.Common.{
  String, Bool, ◌≡◌, refl, true, false, ◌==◌, none, some, List, [], ◌∷◌, ok, raise, value_error,
  Result, if◌then◌else◌, All,
}
use mathlib.Core.Option as Option
use a3m.Common.Dict.{lookup}
use a3m.Fpr.{
  Value, null, boolean, text, by_uuid, get, put, preservation, Command, Rule, Backend, rules_of,
  get_rules, registry_get_rules, with_fallback, get_file_rules, get_rule_by_id,
  get_format_version_by_id,
}
use a3m.Fpr.Fields.{
  Item, Library, field, item_of, to_uuid, uuid_or_none, to_datetime, command_usage_of,
}
use a3m.Fpr.Loading.{
  load_model, load_group, load_format, load_version, load_tool, load_command, command_id,
  link_command, rule_links, add_rule, load_rule, load, output_format_of, empty_backend,
}
use a3m.Fpr.Objects.{IsClosed}
use a3m.Fpr.Closed.{load-IsClosed}
use a3m.Fpr.Rules.{get_file_rules-Serves, Serves, IsIn, InService, IsFor}

abbrev parse_uuid : String → Result String
parse_uuid s = if s == "bad" then raise value_error else ok s

abbrev library : Library
library = record { parse_uuid = parse_uuid; strptime = λ date fmt. some date; casefold = λ s. s }

abbrev version : String → Item
version uuid = record {
  model = "fpr.formatversion";
  fields =
      ("uuid", text uuid)
      ∷ ("replaces", null)
      ∷ ("lastmodified", text "d")
      ∷ ("enabled", boolean true)
      ∷ ("access_format", boolean false)
      ∷ ("preservation_format", boolean true)
      ∷ ("version", text "1")
      ∷ ("slug", text "s")
      ∷ ("pronom_id", text "fmt/1")
      ∷ ("description", text "v")
      ∷ ("format", text "f")
      ∷ [];
}

abbrev command : String → Value → Item
command uuid verification = record {
  model = "fpr.fpcommand";
  fields =
      ("uuid", text uuid)
      ∷ ("replaces", null)
      ∷ ("lastmodified", text "d")
      ∷ ("enabled", boolean true)
      ∷ ("output_location", text "")
      ∷ ("command", text "convert")
      ∷ ("command_usage", text "normalization")
      ∷ ("script_type", text "command")
      ∷ ("description", text "Converts")
      ∷ ("tool", text "t")
      ∷ ("output_format", text "")
      ∷ ("verification_command", verification)
      ∷ ("event_detail_command", null)
      ∷ [];
}

abbrev rule : (uuid purpose format command : String) → Bool → Value → Item
rule uuid purpose format command enabled replaces = record {
  model = "fpr.fprule";
  fields =
      ("uuid", text uuid)
      ∷ ("replaces", replaces)
      ∷ ("lastmodified", text "d")
      ∷ ("enabled", boolean enabled)
      ∷ ("purpose", text purpose)
      ∷ ("format", text format)
      ∷ ("command", text command)
      ∷ [];
}

-- The rule r3 replaces r1, and r4 has no command; the command c1 names c2 as its verification.
abbrev data_ : List Item
data_ =
    record {
      model = "fpr.formatgroup";
      fields = ("uuid", text "g") ∷ ("slug", text "audio") ∷ ("description", text "Audio") ∷ [];
    }
    ∷ record {
      model = "fpr.format";
      fields =
          ("uuid", text "f")
          ∷ ("slug", text "wav")
          ∷ ("group", text "g")
          ∷ ("description", text "Wave")
          ∷ [];
    }
    ∷ version "v1"
    ∷ version "v2"
    ∷ record {
      model = "fpr.fptool";
      fields =
          ("uuid", text "t")
          ∷ ("slug", text "tool")
          ∷ ("version", text "1")
          ∷ ("description", text "Tool")
          ∷ [];
    }
    ∷ command "c1" (text "c2")
    ∷ command "c2" null
    ∷ rule "r1" "preservation" "v1" "c1" true null
    ∷ rule "r2" "default_access" "v1" "c2" true null
    ∷ rule "r3" "preservation" "v1" "c2" true (text "r1")
    ∷ rule "r4" "preservation" "v1" "missing" true null
    ∷ rule "r5" "preservation" "v2" "c1" false null
    ∷ []

abbrev got : Result Backend → Backend
got (ok backend) = backend
got (raise e) = empty_backend

abbrev backend : Backend
backend = got (load library data_)

program : Unit {0}
unfolding lookup get put field item_of to_uuid uuid_or_none to_datetime load_model load_group
    load_format load_version load_tool load_command command_id link_command rule_links add_rule
    load_rule load command_usage_of output_format_of rules_of get_rules registry_get_rules
    with_fallback get_file_rules get_format_version_by_id
program = tt

loaded : load library data_ ≡ ok backend
unfolding program
loaded = refl

-- The verification command of c1 is lost.
lost :
    Option.map (λ (c : Command). c.verification_command) (get (by_uuid "c1") backend.commands)
    ≡ some none
unfolding program
lost = refl

abbrev r3 : Rule
r3 = record {
  id = "r3";
  replaces = some "r1";
  purpose = preservation;
  command = "c2";
  format = "v1";
  last_modified = "d";
  enabled = true;
}

abbrev versions : List String
versions = "v1" ∷ "v2" ∷ []

preservation_rules : get_file_rules parse_uuid backend versions preservation false ≡ ok (r3 ∷ [])
unfolding program
preservation_rules = refl

-- A rule that is replaced, or disabled, is found by its identifier still.
replaced_found : Option.map (λ (r : Rule). r.enabled) (get_rule_by_id backend "r5") ≡ some false
unfolding program
replaced_found = refl

load-IsClosed_example : IsClosed backend
load-IsClosed_example = load-IsClosed library data_ backend loaded

get_file_rules-Serves_example :
    All (Serves parse_uuid backend versions preservation false) (r3 ∷ [])
    × ((version id : String) (rule : Rule)
        → IsIn version versions
        → parse_uuid version ≡ ok id
        → InService backend.replaced_rules backend.rules rule
        → IsFor id preservation rule
        → IsIn rule (r3 ∷ []))
get_file_rules-Serves_example =
    get_file_rules-Serves parse_uuid backend versions preservation false (r3 ∷ [])
      preservation_rules
