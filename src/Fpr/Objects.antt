-- ===== src/Fpr/Objects.antt =====
-- What a closed registry of a3m/fpr/registry.py is, and that an object more leaves it closed.
use a3m.Common.{String, ◌≡◌, true, Option, none, some}
use a3m.Fpr.{
  Keyed, by_uuid, put, is_in, FormatGroup, Format, FormatVersion, Tool, Command, Rule, Backend,
}
use a3m.Fpr.Loading.{empty_backend}
use a3m.Fpr.Keyed.{AllValues, KeysUuids, AllValues-put, AllValues-map, is_in-put, KeysUuids-put}

-- The output format of a command, where it has one, is a version of the registry: the attribute is
-- missing, or `None`, or the UUID of a version that is there.
abbrev pub OutputLoaded : Option (Option String) → Keyed FormatVersion → Type 0
OutputLoaded none versions = Unit
OutputLoaded (some none) versions = Unit
OutputLoaded (some (some id)) versions = is_in (by_uuid id) versions ≡ true

OutputLoaded-put :
    (output : Option (Option String)) (id : String) (version : FormatVersion)
    (versions : Keyed FormatVersion)
    → OutputLoaded output versions
    → OutputLoaded output (put (by_uuid id) version versions)
OutputLoaded-put none id version versions h = tt
OutputLoaded-put (some none) id version versions h = tt
OutputLoaded-put (some (some other)) id version versions h =
    is_in-put (by_uuid other) (by_uuid id) version versions h

-- The group of each format, the format of each version, the tool and the output format of each command,
-- and the version and the command of each rule are in the registry, and no command has a verification
-- or an event detail command. What an object replaces need not be there.
pub record IsClosed (backend : Backend) : Type 0 where
  pub formats :
      AllValues (λ (f : Format). is_in (by_uuid f.group) backend.groups ≡ true) backend.formats
  pub versions :
      AllValues
        (λ (v : FormatVersion). is_in (by_uuid v.format) backend.formats ≡ true)
        backend.versions
  pub commands :
      AllValues (λ (c : Command). is_in (by_uuid c.tool) backend.tools ≡ true) backend.commands
  pub unlinked :
      AllValues
        (λ (c : Command). (c.verification_command ≡ none) × (c.event_detail_command ≡ none))
        backend.commands
  pub outputs :
      AllValues (λ (c : Command). OutputLoaded c.output_format backend.versions) backend.commands
  pub keyed : KeysUuids backend.commands
  pub rules :
      AllValues
        (λ (r : Rule).
          (is_in (by_uuid r.format) backend.versions ≡ true)
          × (is_in (by_uuid r.command) backend.commands ≡ true))
        backend.rules

pub empty-IsClosed : IsClosed empty_backend
empty-IsClosed = record {
  formats = tt;
  versions = tt;
  commands = tt;
  unlinked = tt;
  outputs = tt;
  keyed = tt;
  rules = tt;
}

-- The registry with one object more, or in the place of another.
pub group-IsClosed :
    (id : String) (group : FormatGroup) (b : Backend)
    → IsClosed b
    → IsClosed (record b { groups = put (by_uuid id) group b.groups })
group-IsClosed id group b closed = record {
  formats =
      AllValues-map _ _ b.formats (λ f h. is_in-put (by_uuid f.group) (by_uuid id) group b.groups h)
        closed.formats;
  versions = closed.versions;
  commands = closed.commands;
  unlinked = closed.unlinked;
  outputs = closed.outputs;
  keyed = closed.keyed;
  rules = closed.rules;
}

pub format-IsClosed :
    (id : String) (format : Format) (b : Backend)
    → is_in (by_uuid format.group) b.groups ≡ true
    → IsClosed b
    → IsClosed (record b { formats = put (by_uuid id) format b.formats })
format-IsClosed id format b h closed = record {
  formats =
      AllValues-put (λ (f : Format). is_in (by_uuid f.group) b.groups ≡ true) (by_uuid id) format
        b.formats h closed.formats;
  versions =
      AllValues-map _ _ b.versions
        (λ v h. is_in-put (by_uuid v.format) (by_uuid id) format b.formats h) closed.versions;
  commands = closed.commands;
  unlinked = closed.unlinked;
  outputs = closed.outputs;
  keyed = closed.keyed;
  rules = closed.rules;
}

pub version-IsClosed :
    (id : String) (version : FormatVersion) (b : Backend)
    → is_in (by_uuid version.format) b.formats ≡ true
    → IsClosed b
    → IsClosed (record b { versions = put (by_uuid id) version b.versions })
version-IsClosed id version b h closed = record {
  formats = closed.formats;
  versions =
      AllValues-put (λ (v : FormatVersion). is_in (by_uuid v.format) b.formats ≡ true) (by_uuid id)
        version b.versions h closed.versions;
  commands = closed.commands;
  unlinked = closed.unlinked;
  outputs =
      AllValues-map _ _ b.commands (λ c h. OutputLoaded-put c.output_format id version b.versions h)
        closed.outputs;
  keyed = closed.keyed;
  rules =
      AllValues-map _ _ b.rules
        (λ r h. (is_in-put (by_uuid r.format) (by_uuid id) version b.versions h.0, h.1))
        closed.rules;
}

pub tool-IsClosed :
    (id : String) (tool : Tool) (b : Backend)
    → IsClosed b
    → IsClosed (record b { tools = put (by_uuid id) tool b.tools })
tool-IsClosed id tool b closed = record {
  formats = closed.formats;
  versions = closed.versions;
  commands =
      AllValues-map _ _ b.commands (λ c h. is_in-put (by_uuid c.tool) (by_uuid id) tool b.tools h)
        closed.commands;
  unlinked = closed.unlinked;
  outputs = closed.outputs;
  keyed = closed.keyed;
  rules = closed.rules;
}

pub command-IsClosed :
    (id : String) (command : Command) (b : Backend)
    → is_in (by_uuid command.tool) b.tools ≡ true
    → (command.verification_command ≡ none) × (command.event_detail_command ≡ none)
    → OutputLoaded command.output_format b.versions
    → IsClosed b
    → IsClosed (record b { commands = put (by_uuid id) command b.commands })
command-IsClosed id command b h u o closed = record {
  formats = closed.formats;
  versions = closed.versions;
  commands =
      AllValues-put (λ (c : Command). is_in (by_uuid c.tool) b.tools ≡ true) (by_uuid id) command
        b.commands h closed.commands;
  unlinked =
      AllValues-put
        (λ (c : Command). (c.verification_command ≡ none) × (c.event_detail_command ≡ none))
        (by_uuid id) command b.commands u closed.unlinked;
  outputs =
      AllValues-put (λ (c : Command). OutputLoaded c.output_format b.versions) (by_uuid id) command
        b.commands o closed.outputs;
  keyed = KeysUuids-put id command b.commands closed.keyed;
  rules =
      AllValues-map _ _ b.rules
        (λ r h. (h.0, is_in-put (by_uuid r.command) (by_uuid id) command b.commands h.1))
        closed.rules;
}

pub rule-IsClosed :
    (id : String) (rule : Rule) (b : Backend)
    → (is_in (by_uuid rule.format) b.versions ≡ true)
      × (is_in (by_uuid rule.command) b.commands ≡ true)
    → IsClosed b
    → IsClosed (record b { rules = put (by_uuid id) rule b.rules })
rule-IsClosed id rule b h closed = record {
  formats = closed.formats;
  versions = closed.versions;
  commands = closed.commands;
  unlinked = closed.unlinked;
  outputs = closed.outputs;
  keyed = closed.keyed;
  rules =
      AllValues-put
        (λ (r : Rule).
          (is_in (by_uuid r.format) b.versions ≡ true)
          × (is_in (by_uuid r.command) b.commands ≡ true))
        (by_uuid id) rule b.rules h closed.rules;
}
