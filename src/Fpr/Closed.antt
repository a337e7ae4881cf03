-- ===== src/Fpr/Closed.antt =====
-- The objects that `JSONBackend._load` of a3m/fpr/registry.py makes refer to objects that it made.
use a3m.Common.{
  String, ◌≡◌, refl, Bool, true, false, Option, none, some, inl, inr, Bool-cases, List, [], ◌∷◌,
  ◌==◌, key_error, value_error, type_error, attribute_error, runtime_error, stop_iteration,
  queue_full, does_not_exist, index_error, rights_row, other_error, Result, ok, raise, ◌>>=◌, sym,
  raise-ne-ok, ok-injective, bind_ok,
}
use mathlib.Core.Path.{subst}
use a3m.Common.Dict.{Dict}
use a3m.Fpr.{Value, by_uuid, Keyed, is_in, get, put, FormatVersion, Command, Rule, Backend}
use a3m.Fpr.Fields.{
  Item, Library, truth, field, item_of, to_uuid, uuid_or_none, to_datetime, command_usage_of,
  script_type_of, purpose_of,
}
use a3m.Fpr.Loading.{
  load_model, load_group, load_format, load_version, load_tool, load_command, command_id,
  link_command, rule_links, add_rule, load_rule, load, empty_backend, add_if, set_replaced_versions,
  set_replaced_commands, output_format_of, id_if,
}
use a3m.Fpr.Keyed.{AllValues-get, get-by_value, get-item_of, is_in-get, is_in-item_of}
use a3m.Fpr.Objects.{
  OutputLoaded, IsClosed, empty-IsClosed, group-IsClosed, format-IsClosed, version-IsClosed,
  tool-IsClosed, command-IsClosed, rule-IsClosed,
}

-- An operation that keeps the registry closed when it returns.
abbrev Closes : (Backend → Result Backend) → Type 0
Closes operation = (b b' : Backend) → IsClosed b → operation b ≡ ok b' → IsClosed b'

module _ (library : Library) where
  load_model-Closes :
      (add : String → Dict Value → Backend → Result Backend) (model : String) (data_ : List Item)
      → ((id : String) (fields : Dict Value) → Closes (add id fields))
      → Closes (load_model library add model data_)
  unfolding load_model
  load_model-Closes add model [] h b b' closed e = subst IsClosed (ok-injective e) closed
  load_model-Closes add model (item ∷ data_) h b b' closed e =
      let (uuid, _, e1) = bind_ok (field "uuid" item.fields) _ e in
      let (id, _, e2) = bind_ok (to_uuid library uuid) _ e1 in
      let (added, q, e3) =
        bind_ok (add_if library (item.model == model) (add id item.fields b) b) _ e2 in
      load_model-Closes add model data_ h added b'
        (closed_if (item.model == model) (add id item.fields b) b added
          (λ q'. h id item.fields b added closed q') closed q)
        e3
    where
      closed_if :
          (test : Bool) (called : Result Backend) (b added : Backend)
          → (called ≡ ok added → IsClosed added)
          → IsClosed b
          → add_if library test called b ≡ ok added
          → IsClosed added
      closed_if true called b added f closed q = f q
      closed_if false called b added f closed q = subst IsClosed (ok-injective q) closed

  load_group-Closes : (id : String) (fields : Dict Value) → Closes (load_group library id fields)
  unfolding load_group
  load_group-Closes id fields b b' closed e =
      let (slug, _, e1) = bind_ok (field "slug" fields) _ e in
      let (description, _, e2) = bind_ok (field "description" fields) _ e1 in
      subst IsClosed (ok-injective e2) (group-IsClosed id _ b closed)

  load_format-Closes : (id : String) (fields : Dict Value) → Closes (load_format library id fields)
  unfolding load_format
  load_format-Closes id fields b b' closed e =
      let (slug, _, e1) = bind_ok (field "slug" fields) _ e in
      let (description, _, e2) = bind_ok (field "description" fields) _ e1 in
      let (group, _, e3) = bind_ok (field "group" fields) _ e2 in
      let (group_id, _, e4) = bind_ok (to_uuid library group) _ e3 in
      let (found, q, e5) = bind_ok (item_of (by_uuid group_id) b.groups) _ e4 in
      subst IsClosed (ok-injective e5)
        (format-IsClosed id _ b (is_in-item_of (by_uuid group_id) found b.groups q) closed)

  load_version-Closes :
      (id : String) (fields : Dict Value) → Closes (load_version library id fields)
  unfolding load_version
  load_version-Closes id fields b b' closed e =
      let (replaces, _, e1) = bind_ok (field "replaces" fields) _ e in
      let (replaced, _, e2) = bind_ok (uuid_or_none library replaces) _ e1 in
      let (lastmodified, _, e3) = bind_ok (field "lastmodified" fields) _ e2 in
      let (last_modified, _, e4) = bind_ok (to_datetime library lastmodified) _ e3 in
      let (enabled, _, e5) = bind_ok (field "enabled" fields) _ e4 in
      let (access_format, _, e6) = bind_ok (field "access_format" fields) _ e5 in
      let (preservation_format, _, e7) = bind_ok (field "preservation_format" fields) _ e6 in
      let (version, _, e8) = bind_ok (field "version" fields) _ e7 in
      let (slug, _, e9) = bind_ok (field "slug" fields) _ e8 in
      let (pronom_id, _, e10) = bind_ok (field "pronom_id" fields) _ e9 in
      let (description, _, e11) = bind_ok (field "description" fields) _ e10 in
      let (format, _, e12) = bind_ok (field "format" fields) _ e11 in
      let (format_id, _, e13) = bind_ok (to_uuid library format) _ e12 in
      let (found, q, e14) = bind_ok (item_of (by_uuid format_id) b.formats) _ e13 in
      subst IsClosed (ok-injective e14)
        (version-IsClosed id _ b (is_in-item_of (by_uuid format_id) found b.formats q) closed)

  load_tool-Closes : (id : String) (fields : Dict Value) → Closes (load_tool library id fields)
  unfolding load_tool
  load_tool-Closes id fields b b' closed e =
      let (slug, _, e1) = bind_ok (field "slug" fields) _ e in
      let (description, _, e2) = bind_ok (field "description" fields) _ e1 in
      let (version, _, e3) = bind_ok (field "version" fields) _ e2 in
      subst IsClosed (ok-injective e3) (tool-IsClosed id _ b closed)

  output_format_of-OutputLoaded :
      (versions : Keyed FormatVersion) (value : Value) (output : Option (Option String))
      → output_format_of library versions value ≡ ok output
      → OutputLoaded output versions
  unfolding output_format_of
  output_format_of-OutputLoaded versions value output e = elim (Bool-cases (truth value)) [
    | inl q ↦
        let (id, _, e1) = bind_ok (to_uuid library value) _ (rw q at e) in
        subst (λ o. OutputLoaded o versions) (ok-injective e1)
          (loaded id (get (by_uuid id) versions) refl)
    | inr q ↦ subst (λ o. OutputLoaded o versions) (ok-injective (rw q at e)) tt
  ]
    where
      loaded :
          (id : String) (found : Option FormatVersion)
          → get (by_uuid id) versions ≡ found
          → OutputLoaded (some (id_if library id found)) versions
      loaded id none q = tt
      loaded id (some version) q = is_in-get (by_uuid id) version versions q

  -- The command with its output format, once its other fields are read.
  command_made-Closes :
      (id : String) (make : Option (Option String) → Command) (output : Value) (b b' : Backend)
      → ((o : Option (Option String))
          → (is_in (by_uuid (make o).tool) b.tools ≡ true)
            × ((make o).verification_command ≡ none)
            × ((make o).event_detail_command ≡ none)
            × ((make o).output_format ≡ o))
      → IsClosed b
      → (output_format_of library b.versions output
          >>= (λ o. ok (record b { commands = put (by_uuid id) (make o) b.commands })))
        ≡ ok b'
      → IsClosed b'
  command_made-Closes id make output b b' h closed e =
      let (o, q, e1) = bind_ok (output_format_of library b.versions output) _ e in
      let (tool, verification, event_detail, same) = h o in
      subst IsClosed (ok-injective e1) (
        command-IsClosed id (make o) b tool (verification, event_detail)
          (subst (λ x. OutputLoaded x b.versions) (sym same)
            (output_format_of-OutputLoaded b.versions output o q))
          closed)

  load_command-Closes :
      (id : String) (fields : Dict Value) → Closes (load_command library id fields)
  unfolding load_command
  load_command-Closes id fields b b' closed e =
      let (replaces, _, e1) = bind_ok (field "replaces" fields) _ e in
      let (replaced, _, e2) = bind_ok (uuid_or_none library replaces) _ e1 in
      let (enabled, _, e3) = bind_ok (field "enabled" fields) _ e2 in
      let (lastmodified, _, e4) = bind_ok (field "lastmodified" fields) _ e3 in
      let (last_modified, _, e5) = bind_ok (to_datetime library lastmodified) _ e4 in
      let (output_location, _, e6) = bind_ok (field "output_location" fields) _ e5 in
      let (command, _, e7) = bind_ok (field "command" fields) _ e6 in
      let (usage, _, e8) = bind_ok (field "command_usage" fields) _ e7 in
      let (command_usage, _, e9) = bind_ok (command_usage_of library usage) _ e8 in
      let (type_, _, e10) = bind_ok (field "script_type" fields) _ e9 in
      let (script_type, _, e11) = bind_ok (script_type_of type_) _ e10 in
      let (description, _, e12) = bind_ok (field "description" fields) _ e11 in
      let (tool, _, e13) = bind_ok (field "tool" fields) _ e12 in
      let (tool_id, _, e14) = bind_ok (to_uuid library tool) _ e13 in
      let (found, q, e15) = bind_ok (item_of (by_uuid tool_id) b.tools) _ e14 in
      let (output, _, e16) = bind_ok (field "output_format" fields) _ e15 in
      command_made-Closes id _ output b b'
        (λ o. (is_in-item_of (by_uuid tool_id) found b.tools q, refl, refl, refl)) closed e16

  -- A value of a field is no key of the commands.
  command_id-none :
      (value : Value) (b : Backend) → IsClosed b → command_id library value b.commands ≡ none
  unfolding command_id
  command_id-none value b closed = rw (get-by_value value b.commands closed.keyed, command_id) refl

  link_command-Closes :
      (id : String) (fields : Dict Value) → Closes (link_command library id fields)
  unfolding link_command
  link_command-Closes id fields b b' closed e =
      let (command, q, e1) = bind_ok (item_of (by_uuid id) b.commands) _ e in
      let there = get-item_of (by_uuid id) command b.commands q in
      let (verification, _, e2) = bind_ok (field "verification_command" fields) _ e1 in
      let (event_detail, _, e3) = bind_ok (field "event_detail_command" fields) _ e2 in
      subst IsClosed (ok-injective e3) (
        command-IsClosed id _ b
          (AllValues-get (λ (c : Command). is_in (by_uuid c.tool) b.tools ≡ true) (by_uuid id)
            command b.commands closed.commands there)
          (command_id-none verification b closed, command_id-none event_detail b closed)
          (AllValues-get (λ (c : Command). OutputLoaded c.output_format b.versions) (by_uuid id)
            command b.commands closed.outputs there)
          closed)

  -- The version and the command of a rule are there.
  rule_links-is_in :
      (fields : Dict Value) (b : Backend) (links : String × String)
      → rule_links library fields b ≡ ok links
      → (is_in (by_uuid links.0) b.versions ≡ true) × (is_in (by_uuid links.1) b.commands ≡ true)
  unfolding rule_links
  rule_links-is_in fields b links e =
      let (format, _, e1) = bind_ok (field "format" fields) _ e in
      let (format_id, _, e2) = bind_ok (to_uuid library format) _ e1 in
      let (version, q, e3) = bind_ok (item_of (by_uuid format_id) b.versions) _ e2 in
      let (command, _, e4) = bind_ok (field "command" fields) _ e3 in
      let (id, _, e5) = bind_ok (to_uuid library command) _ e4 in
      let (found, q', e6) = bind_ok (item_of (by_uuid id) b.commands) _ e5 in
      subst
        (λ (l : String × String).
          (is_in (by_uuid l.0) b.versions ≡ true) × (is_in (by_uuid l.1) b.commands ≡ true))
        (ok-injective e6)
        (
          is_in-item_of (by_uuid format_id) version b.versions q,
          is_in-item_of (by_uuid id) found b.commands q',
        )

  add_rule-Closes :
      (make : String × String → Rule) (links : Result (String × String)) (b b' : Backend)
      → ((l : String × String)
          → links ≡ ok l
          → (is_in (by_uuid (make l).format) b.versions ≡ true)
            × (is_in (by_uuid (make l).command) b.commands ≡ true))
      → IsClosed b
      → add_rule library make links b ≡ ok b'
      → IsClosed b'
  unfolding add_rule
  add_rule-Closes make (ok links) b b' h closed e =
      subst IsClosed (ok-injective e)
        (rule-IsClosed (make links).id (make links) b (h links refl) closed)
  add_rule-Closes make (raise key_error) b b' h closed e = subst IsClosed (ok-injective e) closed
  add_rule-Closes make (raise value_error) b b' h closed e = absurd (raise-ne-ok e)
  add_rule-Closes make (raise type_error) b b' h closed e = absurd (raise-ne-ok e)
  add_rule-Closes make (raise attribute_error) b b' h closed e = absurd (raise-ne-ok e)
  add_rule-Closes make (raise runtime_error) b b' h closed e = absurd (raise-ne-ok e)
  add_rule-Closes make (raise stop_iteration) b b' h closed e = absurd (raise-ne-ok e)
  add_rule-Closes make (raise queue_full) b b' h closed e = absurd (raise-ne-ok e)
  add_rule-Closes make (raise does_not_exist) b b' h closed e = absurd (raise-ne-ok e)
  add_rule-Closes make (raise index_error) b b' h closed e = absurd (raise-ne-ok e)
  add_rule-Closes make (raise rights_row) b b' h closed e = absurd (raise-ne-ok e)
  add_rule-Closes make (raise other_error) b b' h closed e = absurd (raise-ne-ok e)

  load_rule-Closes : (id : String) (fields : Dict Value) → Closes (load_rule library id fields)
  unfolding load_rule
  load_rule-Closes id fields b b' closed e =
      let (lastmodified, _, e1) = bind_ok (field "lastmodified" fields) _ e in
      let (last_modified, _, e2) = bind_ok (to_datetime library lastmodified) _ e1 in
      let (replaces, _, e3) = bind_ok (field "replaces" fields) _ e2 in
      let (replaced, _, e4) = bind_ok (uuid_or_none library replaces) _ e3 in
      let (enabled, _, e5) = bind_ok (field "enabled" fields) _ e4 in
      let (purpose_, _, e6) = bind_ok (field "purpose" fields) _ e5 in
      let (purpose, _, e7) = bind_ok (purpose_of purpose_) _ e6 in
      add_rule-Closes _ (rule_links library fields b) b b' (λ l q. rule_links-is_in fields b l q)
        closed e7

  replaced-IsClosed :
      (versions commands rules : Keyed String) (b : Backend)
      → IsClosed b
      → IsClosed (record b {
        replaced_versions = versions;
        replaced_commands = commands;
        replaced_rules = rules;
      })
  replaced-IsClosed versions commands rules b h = record {
    formats = h.formats;
    versions = h.versions;
    commands = h.commands;
    unlinked = h.unlinked;
    outputs = h.outputs;
    keyed = h.keyed;
    rules = h.rules;
  }

  -- The registry that is loaded is closed: each format's group, each version's format, each command's tool
  -- and its output format, where it has one, and each rule's version and command were loaded; nothing is
  -- said of what an object replaces. No command has a verification or an event detail
  -- command, whatever the data say, since they are looked up by text among UUIDs.
  pub load-IsClosed :
      (data_ : List Item) (backend : Backend) → load library data_ ≡ ok backend → IsClosed backend
  unfolding load
  load-IsClosed data_ backend e =
      let (grouped, q1, e1) =
        bind_ok (load_model library (load_group library) "fpr.formatgroup" data_ empty_backend) _
          e in
      let h1 =
        load_model-Closes (load_group library) "fpr.formatgroup" data_
          (λ i f. load_group-Closes i f) _ _ empty-IsClosed q1 in
      let (formatted, q2, e2) =
        bind_ok (load_model library (load_format library) "fpr.format" data_ grouped) _ e1 in
      let h2 =
        load_model-Closes (load_format library) "fpr.format" data_ (λ i f. load_format-Closes i f) _
          _ h1 q2 in
      let (versioned, q3, e3) =
        bind_ok (load_model library (load_version library) "fpr.formatversion" data_ formatted) _
          e2 in
      let h3 =
        load_model-Closes (load_version library) "fpr.formatversion" data_
          (λ i f. load_version-Closes i f) _ _ h2 q3 in
      let (tooled, q4, e4) =
        bind_ok
          (load_model library (load_tool library) "fpr.fptool" data_
            (set_replaced_versions library versioned))
          _ e3 in
      let h4 =
        load_model-Closes (load_tool library) "fpr.fptool" data_ (λ i f. load_tool-Closes i f) _ _
          (replaced-IsClosed _ _ _ versioned h3) q4 in
      let (commanded, q5, e5) =
        bind_ok (load_model library (load_command library) "fpr.fpcommand" data_ tooled) _ e4 in
      let h5 =
        load_model-Closes (load_command library) "fpr.fpcommand" data_
          (λ i f. load_command-Closes i f) _ _ h4 q5 in
      let (linked, q6, e6) =
        bind_ok
          (load_model library (link_command library) "fpr.fpcommand" data_
            (set_replaced_commands library commanded))
          _ e5 in
      let h6 =
        load_model-Closes (link_command library) "fpr.fpcommand" data_
          (λ i f. link_command-Closes i f) _ _ (replaced-IsClosed _ _ _ commanded h5) q6 in
      let (ruled, q7, e7) =
        bind_ok (load_model library (load_rule library) "fpr.fprule" data_ linked) _ e6 in
      let h7 =
        load_model-Closes (load_rule library) "fpr.fprule" data_ (λ i f. load_rule-Closes i f) _ _
          h6 q7 in
      subst IsClosed (ok-injective e7) (replaced-IsClosed _ _ _ ruled h7)
