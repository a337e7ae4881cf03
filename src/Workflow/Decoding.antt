-- ===== src/Workflow/Decoding.antt =====
-- The decoder of a3m/server/workflow.py: when it succeeds, and what it decodes.
use a3m.Common.{
  Exception, key_error, raise, ◌>>=◌, ℕ, String, ◌≡◌, refl, ap, ◌∙◌, inl, inr, Option, none, some,
  List, false, ◌⊎◌, [], ◌∷◌, ◌==◌, arith, if◌then◌else◌, eq-cases, Distinct, ok, bind_ok,
  ok-injective, Bool-cases,
}
use mathlib.Core.Path.{subst}
use a3m.Common.Dict.{Dict, lookup, insert, keys, lookup-insert, lookup-none}
use a3m.Common.Int.{ℤ, show_code}
use a3m.Workflow.{
  find_status, Config, decode_items, decode_replacements, ExitCode, Attrs, Link, Workflow, get_item,
  get_or, decode_exit_codes, decode_optional, decode_link, decode_links_into, decode_links,
  exit_codes, get_link, next_link_id, get_next_link, status_of, get_status_id,
}

pub get_item-ok {ℓ} : {V : Type ℓ} {o : Option V} {v : V} → get_item o ≡ ok v → o ≡ some v
get_item-ok {o = none} h = cc
get_item-ok {o = some w} h = ap some (ok-injective h)

-- A status label that is there and that the program knows.
abbrev pub IsKnown : Option String → Type 0
IsKnown label = (status : ℕ) × (find_status label ≡ some status)

abbrev pub AllKnown : Dict (ExitCode (Option String)) → Type 0
AllKnown [] = Unit
AllKnown ((code, entry) ∷ rest) = IsKnown entry.job_status × AllKnown rest

-- Only one kind of links has replacements; there each of them has its description.
abbrev pub AllThere : List (Option (Dict String)) → Type 0
AllThere [] = Unit
AllThere (item ∷ rest) = ((translations : Dict String) × (item ≡ some translations)) × AllThere rest

abbrev pub HasReplacements : Config → Type 0
HasReplacements config =
    ((config.manager == "linkTaskManagerReplacementDicFromChoice") ≡ false)
    ⊎ ((items : List (Option (Dict String))) × (config.replacements ≡ some items) × AllThere items)

decode_items_there :
    (items : List (Option (Dict String))) → AllThere items → decode_items items ≡ ok tt
unfolding decode_items
decode_items_there [] h = refl
decode_items_there (item ∷ rest) h = rw h.0.1 (decode_items_there rest h.1)

decode_replacements_there :
    (config : Config) → HasReplacements config → decode_replacements config ≡ ok tt
unfolding decode_replacements
decode_replacements_there config (inl other) = rw other refl
decode_replacements_there config (inr (items, e, all)) =
    elim (Bool-cases (config.manager == "linkTaskManagerReplacementDicFromChoice")) [
      | inl q ↦ rw (q, e) (decode_items_there items all)
      | inr q ↦ rw q refl
    ]

abbrev pub AttrsKnown : Attrs (Option String) → Type 0
AttrsKnown attrs =
    IsKnown attrs.fallback_job_status
    × AllKnown (exit_codes attrs)
    × ((description : Dict String) × (attrs.description ≡ some description))
    × ((group : Dict String) × (attrs.group ≡ some group))
    × HasReplacements attrs.config

decode_exit_codes_known :
    (codes : Dict (ExitCode (Option String)))
    → AllKnown codes
    → (decoded : Dict (ExitCode ℕ)) × (decode_exit_codes codes ≡ ok decoded)
unfolding decode_exit_codes
decode_exit_codes_known [] h = ([], refl)
decode_exit_codes_known ((code, entry) ∷ rest) h =
    let (decoded, e) = decode_exit_codes_known rest h.1 in
    ((code, record { link_id = entry.link_id; job_status = h.0.0 }) ∷ decoded, rw (h.0.1, e))

decode_optional_known :
    (codes : Option (Dict (ExitCode (Option String))))
    → AllKnown (get_or codes [])
    → (decoded : Option (Dict (ExitCode ℕ))) × (decode_optional codes ≡ ok decoded)
unfolding decode_optional
decode_optional_known none h = (none, refl)
decode_optional_known (some codes) h =
    let (decoded, e) = decode_exit_codes_known codes h in (some decoded, rw e)

decode_link_known :
    (id_ : String) (attrs : Attrs (Option String))
    → AttrsKnown attrs
    → (link : Link) × (decode_link id_ attrs ≡ ok link)
unfolding decode_link
decode_link_known id_ attrs h =
    let (known, all, (description, d), (group, g), replacements) = h in
    let (codes, e) = decode_optional_known attrs.exit_codes all in
    let items = decode_replacements_there attrs.config replacements in
    (
      record {
        id = id_;
        src = record {
          config = attrs.config;
          start = attrs.start;
          end = attrs.end;
          exit_codes = codes;
          fallback_job_status = known.0;
          fallback_link_id = attrs.fallback_link_id;
          description = some description;
          group = some group;
        };
      },
      simp (known.1, e, d, g, items),
    )

abbrev pub DocumentKnown : Dict (Attrs (Option String)) → Type 0
DocumentKnown [] = Unit
DocumentKnown ((id_, attrs) ∷ rest) = AttrsKnown attrs × DocumentKnown rest

decode_links_into_known :
    (links : Dict Link) (src : Dict (Attrs (Option String)))
    → DocumentKnown src
    → (all : Dict Link) × (decode_links_into links src ≡ ok all)
unfolding decode_links_into
decode_links_into_known links [] h = (links, refl)
decode_links_into_known links ((id_, attrs) ∷ rest) h =
    let (link, e) = decode_link_known id_ attrs h.0 in
    let (all, f) = decode_links_into_known (insert id_ link links) rest h.1 in (all, simp (e, f))

-- A document is decoded without an error, if each of its links has a fallback status and each of their exit
-- codes has a status, all of them among the labels of the job model, and each link has its description and
-- its group, and the replacements of a link of the kind that has them are there with their descriptions.
pub decode_links_known :
    (src : Dict (Attrs (Option String)))
    → DocumentKnown src
    → (workflow : Workflow) × (decode_links src ≡ ok workflow)
unfolding decode_links
decode_links_known src h =
    let (links, e) = decode_links_into_known [] src h in (record { links = links }, rw e)

-- The entries for one exit code, before and after decoding.
abbrev SameEntry : Option (ExitCode (Option String)) → Option (ExitCode ℕ) → Type 0
SameEntry none found = found ≡ none
SameEntry (some entry) found =
    (decoded : ExitCode ℕ) × (found ≡ some decoded)
    × (find_status entry.job_status ≡ some decoded.job_status)
    × (decoded.link_id ≡ entry.link_id)

decode_exit_codes-lookup :
    (code : String) (codes : Dict (ExitCode (Option String))) (decoded : Dict (ExitCode ℕ))
    → decode_exit_codes codes ≡ ok decoded
    → SameEntry (lookup code codes) (lookup code decoded)
unfolding decode_exit_codes lookup
decode_exit_codes-lookup code [] decoded e = ground arith
decode_exit_codes-lookup code ((c, entry) ∷ rest) decoded e =
    let (status, known, e1) = bind_ok (get_item (find_status entry.job_status)) _ e in
    let (tail, more, e2) = bind_ok (decode_exit_codes rest) _ e1 in
    let first : ExitCode ℕ = record { link_id = entry.link_id; job_status = status } in
    rw (← ok-injective e2) (elim (Bool-cases (c == code)) [
      | inl same ↦ simp same (first, refl, get_item-ok known, refl)
      | inr other ↦ simp other (decode_exit_codes-lookup code rest tail more)
    ])

decode_optional-lookup :
    (code : String) (codes : Option (Dict (ExitCode (Option String))))
    (decoded : Option (Dict (ExitCode ℕ)))
    → decode_optional codes ≡ ok decoded
    → SameEntry (lookup code (get_or codes [])) (lookup code (get_or decoded []))
unfolding decode_optional lookup
decode_optional-lookup code none decoded e = rw (← ok-injective e)
decode_optional-lookup code (some codes) decoded e =
    let (all, f, e1) = bind_ok (decode_exit_codes codes) _ e in
    rw (← ok-injective e1) (decode_exit_codes-lookup code codes all f)

-- What a decoded link keeps of its source.
pub decode_link_parts :
    (id_ : String) (attrs : Attrs (Option String)) (link : Link)
    → decode_link id_ attrs ≡ ok link
    → (link.id ≡ id_)
      × (find_status attrs.fallback_job_status ≡ some link.src.fallback_job_status)
      × (link.src.fallback_link_id ≡ attrs.fallback_link_id)
      × ((code : String)
          → SameEntry (lookup code (exit_codes attrs)) (lookup code (exit_codes link.src)))
unfolding decode_link
decode_link_parts id_ attrs link e =
    let (status, known, e1) = bind_ok (get_item (find_status attrs.fallback_job_status)) _ e in
    let (codes, f, e2) = bind_ok (decode_optional attrs.exit_codes) _ e1 in
    let (description, _, e3) = bind_ok (get_item attrs.description) _ e2 in
    let (group, _, e4) = bind_ok (get_item attrs.group) _ e3 in
    let (_, _, e5) = bind_ok (decode_replacements attrs.config) _ e4 in
    rw (← ok-injective e5)
      (refl, get_item-ok known, refl, λ code. decode_optional-lookup code attrs.exit_codes codes f)

-- The label that the document gives for an exit code: its entry's, or the fallback.
abbrev pub label_for : Option (ExitCode (Option String)) → Attrs (Option String) → Option String
label_for (some entry) attrs = entry.job_status
label_for none attrs = attrs.fallback_job_status

status_of-SameEntry :
    (o : Option (ExitCode (Option String))) (found : Option (ExitCode ℕ))
    (attrs : Attrs (Option String)) (link : Link)
    → SameEntry o found
    → find_status attrs.fallback_job_status ≡ some link.src.fallback_job_status
    → find_status (label_for o attrs) ≡ some (status_of found link)
unfolding status_of
status_of-SameEntry none found attrs link same fallback = rw same fallback
status_of-SameEntry (some entry) found attrs link same fallback = rw same.1 same.2

-- The status that a decoded link gives for an exit code is the identifier of the label that the
-- document gives for it, whether the code has an entry or the link falls back.
pub get_status_id_label :
    (id_ : String) (attrs : Attrs (Option String)) (link : Link) (code : Option ℤ)
    → decode_link id_ attrs ≡ ok link
    → find_status (label_for (lookup (show_code code) (exit_codes attrs)) attrs)
      ≡ some (get_status_id link code)
unfolding get_status_id
get_status_id_label id_ attrs link code e =
    let (_, fallback, _, entries) = decode_link_parts id_ attrs link e in
    status_of-SameEntry (lookup (show_code code) (exit_codes attrs)) _ attrs link
      (entries (show_code code)) fallback

-- What stands in the decoded workflow for a link of the document.
abbrev pub DecodedAs : String → Option (Attrs (Option String)) → Option Link → Type 0
DecodedAs id_ none found = found ≡ none
DecodedAs id_ (some attrs) found =
    (link : Link) × (found ≡ some link) × (decode_link id_ attrs ≡ ok link)

-- Where the document has a link, and where the links decoded before have one.
abbrev DecodedOver : String → Option (Attrs (Option String)) → Option Link → Option Link → Type 0
DecodedOver id_ none before found = found ≡ before
DecodedOver id_ (some attrs) before found = DecodedAs id_ (some attrs) found

decode_links_into-lookup :
    (id_ : String) (links : Dict Link) (src : Dict (Attrs (Option String))) (all : Dict Link)
    → Distinct (keys src)
    → decode_links_into links src ≡ ok all
    → DecodedOver id_ (lookup id_ src) (lookup id_ links) (lookup id_ all)
unfolding decode_links_into lookup
decode_links_into-lookup id_ links [] all d e = rw (← ok-injective e)
decode_links_into-lookup id_ links ((k, attrs) ∷ rest) all d e =
    let (link, decoded, e1) = bind_ok (decode_link k attrs) _ e in
    let later = decode_links_into-lookup id_ (insert k link links) rest all d.1 e1 in
    elim (eq-cases k id_) [
      | inl (same, test) ↦
          let absent : lookup id_ rest ≡ none = rw (← same) (lookup-none k rest d.0) in
          let found : lookup id_ all ≡ lookup id_ (insert k link links) =
            subst (λ o. DecodedOver id_ o (lookup id_ (insert k link links)) (lookup id_ all))
              absent later in
          simp test (
            link,
            found
                ∙ lookup-insert k id_ link links
                ∙ ap (λ b. if b then some link else lookup id_ links) test,
            subst (λ k. decode_link k attrs ≡ ok link) same decoded,
          )
      | inr (other, test) ↦
          let kept : lookup id_ (insert k link links) ≡ lookup id_ links =
            lookup-insert k id_ link links
            ∙ ap (λ b. if b then some link else lookup id_ links) test in
          simp test (subst (λ o. DecodedOver id_ (lookup id_ rest) o (lookup id_ all)) kept later)
    ]

over_nothing :
    (id_ : String) (o : Option (Attrs (Option String))) (found : Option Link)
    → DecodedOver id_ o none found
    → DecodedAs id_ o found
over_nothing id_ none found h = h
over_nothing id_ (some attrs) found h = h

-- A document of distinct link identifiers that decodes gives a workflow with the same identifiers,
-- where each link is the decoded one of its own attributes.
pub decode_links-lookup :
    (src : Dict (Attrs (Option String))) (workflow : Workflow) (id_ : String)
    → Distinct (keys src)
    → decode_links src ≡ ok workflow
    → DecodedAs id_ (lookup id_ src) (lookup id_ workflow.links)
unfolding decode_links
decode_links-lookup src workflow id_ d e =
    let (links, f, e1) = bind_ok (decode_links_into [] src) _ e in
    rw (← ok-injective e1) (
      over_nothing id_ (lookup id_ src) (lookup id_ links)
        (unfold lookup in decode_links_into-lookup id_ [] src links d f))

get_item_raises {ℓ} :
    {V : Type ℓ} (o : Option V) (e : Exception) → get_item o ≡ raise e → e ≡ key_error
get_item_raises none e h = ground arith
get_item_raises (some v) e h = cc

pub get_link_raises :
    (workflow : Workflow) (id_ : Option String) (e : Exception)
    → get_link workflow id_ ≡ raise e
    → e ≡ key_error
unfolding get_link
get_link_raises workflow none e h = ground arith
get_link_raises workflow (some id_) e h = get_item_raises (lookup id_ workflow.links) e h

next_link_raises :
    (workflow : Workflow) (found : Option (ExitCode ℕ)) (link : Link) (fallback : Option String)
    (e : Exception)
    → link.src.fallback_link_id ≡ fallback
    → (next_link_id found link >>= get_link workflow) ≡ raise e
    → e ≡ key_error
unfolding next_link_id
next_link_raises workflow (some entry) link f e p h = get_link_raises workflow entry.link_id e h
next_link_raises workflow none link none e p h = ground (arith, p)
next_link_raises workflow none link (some id_) e p h =
    get_link_raises workflow (some id_) e (rw p at h)

-- `get_next_link` raises nothing but `KeyError`, which `JobChain.__next__` catches.
pub get_next_link_raises :
    (workflow : Workflow) (link : Link) (code : Option ℤ) (e : Exception)
    → get_next_link workflow link code ≡ raise e
    → e ≡ key_error
unfolding get_next_link
get_next_link_raises workflow link code e h =
    next_link_raises workflow (lookup (show_code code) (exit_codes link.src)) link
      link.src.fallback_link_id e refl h
