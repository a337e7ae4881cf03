-- ===== src/Workflow/Tests.antt =====
-- A small workflow document, and the theorems of the decoder at it.
use a3m.Common.{
  inl, Option, String, ◌≡◌, refl, true, none, some, [], ◌∷◌, ok, raise, key_error, Distinct,
}
use a3m.Common.Dict.{Dict, keys, lookup, insert}
use a3m.Common.Int.{pos, show_code}
use a3m.Workflow.{
  decode_replacements, statuses, find_status, Attrs, Config, Link, Workflow, decode_exit_codes,
  decode_optional, decode_link, decode_links, get_initiator, get_status_id, get_next_link, get_link,
  exit_codes,
}
use a3m.Workflow.Decoding.{
  AttrsKnown, decode_links_known, decode_links-lookup, get_status_id_label, label_for, DecodedAs,
}
use a3m.Workflow.Translation.{choose_label, get_label, prepare_lang}
use a3m.Workflow.Translation.Labels.{get_label_cases, IsKey, IsLabel}

abbrev directories : Config
directories = record {
  manager = "linkTaskManagerDirectories";
  execute = some "a3m_download_transfer";
  arguments = some "%URL%";
  stdout_file = none;
  stderr_file = none;
  filter_subdir = none;
  config_attr = none;
  default = none;
  choices = [];
  replacements = none;
}

abbrev download : Attrs (Option String)
download = record {
  config = directories;
  start = some true;
  end = none;
  exit_codes =
      some
        (("0", record { link_id = some "next"; job_status = some "Completed successfully" }) ∷ []);
  fallback_job_status = some "Failed";
  fallback_link_id = some "failed";
  description = some [];
  group = some [];
}

abbrev misspelt : Attrs (Option String)
misspelt = record download { fallback_job_status = some "failed" }

abbrev document : Dict (Attrs (Option String))
document = ("first", download) ∷ ("next", record download { start = none; end = some true }) ∷ []

program : Unit {0}
unfolding lookup insert statuses find_status decode_exit_codes decode_optional decode_replacements
    decode_link decode_links get_initiator get_status_id get_next_link get_link show_code
    choose_label prepare_lang get_label
program = tt

abbrev decoded : Link
decoded = record {
  id = "first";
  src = record {
    config = directories;
    start = some true;
    end = none;
    exit_codes = some (("0", record { link_id = some "next"; job_status = 1 }) ∷ []);
    fallback_job_status = 3;
    fallback_link_id = some "failed";
    description = some [];
    group = some [];
  };
}

abbrev decoded_next : Link
decoded_next = record {
  id = "next";
  src = record {
    config = directories;
    start = none;
    end = some true;
    exit_codes = some (("0", record { link_id = some "next"; job_status = 1 }) ∷ []);
    fallback_job_status = 3;
    fallback_link_id = some "failed";
    description = some [];
    group = some [];
  };
}

abbrev workflow : Workflow
workflow = record { links = ("first", decoded) ∷ ("next", decoded_next) ∷ [] }

decode_document : decode_links document ≡ ok workflow
unfolding program
decode_document = refl

decode_misspelt : decode_link "x" misspelt ≡ raise key_error
unfolding program
decode_misspelt = refl

-- An entry without a status is allowed by the schema, and raises.
decode_without_status :
    decode_link "x" (record download {
      exit_codes = some (("0", record { link_id = none; job_status = none }) ∷ []);
    })
    ≡ raise key_error
unfolding program
decode_without_status = refl

initiator : get_initiator workflow ≡ some decoded
unfolding program
initiator = refl

-- The exit code 0 has an entry; 1 falls back to a link that is not there.
next_links :
    (get_next_link workflow decoded (some (pos 0)) ≡ ok decoded_next)
    × (get_next_link workflow decoded (some (pos 1)) ≡ raise key_error)
unfolding program
next_links = (refl, refl)

download_known : AttrsKnown download
unfolding program
download_known = ((3, refl), ((1, refl), tt), ([], refl), ([], refl), inl refl)

decode_links_known_example : (w : Workflow) × (decode_links document ≡ ok w)
decode_links_known_example = decode_links_known document (download_known, (download_known, tt))

document-Distinct : Distinct (keys document)
document-Distinct = (refl, (refl, tt))

decode_links-lookup_example :
    DecodedAs "next" (lookup "next" document) (lookup "next" workflow.links)
decode_links-lookup_example =
    decode_links-lookup document workflow "next" document-Distinct decode_document

decode_download : decode_link "first" download ≡ ok decoded
unfolding program
decode_download = refl

get_status_id_label_example :
    find_status (label_for (lookup (show_code (some (pos 0))) (exit_codes download)) download)
    ≡ some (get_status_id decoded (some (pos 0)))
get_status_id_label_example =
    get_status_id_label "first" download decoded (some (pos 0)) decode_download

abbrev cat : Dict String
cat = ("en", "cat") ∷ ("pt_BR", "gato") ∷ []

labels :
    (get_label (λ s. "BR") cat "pt-br" none ≡ "gato")
    × (get_label (λ s. s) cat "sv" none ≡ "cat")
    × (get_label (λ s. s) cat "sv" (some "katt") ≡ "katt")
unfolding program
labels = (refl, refl, refl)

get_label_cases_example :
    (key : String) × IsKey (λ s. "BR") "pt-br" key
    × IsLabel cat key none (get_label (λ s. "BR") cat "pt-br" none)
get_label_cases_example = get_label_cases (λ s. "BR") cat "pt-br" none
