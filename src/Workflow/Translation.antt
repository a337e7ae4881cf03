-- ===== src/Workflow/Translation.antt =====
-- a3m/server/translation.py.
pub mod Labels
use Prim.Native.Char.{code}
use Prim.Native.String.{String, [], ◌∷◌, ◌++◌}
use a3m.Common.{Option, none, some, nat_eq, if◌then◌else◌}
use a3m.Common.Dict.{Dict, lookup}

abbrev pub fallback_lang : String
fallback_lang = "en"

abbrev pub unknown_translation_label : String
unknown_translation_label = "<unknown>"

-- `lang.partition("-")`, where there is a dash: what stands before the first dash and behind it.
unfoldable pub partition_dash : String → Option (String × String)
partition_dash [] = none
partition_dash (c ∷ s) =
    if nat_eq (code c) b'-'
    then some ("", s)
    else elim (partition_dash s) [ none ↦ none | some (head, tail) ↦ some (c ∷ head, tail) ]

-- The returns of `get_label`, in their order.
unfoldable pub choose_label : (translated fallback_label fallen_back : Option String) → String
choose_label (some label) fallback_label fallen_back = label
choose_label none (some label) fallen_back = label
choose_label none none (some label) = label
choose_label none none none = unknown_translation_label

module _ (upper : String → String) where
  -- `_prepare_lang`; `upper` is `str.upper`.
  unfoldable pub prepare_lang : String → String
  unfolding partition_dash
  prepare_lang lang = elim (partition_dash lang) [
    | none ↦ lang
    | some (head, tail) ↦ head ++ "_" ++ upper tail
  ]

  -- `TranslationLabel.get_label`
  unfoldable pub get_label : Dict String → String → Option String → String
  get_label src lang fallback_label =
      choose_label (lookup (prepare_lang lang) src) fallback_label (lookup fallback_lang src)
