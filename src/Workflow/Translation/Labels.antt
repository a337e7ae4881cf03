-- ===== src/Workflow/Translation/Labels.antt =====
-- Which label `TranslationLabel.get_label` of a3m/server/translation.py returns.
use Prim.Native.Char.{Char, code}
use text.Mathlib.TextLemmas.{nil-append, cons-append}
use Prim.Native.String.{String, [], ◌∷◌, ◌++◌}
use a3m.Common.{
  ◌≡◌, refl, ap, sym, ◌∙◌, true, false, inl, inr, Option, none, some, nat_eq, Bool-cases,
}
use a3m.Common.Dict.{Dict, lookup}
use a3m.Workflow.Translation.{
  fallback_lang, unknown_translation_label, partition_dash, prepare_lang, choose_label, get_label,
}

-- The four sources of a label, each where those before it have none.
pub data IsLabel (src : Dict String) (lang : String) (fallback_label : Option String)
    (label : String) : Type 0 where
  translated : lookup lang src ≡ some label → IsLabel src lang fallback_label label
  given :
      lookup lang src ≡ none → fallback_label ≡ some label → IsLabel src lang fallback_label label
  fallen_back :
      lookup lang src ≡ none
      → fallback_label ≡ none
      → lookup fallback_lang src ≡ some label
      → IsLabel src lang fallback_label label
  unknown :
      lookup lang src ≡ none
      → fallback_label ≡ none
      → lookup fallback_lang src ≡ none
      → label ≡ unknown_translation_label
      → IsLabel src lang fallback_label label

choose_label_cases :
    (src : Dict String) (lang : String) (translation fallback_label english : Option String)
    → lookup lang src ≡ translation
    → lookup fallback_lang src ≡ english
    → IsLabel src lang fallback_label (choose_label translation fallback_label english)
unfolding choose_label
choose_label_cases src lang (some label) f e p q = translated p
choose_label_cases src lang none (some label) e p q = given p refl
choose_label_cases src lang none none (some label) p q = fallen_back p refl q
choose_label_cases src lang none none none p q = unknown p refl q refl

-- No character of the text is a dash.
abbrev pub NoDash : String → Type 0
NoDash [] = Unit
NoDash (c ∷ s) = (nat_eq (code c) b'-' ≡ false) × NoDash s

-- The key of a language: the language itself where it has no dash, and else what stands before the first dash,
-- an underscore, and what stands behind the dash in upper case.
pub data IsKey (upper : String → String) (lang key : String) : Type 0 where
  plain : NoDash lang → key ≡ lang → IsKey upper lang key
  regional :
      (head : String) (dash : Char) (tail : String)
      → lang ≡ head ++ (dash ∷ tail)
      → nat_eq (code dash) b'-' ≡ true
      → NoDash head
      → key ≡ head ++ "_" ++ upper tail
      → IsKey upper lang key

-- Where `partition_dash` splits a text.
SplitAt : String → Option (String × String) → Type 0
SplitAt lang none = NoDash lang
SplitAt lang (some (head, tail)) =
    (dash : Char) × (lang ≡ head ++ (dash ∷ tail)) × (nat_eq (code dash) b'-' ≡ true) × NoDash head

SplitAt-cons :
    (c : Char) (s : String) (found : Option (String × String))
    → nat_eq (code c) b'-' ≡ false
    → SplitAt s found
    → SplitAt (c ∷ s) (elim found [ none ↦ none | some (head, tail) ↦ some (c ∷ head, tail) ])
unfolding SplitAt
SplitAt-cons c s none q h = (q, h)
SplitAt-cons c s (some (head, tail)) q (dash, e, d, h) =
    (dash, ap (λ l. c ∷ l) e ∙ sym (cons-append c head (dash ∷ tail)), d, (q, h))

partition_dash-SplitAt : (s : String) → SplitAt s (partition_dash s)
unfolding partition_dash SplitAt
partition_dash-SplitAt [] = tt
partition_dash-SplitAt (c ∷ s) = elim (Bool-cases (nat_eq (code c) b'-')) [
  | inl q ↦ rw q (c, sym (nil-append (c ∷ s)), q, tt)
  | inr q ↦ rw q (SplitAt-cons c s (partition_dash s) q (partition_dash-SplitAt s))
]

prepare_lang-IsKey :
    (upper : String → String) (lang : String) → IsKey upper lang (prepare_lang upper lang)
unfolding prepare_lang SplitAt
prepare_lang-IsKey upper lang = keyed (partition_dash lang) (partition_dash-SplitAt lang)
  where
    keyed :
        (found : Option (String × String))
        → SplitAt lang found
        → IsKey upper lang
            (elim found [ none ↦ lang | some (head, tail) ↦ head ++ "_" ++ upper tail ])
    keyed none h = plain h refl
    keyed (some (head, tail)) (dash, e, d, h) = regional head dash tail e d h refl

-- A label is looked up under the key of the language asked for, which is the language itself, or the text
-- before its first dash, an underscore and the rest in upper case. It is the translation there, else the
-- fallback label of the caller, else the English one, else the text for an unknown label: the first of
-- these that there is.
pub get_label_cases :
    (upper : String → String) (src : Dict String) (lang : String) (fallback_label : Option String)
    → (key : String) × IsKey upper lang key
      × IsLabel src key fallback_label (get_label upper src lang fallback_label)
unfolding get_label
get_label_cases upper src lang fallback_label = (
  prepare_lang upper lang,
  prepare_lang-IsKey upper lang,
  choose_label_cases src (prepare_lang upper lang) (lookup (prepare_lang upper lang) src)
      fallback_label (lookup fallback_lang src) refl refl,
)
