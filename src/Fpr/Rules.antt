-- ===== src/Fpr/Rules.antt =====
-- The rules that a file has (`Registry.get_file_rules` of a3m/fpr/registry.py).
use a3m.Common.{
  String, ◌≡◌, refl, sym, ap, ◌∙◌, Bool, true, false, not, ◌&&◌, ◌==◌, ◌⊎◌, inl, inr, Option, none,
  some, List, [], ◌∷◌, ◌++◌, arith, if◌then◌else◌, All, All-append, Result, ok, raise, value_error,
  raise-ne-ok, ok-injective, bind_ok, eq_iff,
}
use mathlib.Core.Path.{subst}
use a3m.Fpr.{
  Key, by_uuid, Keyed, get, is_in, Purpose, same_purpose, get_fallback, FormatVersion, Rule,
  Backend, rules_of, get_rules, registry_get_rules, with_fallback, get_file_rules,
}

-- An element stands in a list.
abbrev pub IsIn : {A : Type 0} → A → List A → Type 0
IsIn x [] = ⊥
IsIn x (y ∷ ys) = (y ≡ x) ⊎ IsIn x ys

IsIn-append_left : {A : Type 0} (x : A) (xs ys : List A) → IsIn x xs → IsIn x (xs ++ ys)
IsIn-append_left x [] ys h = absurd h
IsIn-append_left x (y ∷ xs) ys (inl e) = inl e
IsIn-append_left x (y ∷ xs) ys (inr h) = inr (IsIn-append_left x xs ys h)

IsIn-append_right : {A : Type 0} (x : A) (xs ys : List A) → IsIn x ys → IsIn x (xs ++ ys)
IsIn-append_right x [] ys h = h
IsIn-append_right x (y ∷ xs) ys h = inr (IsIn-append_right x xs ys h)

All-map {ℓ κ} :
    {A : Type ℓ} (P Q : A → Type κ) (xs : List A) → ((x : A) → P x → Q x) → All P xs → All Q xs
All-map P Q [] f h = tt
All-map P Q (x ∷ xs) f h = (f x h.0, All-map P Q xs f h.1)

-- A rule of the dictionary that is enabled and not replaced.
abbrev pub InService : Keyed String → Keyed Rule → Rule → Type 0
InService replaced rules rule =
    (key : Key) × IsIn (key, rule) rules
    × (rule.enabled ≡ true)
    × (is_in (by_uuid rule.id) replaced ≡ false)

-- It is for the format version and the purpose.
abbrev pub IsFor : String → Purpose → Rule → Type 0
IsFor id purpose rule = (rule.format ≡ id) × (same_purpose rule.purpose purpose ≡ true)

-- The test of `get_rules`.
all_hold :
    (a b c d : Bool)
    → (a && (b && (c && not d))) ≡ true
    → (a ≡ true) × (b ≡ true) × (c ≡ true) × (d ≡ false)
all_hold true true true false e = (refl, refl, refl, refl)
all_hold true true true true e = absurd (ground (arith, e))
all_hold true true false d e = absurd (ground (arith, e))
all_hold true false c d e = absurd (ground (arith, e))
all_hold false b c d e = absurd (ground (arith, e))

rules_of-InService :
    (replaced : Keyed String) (id : String) (purpose : Purpose) (d : Keyed Rule)
    → All
        (λ rule. InService replaced d rule × IsFor id purpose rule)
        (rules_of replaced id purpose d)
unfolding rules_of
rules_of-InService replaced id purpose [] = tt
rules_of-InService replaced id purpose ((key, rule) ∷ d) =
    added
      ((rule.format == id)
        && (same_purpose rule.purpose purpose
            && (rule.enabled && not (is_in (by_uuid rule.id) replaced))))
      refl
      (All-map (λ r. InService replaced d r × IsFor id purpose r) _ (rules_of replaced id purpose d)
        (λ r ((k, stands, on, free), for_). ((k, inr stands, on, free), for_))
        (rules_of-InService replaced id purpose d))
  where
    added :
        (b : Bool)
        → ((rule.format == id)
            && (same_purpose rule.purpose purpose
                && (rule.enabled && not (is_in (by_uuid rule.id) replaced))))
          ≡ b
        → All
            (λ r. InService replaced ((key, rule) ∷ d) r × IsFor id purpose r)
            (rules_of replaced id purpose d)
        → All
            (λ r. InService replaced ((key, rule) ∷ d) r × IsFor id purpose r)
            (if b then rule ∷ rules_of replaced id purpose d else rules_of replaced id purpose d)
    added false e rest = rest
    added true e rest =
        let (same, serves, on, free) =
          all_hold (rule.format == id) (same_purpose rule.purpose purpose) rule.enabled
            (is_in (by_uuid rule.id) replaced) e in
        (((key, inl refl, on, free), ((eq_iff rule.format id).0 same, serves)), rest)

-- Every rule in service for the version and the purpose is among those of `get_rules`.
rules_of-complete :
    (replaced : Keyed String) (id : String) (purpose : Purpose) (d : Keyed Rule) (rule : Rule)
    → InService replaced d rule
    → IsFor id purpose rule
    → IsIn rule (rules_of replaced id purpose d)
unfolding rules_of
rules_of-complete replaced id purpose [] rule (key, stands, on, free) for_ = absurd stands
rules_of-complete replaced id purpose ((k, other) ∷ d) rule (key, inl e, on, free) (same, serves) =
    let same_rule : other ≡ rule = ap (λ (p : Key × Rule). p.1) e in
    rw same_rule (
      kept (rule.format == id) (same_purpose rule.purpose purpose) rule.enabled
        (is_in (by_uuid rule.id) replaced) ((eq_iff rule.format id).1 same) serves on free)
  where
    kept :
        (a b c x : Bool)
        → a ≡ true
        → b ≡ true
        → c ≡ true
        → x ≡ false
        → IsIn rule (
            if a && (b && (c && not x))
            then rule ∷ rules_of replaced id purpose d
            else rules_of replaced id purpose d)
    kept a b c x ha hb hc hx = rw (ha, hb, hc, hx) (inl refl)
rules_of-complete replaced id purpose ((k, other) ∷ d) rule (key, inr stands, on, free) for_ =
    under _ (rules_of-complete replaced id purpose d rule (key, stands, on, free) for_)
  where
    under :
        (b : Bool)
        → IsIn rule (rules_of replaced id purpose d)
        → IsIn rule
            (if b then other ∷ rules_of replaced id purpose d else rules_of replaced id purpose d)
    under true h = inr h
    under false h = h

get_rules-ok :
    (backend : Backend) (id : String) (purpose : Purpose) (rules : List Rule)
    → get_rules backend id purpose ≡ ok rules
    → rules_of backend.replaced_rules id purpose backend.rules ≡ rules
unfolding get_rules
get_rules-ok backend id purpose rules e = found (get (by_uuid id) backend.versions) e
  where
    found :
        (o : Option FormatVersion)
        → (elim o as (λ _. Result (List Rule)) [
          | none ↦ raise value_error
          | some version ↦ ok (rules_of backend.replaced_rules id purpose backend.rules)
        ])
          ≡ ok rules
        → rules_of backend.replaced_rules id purpose backend.rules ≡ rules
    found none e = absurd (raise-ne-ok e)
    found (some version) e = ok-injective e

module _ (parse_uuid : String → Result String) (backend : Backend) where
  -- A rule of the file, for its purpose or for the fallback of it.
  abbrev pub Serves : List String → Purpose → Bool → Rule → Type 0
  Serves versions purpose fallback rule =
      InService backend.replaced_rules backend.rules rule
      × ((version id : String) × IsIn version versions
          × (parse_uuid version ≡ ok id)
          × (IsFor id purpose rule
              ⊎ ((fallback ≡ true)
                  × ((other : Purpose) × (get_fallback purpose ≡ some other)
                      × IsFor id other rule))))

  registry_get_rules-ok :
      (version : String) (purpose : Purpose) (rules : List Rule)
      → registry_get_rules parse_uuid backend version purpose ≡ ok rules
      → (id : String) × (parse_uuid version ≡ ok id)
        × (rules_of backend.replaced_rules id purpose backend.rules ≡ rules)
  unfolding registry_get_rules
  registry_get_rules-ok version purpose rules e =
      let (id, q, e1) = bind_ok (parse_uuid version) _ e in
      (id, q, get_rules-ok backend id purpose rules e1)

  -- The rules of one version, from its own.
  fallback-Serves :
      (version : String) (versions : List String) (purpose : Purpose) (fallback : Bool)
      (other : Option Purpose) (own rules : List Rule)
      → get_fallback purpose ≡ other
      → All (Serves (version ∷ versions) purpose fallback) own
      → with_fallback parse_uuid backend version fallback other own ≡ ok rules
      → All (Serves (version ∷ versions) purpose fallback) rules
  unfolding with_fallback
  fallback-Serves version versions purpose true (some other) [] rules f all e =
      let (id, q, listed) = registry_get_rules-ok version other rules e in
      subst (All (Serves (version ∷ versions) purpose true)) listed (
        All-map _ _ (rules_of backend.replaced_rules id other backend.rules)
          (λ r (in_service, for_).
            (in_service, (version, id, inl refl, q, inr (refl, (other, f, for_)))))
          (rules_of-InService backend.replaced_rules id other backend.rules))
  fallback-Serves version versions purpose true (some other) (r ∷ own) rules f all e =
      subst (All (Serves (version ∷ versions) purpose true)) (ok-injective e) all
  fallback-Serves version versions purpose true none own rules f all e =
      subst (All (Serves (version ∷ versions) purpose true)) (ok-injective e) all
  fallback-Serves version versions purpose false other own rules f all e =
      subst (All (Serves (version ∷ versions) purpose false)) (ok-injective e) all

  get_file_rules_sound :
      (versions : List String) (purpose : Purpose) (fallback : Bool) (rules : List Rule)
      → get_file_rules parse_uuid backend versions purpose fallback ≡ ok rules
      → All (Serves versions purpose fallback) rules
  unfolding get_file_rules
  get_file_rules_sound [] purpose fallback rules e =
      subst (All (Serves [] purpose fallback)) (ok-injective e) tt
  get_file_rules_sound (version ∷ versions) purpose fallback rules e =
      let (own, q, e1) = bind_ok (registry_get_rules parse_uuid backend version purpose) _ e in
      let (here, q', e2) =
        bind_ok (with_fallback parse_uuid backend version fallback (get_fallback purpose) own) _
          e1 in
      let (others, q'', e3) =
        bind_ok (get_file_rules parse_uuid backend versions purpose fallback) _ e2 in
      let (id, parsed, listed) = registry_get_rules-ok version purpose own q in
      let of_version : All (Serves (version ∷ versions) purpose fallback) own =
        subst (All (Serves (version ∷ versions) purpose fallback)) listed (
          All-map _ _ (rules_of backend.replaced_rules id purpose backend.rules)
            (λ r (in_service, for_). (in_service, (version, id, inl refl, parsed, inl for_)))
            (rules_of-InService backend.replaced_rules id purpose backend.rules)) in
      subst (All (Serves (version ∷ versions) purpose fallback)) (ok-injective e3) (
        All-append (Serves (version ∷ versions) purpose fallback) here others
          (fallback-Serves version versions purpose fallback (get_fallback purpose) own here refl
            of_version q')
          (All-map (Serves versions purpose fallback) _ others
            (λ r (in_service, (v, i, stands, parsed', for_)).
              (in_service, (v, i, inr stands, parsed', for_)))
            (get_file_rules_sound versions purpose fallback others q'')))

  -- A rule of the version's own stays.
  fallback-keeps :
      (version : String) (fallback : Bool) (other : Option Purpose) (own rules : List Rule)
      (rule : Rule)
      → IsIn rule own
      → with_fallback parse_uuid backend version fallback other own ≡ ok rules
      → IsIn rule rules
  unfolding with_fallback
  fallback-keeps version true (some other) [] rules rule h e = absurd h
  fallback-keeps version true (some other) (r ∷ own) rules rule h e =
      subst (IsIn rule) (ok-injective e) h
  fallback-keeps version true none own rules rule h e = subst (IsIn rule) (ok-injective e) h
  fallback-keeps version false other own rules rule h e = subst (IsIn rule) (ok-injective e) h

  get_file_rules-complete :
      (versions : List String) (purpose : Purpose) (fallback : Bool) (rules : List Rule)
      (version id : String) (rule : Rule)
      → get_file_rules parse_uuid backend versions purpose fallback ≡ ok rules
      → IsIn version versions
      → parse_uuid version ≡ ok id
      → InService backend.replaced_rules backend.rules rule
      → IsFor id purpose rule
      → IsIn rule rules
  unfolding get_file_rules
  get_file_rules-complete [] purpose fallback rules version id rule e stands p s f = absurd stands
  get_file_rules-complete (v ∷ versions) purpose fallback rules version id rule e stands p s f =
      let (own, q, e1) = bind_ok (registry_get_rules parse_uuid backend v purpose) _ e in
      let (here, q', e2) =
        bind_ok (with_fallback parse_uuid backend v fallback (get_fallback purpose) own) _ e1 in
      let (others, q'', e3) =
        bind_ok (get_file_rules parse_uuid backend versions purpose fallback) _ e2 in
      subst (IsIn rule) (ok-injective e3) (elim stands [
        | inl same ↦
            let (i, parsed, listed) = registry_get_rules-ok v purpose own q in
            let same_id : id ≡ i = ok-injective (sym p ∙ ap parse_uuid (sym same) ∙ parsed) in
            IsIn-append_left rule here others (
              fallback-keeps v fallback (get_fallback purpose) own here rule
                (subst (IsIn rule) listed (
                  rules_of-complete backend.replaced_rules i purpose backend.rules rule s
                    (f.0 ∙ same_id, f.1)))
                q')
        | inr later ↦ IsIn-append_right rule here others (
            get_file_rules-complete versions purpose fallback others version id rule q'' later p s
              f)
      ])

  -- The rules of a file are in service, which is enabled and not replaced, and are for one of the file's
  -- format versions and the purpose, or its fallback if that is asked for. When a query returns, it has
  -- every rule in service for a version of the file and the purpose itself.
  pub get_file_rules-Serves :
      (versions : List String) (purpose : Purpose) (fallback : Bool) (rules : List Rule)
      → get_file_rules parse_uuid backend versions purpose fallback ≡ ok rules
      → All (Serves versions purpose fallback) rules
        × ((version id : String) (rule : Rule)
            → IsIn version versions
            → parse_uuid version ≡ ok id
            → InService backend.replaced_rules backend.rules rule
            → IsFor id purpose rule
            → IsIn rule rules)
  get_file_rules-Serves versions purpose fallback rules e = (
    get_file_rules_sound versions purpose fallback rules e,
    λ version id rule stands p s f.
        get_file_rules-complete versions purpose fallback rules version id rule e stands p s f,
  )
