-- ===== src/Fpr/Keyed.antt =====
-- The dictionaries of a3m/fpr/registry.py: what a look-up finds, and what an assignment keeps.
use a3m.Common.{
  String, ◌≡◌, refl, ap, true, false, inl, inr, Option, none, some, [], ◌∷◌, arith, Bool-cases,
  key_error, Result, ok, raise, raise-ne-ok, ok-injective,
}
use mathlib.Core.Path.{subst}
use mathlib.Core.Option.{some-injective}
use a3m.Fpr.{Value, Key, by_uuid, by_value, same_key, Keyed, get, put, is_in}
use a3m.Fpr.Fields.{item_of}

module _ {ℓ} {V : Type ℓ} where
  -- Every value of the dictionary satisfies `P`.
  abbrev pub AllValues : (V → Type 0) → Keyed V → Type 0
  AllValues P [] = Unit
  AllValues P ((key, value) ∷ d) = P value × AllValues P d

  -- No key is a JSON value.
  abbrev pub KeysUuids : Keyed V → Type 0
  KeysUuids [] = Unit
  KeysUuids ((key, value) ∷ d) = ((v : Value) → same_key key (by_value v) ≡ false) × KeysUuids d

  pub AllValues-put :
      (P : V → Type 0) (key : Key) (value : V) (d : Keyed V)
      → P value
      → AllValues P d
      → AllValues P (put key value d)
  unfolding put
  AllValues-put P key value [] p all = (p, tt)
  AllValues-put P key value ((k, v) ∷ d) p all = elim (Bool-cases (same_key k key)) [
    | inl q ↦ rw q (p, all.1)
    | inr q ↦ rw q (all.0, AllValues-put P key value d p all.1)
  ]

  pub AllValues-map :
      (P Q : V → Type 0) (d : Keyed V) → ((v : V) → P v → Q v) → AllValues P d → AllValues Q d
  AllValues-map P Q [] f all = tt
  AllValues-map P Q ((k, v) ∷ d) f all = (f v all.0, AllValues-map P Q d f all.1)

  pub AllValues-get :
      (P : V → Type 0) (key : Key) (value : V) (d : Keyed V)
      → AllValues P d
      → get key d ≡ some value
      → P value
  unfolding get
  AllValues-get P key value [] all e = absurd (ground (arith, e))
  AllValues-get P key value ((k, v) ∷ d) all e = elim (Bool-cases (same_key k key)) [
    | inl q ↦ subst P (some-injective v value (rw q at e)) all.0
    | inr q ↦ AllValues-get P key value d all.1 (rw q at e)
  ]

  pub is_in-put :
      (j key : Key) (value : V) (d : Keyed V) → is_in j d ≡ true → is_in j (put key value d) ≡ true
  unfolding put
  is_in-put j key value [] e = ground (arith, e)
  is_in-put j key value ((k, v) ∷ d) e = elim (Bool-cases (same_key k key)) [
    | inl q ↦ rw q e
    | inr q ↦ rw q (ground (arith, e, is_in-put j key value d))
  ]

  pub KeysUuids-put :
      (id : String) (value : V) (d : Keyed V) → KeysUuids d → KeysUuids (put (by_uuid id) value d)
  unfolding put
  KeysUuids-put id value [] all = ((λ v. refl), tt)
  KeysUuids-put id value ((k, v) ∷ d) all = elim (Bool-cases (same_key k (by_uuid id))) [
    | inl q ↦ rw q all
    | inr q ↦ rw q (all.0, KeysUuids-put id value d all.1)
  ]

  pub get-by_value : (v : Value) (d : Keyed V) → KeysUuids d → get (by_value v) d ≡ none
  unfolding get
  get-by_value v [] all = refl
  get-by_value v ((k, w) ∷ d) all = rw (all.0 v) (get-by_value v d all.1)

  pub is_in-get :
      (key : Key) (value : V) (d : Keyed V) → get key d ≡ some value → is_in key d ≡ true
  unfolding get
  is_in-get key value [] e = absurd (ground (arith, e))
  is_in-get key value ((k, v) ∷ d) e = elim (Bool-cases (same_key k key)) [
    | inl q ↦ rw q refl
    | inr q ↦ rw q (is_in-get key value d (rw q at e))
  ]

  pub get-item_of :
      (key : Key) (value : V) (d : Keyed V) → item_of key d ≡ ok value → get key d ≡ some value
  unfolding item_of
  get-item_of key value d e = found (get key d) e
    where
      found :
          (o : Option V)
          → (elim o as (λ _. Result V) [ none ↦ raise key_error | some value ↦ ok value ])
            ≡ ok value
          → o ≡ some value
      found none e = absurd (raise-ne-ok e)
      found (some v) e = ap some (ok-injective e)

  pub is_in-item_of :
      (key : Key) (value : V) (d : Keyed V) → item_of key d ≡ ok value → is_in key d ≡ true
  is_in-item_of key value d e = is_in-get key value d (get-item_of key value d e)
