-- ===== src/Common/Results.antt =====
-- Python's exceptions, as the value of a call that raised.
use mathlib.Core.Logic.{◌≢◌, ◌⊎◌, inl, inr}
use mathlib.Core.Path.{◌≡◌, refl, ap}

pub data Exception : Type 0 where
  key_error value_error type_error attribute_error runtime_error stop_iteration : Exception
  queue_full does_not_exist index_error : Exception
  -- `RightsRowException` of rights_from_csv.py
  rights_row : Exception
  -- an exception of a library, or of a client script, that no handler of the program names
  other_error : Exception

pub data Result {ℓ} (A : Type ℓ) : Type ℓ where
  ok : A → Result A
  raise : Exception → Result A

infixl 5 ◌>>=◌
abbrev pub ◌>>=◌ {ℓ κ} :
    {A : Type ℓ} {B : Type κ} (called : Result A) (rest : A → Result B) → Result B
ok value >>= rest = rest value
raise e >>= rest = raise e

-- A chain of calls that returned: what each of them returned.
pub bind_ok {ℓ κ} :
    {A : Type ℓ} {B : Type κ} (called : Result A) (rest : A → Result B) {value : B}
    → (called >>= rest) ≡ ok value
    → (found : A) × (called ≡ ok found) × (rest found ≡ ok value)
bind_ok (ok found) rest h = (found, refl, h)
bind_ok (raise e) rest h = cc

pub ok-injective {ℓ} : {A : Type ℓ} {a b : A} → ok a ≡ ok b → a ≡ b
ok-injective {A} {a} h = ap (λ r. value a r) h
  where
    value : A → Result A → A
    value d (ok x) = x
    value d (raise e) = d

pub Result-cases {ℓ} :
    {A : Type ℓ} (r : Result A) → ((a : A) × (r ≡ ok a)) ⊎ ((e : Exception) × (r ≡ raise e))
Result-cases (ok a) = inl (a, refl)
Result-cases (raise e) = inr (e, refl)

pub raise-ne-ok {ℓ} : {A : Type ℓ} {e : Exception} {a : A} → raise e ≢ ok a
raise-ne-ok h = cc
