-- ===== src/Jobs/ExitCodes.antt =====
-- The exit code of a client script job in a3m/server/jobs/client.py, from those of its tasks.
use a3m.Common.{
  ℕ, zero, suc, ◌≤◌, max, ◌≡◌, refl, ap, ◌∙◌, ◌⊎◌, inl, inr, Option, none, some, List, [], ◌∷◌,
  arith, All,
}
use mathlib.Core.Path.{ap₂}
use native.Mathlib.Decide.{dec_le}
use mathlib.Core.List.{Perm, Permᴰ}
use mathlib.Core.Logic.{∥∥₁_elim}
use a3m.Common.Int.{ℤ, pos, negsuc, max_ℤ, or_zero}
use a3m.Jobs.{collect}

-- A task's exit code as `max` sees it, if it is not negative; a negative one never counts.
abbrev pub counted : Option ℤ → ℕ
counted none = 0
counted (some (pos n)) = n
counted (some (negsuc n)) = 0

abbrev pub Occurs : ℕ → List (Option ℤ) → Type 0
Occurs n [] = ⊥
Occurs n (r ∷ rs) = (counted r ≡ n) ⊎ Occurs n rs

-- `n` bounds what counts, and is `m` or one of the codes.
abbrev IsMaximum : ℕ → ℕ → List (Option ℤ) → Type 0
IsMaximum m n rs = (m ≤ n) × All (λ r. counted r ≤ n) rs × ((n ≡ m) ⊎ Occurs n rs)

collect_from :
    (m : ℕ) (rs : List (Option ℤ))
    → (n : ℕ) × (collect (some (pos m)) rs ≡ some (pos n)) × IsMaximum m n rs
unfolding collect
collect_from m [] = (m, refl, (omega arith, tt, inl refl))
collect_from m (r ∷ rs) =
    let (n, e, maximum) = collect_from (max m (counted r)) rs in
    let (bound, all, reached) = maximum in
    (
      n,
      ap (λ z. collect (some z) rs) (max_counted m r) ∙ e,
      (omega arith, (omega arith, all), origin n reached),
    )
  where
    max_counted : (k : ℕ) (o : Option ℤ) → max_ℤ (pos k) (or_zero o) ≡ pos (max k (counted o))
    max_counted k none = refl
    max_counted k (some (pos j)) = refl
    max_counted k (some (negsuc j)) = ap pos (omega arith)

    origin :
        (n : ℕ) → (n ≡ max m (counted r)) ⊎ Occurs n rs → (n ≡ m) ⊎ ((counted r ≡ n) ⊎ Occurs n rs)
    origin n (inl e) = elim (dec_le m (counted r)) [
      | yes le ↦ inr (inl (omega arith))
      | no gt ↦ inl (omega arith)
    ]
    origin n (inr o) = inr (inr o)

-- The exit code of a client script job that had results is not negative. It is the greatest of its
-- tasks' codes, where `None` and the negative ones count as 0: no code is above it, and it is 0 or the
-- code of a task.
pub collect_maximum :
    (r : Option ℤ) (rs : List (Option ℤ))
    → (n : ℕ) × (collect none (r ∷ rs) ≡ some (pos n))
      × All (λ x. counted x ≤ n) (r ∷ rs)
      × ((n ≡ 0) ⊎ Occurs n (r ∷ rs))
unfolding collect
collect_maximum r rs = let (n, e, maximum) = collect_from 0 (r ∷ rs) in (n, e, maximum.1, maximum.2)

abbrev pub IsNegative : Option ℤ → Type 0
IsNegative (some (negsuc n)) = Unit
IsNegative _ = ⊥

negative_counted : (r : Option ℤ) → IsNegative r → counted r ≡ 0
negative_counted none h = refl
negative_counted (some (pos n)) h = absurd h
negative_counted (some (negsuc n)) h = refl

not-Occurs : (n : ℕ) (rs : List (Option ℤ)) → All IsNegative rs → Occurs (suc n) rs → ⊥
not-Occurs n [] h o = o
not-Occurs n (r ∷ rs) h (inl e) = omega (arith, negative_counted r h.0)
not-Occurs n (r ∷ rs) h (inr o) = not-Occurs n rs h.1 o

-- A job whose tasks all ended with a negative exit code has the exit code 0, that of success.
pub collect_negative :
    (r : Option ℤ) (rs : List (Option ℤ))
    → All IsNegative (r ∷ rs)
    → collect none (r ∷ rs) ≡ some (pos 0)
collect_negative r rs h =
    let (n, e, all, reached) = collect_maximum r rs in
    e ∙ ap (λ k. some (pos k)) (is_zero n reached)
  where
    is_zero : (n : ℕ) → (n ≡ 0) ⊎ Occurs n (r ∷ rs) → n ≡ 0
    is_zero n (inl e) = e
    is_zero zero (inr o) = refl
    is_zero (suc n) (inr o) = absurd (not-Occurs n (r ∷ rs) h o)

ℤ-set : IsSet (Option ℤ)
ℤ-set = hlevel

-- Two results in either order.
collect_swap :
    (e a b : Option ℤ) (rs : List (Option ℤ)) → collect e (a ∷ b ∷ rs) ≡ collect e (b ∷ a ∷ rs)
unfolding collect
collect_swap e a b rs = ap (λ z. collect (some z) rs) (max_swap (or_zero e) (or_zero a) (or_zero b))
  where
    max_swap : (x y z : ℤ) → max_ℤ (max_ℤ x y) z ≡ max_ℤ (max_ℤ x z) y
    max_swap (pos x) (pos y) (pos z) = ap pos (omega arith)
    max_swap (pos x) (pos y) (negsuc z) = refl
    max_swap (pos x) (negsuc y) (pos z) = refl
    max_swap (pos x) (negsuc y) (negsuc z) = refl
    max_swap (negsuc x) (pos y) (pos z) = ap pos (omega arith)
    max_swap (negsuc x) (pos y) (negsuc z) = ground arith
    max_swap (negsuc x) (negsuc y) (pos z) = ground arith
    max_swap (negsuc x) (negsuc y) (negsuc z) = ground arith

collect-Permᴰ :
    (e : Option ℤ) {rs rs' : List (Option ℤ)} → Permᴰ rs rs' → collect e rs ≡ collect e rs'
unfolding collect
collect-Permᴰ e Permᴰ.nil = refl
collect-Permᴰ e (Permᴰ.cons {a} {b} {l₁} {l₂} p d) =
    ap (λ r. collect (some (max_ℤ (or_zero e) (or_zero r))) l₁) p
    ∙ collect-Permᴰ (some (max_ℤ (or_zero e) (or_zero b))) d
collect-Permᴰ e (Permᴰ.swap {a} {b} {a'} {b'} {l} p q) =
    collect_swap e a b l ∙ ap₂ (λ x y. collect e (x ∷ y ∷ l)) q p
collect-Permᴰ e (Permᴰ.trans d d') = collect-Permᴰ e d ∙ collect-Permᴰ e d'

-- The exit code of a job does not depend on the order in which the results of its tasks come in.
pub collect-perm :
    (e : Option ℤ) (rs rs' : List (Option ℤ)) → Perm rs rs' → collect e rs ≡ collect e rs'
collect-perm e rs rs' p = ∥∥₁_elim p (ℤ-set _ _) (λ d. collect-Permᴰ e d)
