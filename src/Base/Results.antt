-- ===== src/Base/Results.antt =====
-- Go's (value, error) results, for an error type of the caller's.
use mathlib.Core.Path.{◌≡◌, refl, subst}
use mathlib.Core.Logic.{◌⊎◌, ◌↔◌, inl, inr}
use mathlib.Core.Bool.{Bool, true, false}

pub data Result {ℓ} (E A : Type ℓ) : Type ℓ where
  ok : A → Result E A
  err : E → Result E A

infixr 5 ◌>>=◌ ◌>>◌
abbrev pub ◌>>=◌ {ℓ} : {E A B : Type ℓ} → Result E A → (A → Result E B) → Result E B
ok a >>= f = f a
err e >>= f = err e

abbrev pub ◌>>◌ {ℓ} : {E A B : Type ℓ} → Result E A → Result E B → Result E B
m >> k = m >>= λ _. k

-- `if bad { return err }`
abbrev pub reject_if {ℓ} : {E : Type ℓ} → Bool → E → Result E Unit
reject_if true e = err e
reject_if false e = ok tt

pub Result-cases {ℓ} :
    {E A : Type ℓ} (r : Result E A) → ((a : A) × (r ≡ ok a)) ⊎ ((e : E) × (r ≡ err e))
Result-cases (ok a) = inl (a, refl)
Result-cases (err e) = inr (e, refl)

pub ok_unique {ℓ} : {E A : Type ℓ} (r : Result E A) (a b : A) → r ≡ ok a → r ≡ ok b → a ≡ b
ok_unique r a b p q = cc

pub ok_not_err {ℓ} : {E A : Type ℓ} (r : Result E A) (a : A) (e : E) → r ≡ ok a → r ≡ err e → ⊥
ok_not_err r a e p q = cc

pub bind_ok {ℓ} :
    {E A B : Type ℓ} (m : Result E A) (f : A → Result E B) (b : B)
    → ((m >>= f) ≡ ok b) ↔ ((a : A) × (m ≡ ok a) × (f a ≡ ok b))
bind_ok (ok a) f b =
    (λ p. (a, refl, p), λ w. subst (λ x. f x ≡ ok b) (ok_unique (ok a) w.0 a w.1 refl) w.2)
bind_ok (err e) f b =
    (λ p. absurd (ok_not_err (err e) b e p refl), λ w. absurd (ok_not_err (err e) w.0 e w.1 refl))

pub reject_ok {ℓ} :
    {E A : Type ℓ} (bad : Bool) (e : E) (m : Result E A) (a : A)
    → ((reject_if bad e >> m) ≡ ok a) ↔ ((bad ≡ false) × (m ≡ ok a))
reject_ok true e m a = (λ p. absurd (ok_not_err (err e) a e p refl), λ w. absurd (true_false w.0))
  where
    true_false : true ≡ false → ⊥
    true_false p = cc
reject_ok false e m a = (λ p. (refl, p), λ w. w.1)
