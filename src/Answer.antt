-- ===== src/Answer.antt =====
-- What a repository answers: a result, an error by the class of its cause, or a run-time panic.
use mathlib.Core.Path.{◌≡◌, refl}
use almighty_core.Errors.{Class}

pub data Answer {ℓ} (A : Type ℓ) : Type ℓ where
  done : A → Answer A
  failed : Class → Answer A
  panicked : Answer A

infixl 5 ◌>>=◌
abbrev pub ◌>>=◌ {ℓ κ} : {A : Type ℓ} {B : Type κ} → Answer A → (A → Answer B) → Answer B
done a >>= f = f a
failed c >>= f = failed c
panicked >>= f = panicked

pub bind-done :
    {A B : Type 0} (m : Answer A) (f : A → Answer B) (b : B)
    → (m >>= f) ≡ done b
    → (a : A) × (m ≡ done a) × (f a ≡ done b)
bind-done (done a) f b h = (a, refl, h)
bind-done (failed c) f b h = cc
bind-done panicked f b h = cc
