-- ===== src/Base/Outcome.antt =====
-- A value or the error that the code returns in its place.
use mathlib.Core.Path.{◌≡◌, refl}
use mathlib.Core.Logic.{◌⊎◌, inl, inr}
use mathlib.Core.Option.{Option, none, some}

pub data Result {ℓ} (E A : Type ℓ) : Type ℓ where
  ok : A → Result E A
  err : E → Result E A

infixl 5 ◌>>=◌
abbrev pub ◌>>=◌ {ℓ} : {E A B : Type ℓ} → Result E A → (A → Result E B) → Result E B
ok a >>= f = f a
err e >>= f = err e

-- A guard that may give an error, and what follows it.
abbrev pub unless {ℓ} : {E A : Type ℓ} → Option E → Result E A → Result E A
unless none r = r
unless (some e) r = err e

module _ {ℓ} {E A : Type ℓ} where
  pub unless-ok :
      (o : Option E) (r : Result E A) {a : A} → unless o r ≡ ok a → (o ≡ none) × (r ≡ ok a)
  unless-ok none r h = (refl, h)
  unless-ok (some e) r h = absurd (cc)

  pub Result-cases : (r : Result E A) → ((a : A) × (r ≡ ok a)) ⊎ ((e : E) × (r ≡ err e))
  Result-cases (ok a) = inl (a, refl)
  Result-cases (err e) = inr (e, refl)

-- A chain that succeeds succeeds in each part.
pub >>=-ok {ℓ} :
    {E A B : Type ℓ} (r : Result E A) (f : A → Result E B) {b : B}
    → (r >>= f) ≡ ok b
    → (a : A) × (r ≡ ok a) × (f a ≡ ok b)
>>=-ok (ok a) f h = (a, refl, h)
>>=-ok (err e) f h = absurd (cc)
