-- ===== src/Common/Result.antt =====
-- A value or an exception.
use mathlib.Core.Path.{◌≡◌, refl}
use mathlib.Core.Logic.{◌⊎◌, inl, inr}

pub data Result {ℓ} (E A : Type ℓ) : Type ℓ where
  err : E → Result E A
  ok : A → Result E A

pub Result-cases {ℓ} :
    {E A : Type ℓ} (x : Result E A) → ((a : A) × (x ≡ ok a)) ⊎ ((e : E) × (x ≡ err e))
Result-cases (ok a) = inl (a, refl)
Result-cases (err e) = inr (e, refl)

-- What follows a value; an exception skips it.
abbrev pub proceed {ℓ} : {E A B : Type ℓ} → (A → Result E B) → Result E A → Result E B
proceed next (err e) = err e
proceed next (ok a) = next a

infixl 5 ◌>>=◌ ◌>>◌
abbrev pub ◌>>=◌ {ℓ} : {E A B : Type ℓ} → Result E A → (A → Result E B) → Result E B
x >>= next = proceed next x

abbrev pub ◌>>◌ {ℓ} : {E A B : Type ℓ} → Result E A → Result E B → Result E B
x >> y = proceed (λ _. y) x

-- A bind that succeeds, taken apart.
pub >>=-eq-ok {ℓ} :
    {E A B : Type ℓ} (x : Result E A) (next : A → Result E B) (d : B)
    → (x >>= next) ≡ ok d
    → (a : A) × (x ≡ ok a) × (next a ≡ ok d)
>>=-eq-ok x next d h = elim (Result-cases x) [
  | inl (a, found) ↦ (a, found, rw found at h)
  | inr (e, raised) ↦ absurd (cc (rw raised at h))
]
