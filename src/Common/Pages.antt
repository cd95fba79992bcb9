-- ===== src/Common/Pages.antt =====
-- The first rows of a list, and its last one.
use Prim.Native.Nat.{ℕ, zero, suc, ◌<◌}
use mathlib.Core.Option.{Option, none, some}
use mathlib.Core.List.{List, [], ◌∷◌, ◌++◌}
use mathlib.Core.Path.{◌≡◌, refl, ap}
use mathlib.Core.Bool.{true, false}
use native.Mathlib.Omega.{arith}
use rh_reclaw.Common.Tests.{ltb, length}

module _ {ℓ} {A : Type ℓ} where
  -- `rows[:n]`
  abbrev pub take : ℕ → List A → List A
  take zero xs = []
  take (suc n) [] = []
  take (suc n) (x ∷ xs) = x ∷ take n xs

  -- `rows[-1]`, if there is one
  abbrev pub last : List A → Option A
  last [] = none
  last (x ∷ []) = some x
  last (x ∷ y ∷ ys) = last (y ∷ ys)

abbrev pub prepend {ℓ} : {A : Type ℓ} → Option A → List A → List A
prepend none xs = xs
prepend (some x) xs = x ∷ xs

-- `[f(x) for x in xs]`, where `f` has a value.
abbrev pub collect {ℓ κ} : {A : Type ℓ} {B : Type κ} → (A → Option B) → List A → List B
collect f [] = []
collect f (x ∷ xs) = prepend (f x) (collect f xs)

module _ {ℓ} {A : Type ℓ} where
  -- `rows[n:]`
  abbrev pub drop : ℕ → List A → List A
  drop zero xs = xs
  drop (suc n) [] = []
  drop (suc n) (x ∷ xs) = drop n xs

  pub take-drop : (n : ℕ) (xs : List A) → take n xs ++ drop n xs ≡ xs
  take-drop zero xs = refl
  take-drop (suc n) [] = refl
  take-drop (suc n) (x ∷ xs) = ap (λ ys. x ∷ ys) (take-drop n xs)

  pub take-take : (n : ℕ) (xs : List A) → take n (take (suc n) xs) ≡ take n xs
  take-take zero xs = refl
  take-take (suc n) [] = refl
  take-take (suc n) (x ∷ xs) = ap (λ ys. x ∷ ys) (take-take n xs)

  -- A page of `n` rows has a next one exactly if there are more than `n` rows.
  pub length-take : (n : ℕ) (xs : List A) → ltb n (length (take (suc n) xs)) ≡ ltb n (length xs)
  length-take zero [] = refl
  length-take zero (x ∷ xs) = ground arith
  length-take (suc n) [] = refl
  length-take (suc n) (x ∷ xs) = ground (arith, length-take n xs)

  pub take-all : (n : ℕ) (xs : List A) → ltb n (length xs) ≡ false → take n xs ≡ xs
  take-all zero [] h = refl
  take-all zero (x ∷ xs) h = ground arith
  take-all (suc n) [] h = refl
  take-all (suc n) (x ∷ xs) h = ap (λ ys. x ∷ ys) (take-all n xs (ground arith))

  pub length-drop :
      (n : ℕ) (xs : List A) → ltb (suc n) (length xs) ≡ true → length (drop (suc n) xs) < length xs
  length-drop n [] h = ground arith
  length-drop zero (x ∷ xs) h = ground arith
  length-drop (suc n) (x ∷ xs) h = ground (arith, length-drop n xs)

  -- The rows up to the last one of a page.
  pub last-take :
      (n : ℕ) (xs : List A)
      → ltb (suc n) (length xs) ≡ true
      → (x : A) × (ys : List A) × (last (take (suc n) xs) ≡ some x)
        × (take (suc n) xs ≡ ys ++ x ∷ [])
  last-take n [] h = absurd (ground arith)
  last-take zero (x ∷ xs) h = (x, [], refl, refl)
  last-take (suc n) (x ∷ []) h = absurd (ground arith)
  last-take (suc n) (x ∷ y ∷ xs) h =
      let (z, ys, at, split) = last-take n (y ∷ xs) (ground arith) in
      (z, x ∷ ys, at, ap (λ zs. x ∷ zs) split)
