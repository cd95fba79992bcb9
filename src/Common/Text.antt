-- ===== src/Common/Text.antt =====
-- Python's `str` and `set` operations: `strip`, `len`, `sorted(set(...))`.
use Prim.Native.Nat.{ℕ, suc}
use Prim.Native.Char.{Char, code}
use Prim.Native.String.{String}
use Prim.Native.String as Str
use mathlib.Core.Path.{◌≡◌, refl, ap, ◌∙◌}
use mathlib.Core.Bool.{Bool, true, false, ◌&&◌, ◌||◌}
use mathlib.Core.List.{List, [], ◌∷◌, foldr}
use mathlib.Core.Logic.{inl, inr}
use text.Mathlib.Text.{is_lt}
use rh_reclaw.Common.Tests.{leb, length, HasEq, All, Bool-cases, nat_eq, ◌==◌, if◌then◌else◌}

-- The code points that `str.isspace` accepts.
is_space : Char → Bool
is_space c =
    let n = code c in
    (leb 9 n && leb n 13)
    || (leb 28 n && leb n 32)
    || n == 133
    || n == 160
    || n == 5760
    || (leb 8192 n && leb n 8202)
    || n == 8232
    || n == 8233
    || n == 8239
    || n == 8287
    || n == 12288

lstrip : String → String
lstrip String.[] = String.[]
lstrip (String.◌∷◌ c s) = let rest = lstrip s in if is_space c then rest else String.◌∷◌ c s

reverse_onto : String → String → String
reverse_onto acc String.[] = acc
reverse_onto acc (String.◌∷◌ c s) = reverse_onto (String.◌∷◌ c acc) s

-- `s.strip()`
unfoldable pub strip : String → String
unfolding is_space lstrip reverse_onto
strip s = reverse_onto "" (lstrip (reverse_onto "" (lstrip s)))

-- `len(s)`: the number of code points.
unfoldable pub len : String → ℕ
len String.[] = 0
len (String.◌∷◌ c s) = suc (len s)

abbrev pub str_lt : String → String → Bool
str_lt s t = is_lt (Str.compare s t)

module _ {A : Type 0} ⦃e : HasEq A⦄ (lt : A → A → Bool) where
  insert_unique : A → List A → List A
  insert_unique x [] = x ∷ []
  insert_unique x (y ∷ ys) =
      if x == y then y ∷ ys else if lt x y then x ∷ y ∷ ys else y ∷ insert_unique x ys

  -- `sorted(set(xs))`
  unfoldable pub sorted_set : List A → List A
  unfolding insert_unique
  sorted_set = foldr insert_unique []

module _ {A : Type 0} (lt : A → A → Bool) where
  insert_by : A → List A → List A
  insert_by x [] = x ∷ []
  insert_by x (y ∷ ys) = if lt y x then y ∷ insert_by x ys else x ∷ y ∷ ys

  -- `sorted(xs, key=...)` and `ORDER BY`, by the order of the keys.
  unfoldable pub sort_by : List A → List A
  unfolding insert_by
  sort_by = foldr insert_by []

All-insert_by :
    {A : Type 0} (lt : A → A → Bool) (P : A → Type 0) (x : A) (xs : List A)
    → All P (insert_by lt x xs)
    → All P (x ∷ xs)
unfolding insert_by
All-insert_by lt P x [] h = h
All-insert_by lt P x (y ∷ ys) h = elim (Bool-cases (lt y x)) [
  | inl e ↦ let h' = rw e at h in let r = All-insert_by lt P x ys h'.1 in (r.0, (h'.0, r.1))
  | inr e ↦ rw e at h
]

pub All-sort_by :
    {A : Type 0} (lt : A → A → Bool) (P : A → Type 0) (xs : List A)
    → All P (sort_by lt xs)
    → All P xs
unfolding sort_by
All-sort_by lt P [] h = tt
All-sort_by lt P (x ∷ xs) h =
    let r = All-insert_by lt P x (sort_by lt xs) h in (r.0, All-sort_by lt P xs r.1)

insert_by-All :
    {A : Type 0} (lt : A → A → Bool) (P : A → Type 0) (x : A) (xs : List A)
    → P x
    → All P xs
    → All P (insert_by lt x xs)
unfolding insert_by
insert_by-All lt P x [] p h = (p, tt)
insert_by-All lt P x (y ∷ ys) p h = elim (Bool-cases (lt y x)) [
  | inl e ↦ rw e (h.0, insert_by-All lt P x ys p h.1)
  | inr e ↦ rw e (p, h)
]

pub sort_by-All :
    {A : Type 0} (lt : A → A → Bool) (P : A → Type 0) (xs : List A)
    → All P xs
    → All P (sort_by lt xs)
unfolding sort_by
sort_by-All lt P [] h = tt
sort_by-All lt P (x ∷ xs) h = insert_by-All lt P x (sort_by lt xs) h.0 (sort_by-All lt P xs h.1)

-- Each element is before all that follow it.
abbrev pub Ordered : {A : Type 0} → (A → A → Bool) → List A → Type 0
Ordered lt [] = Unit
Ordered lt (x ∷ xs) = All (λ y. lt x y ≡ true) xs × Ordered lt xs

-- Each element stands in the relation to all that follow it.
abbrev pub Pairwise : {A : Type 0} → (A → A → Type 0) → List A → Type 0
Pairwise D [] = Unit
Pairwise D (x ∷ xs) = All (D x) xs × Pairwise D xs

module _ {A : Type 0} (lt : A → A → Bool) (D : A → A → Type 0)
    (lt_trans : (x y z : A) → lt x y ≡ true → lt y z ≡ true → lt x z ≡ true)
    (lt_total : (x y : A) → D x y → lt y x ≡ false → lt x y ≡ true) where
  later :
      (x y : A) (ys : List A)
      → lt x y ≡ true
      → All (λ z. lt y z ≡ true) ys
      → All (λ z. lt x z ≡ true) ys
  later x y [] h k = tt
  later x y (z ∷ zs) h k = (lt_trans x y z h k.0, later x y zs h k.1)

  insert_by-Ordered :
      (x : A) (ys : List A) → All (D x) ys → Ordered lt ys → Ordered lt (insert_by lt x ys)
  unfolding insert_by
  insert_by-Ordered x [] d h = (tt, tt)
  insert_by-Ordered x (y ∷ ys) d h = elim (Bool-cases (lt y x)) [
    | inl e ↦
        rw e (insert_by-All lt (λ z. lt y z ≡ true) x ys e h.0, insert_by-Ordered x ys d.1 h.1)
    | inr e ↦ rw e (let before = lt_total x y d.0 e in ((before, later x y ys before h.0), h))
  ]

  pub sort_by-Ordered : (xs : List A) → Pairwise D xs → Ordered lt (sort_by lt xs)
  unfolding sort_by
  sort_by-Ordered [] d = tt
  sort_by-Ordered (x ∷ xs) d =
      insert_by-Ordered x (sort_by lt xs) (sort_by-All lt (D x) xs d.0) (sort_by-Ordered xs d.1)

module _ {A : Type 0} (lt : A → A → Bool) where
  length-insert_by : (x : A) (ys : List A) → length (insert_by lt x ys) ≡ suc (length ys)
  unfolding insert_by
  length-insert_by x [] = refl
  length-insert_by x (y ∷ ys) = elim (Bool-cases (lt y x)) [
    | inl e ↦ rw e (ap suc (length-insert_by x ys))
    | inr e ↦ rw e refl
  ]

  pub length-sort_by : (xs : List A) → length (sort_by lt xs) ≡ length xs
  unfolding sort_by
  length-sort_by [] = refl
  length-sort_by (x ∷ xs) = length-insert_by x (sort_by lt xs) ∙ ap suc (length-sort_by xs)
