-- ===== src/Common/Rows.antt =====
-- Tables as lists of rows, newest first, with a primary key.
use mathlib.Core.Path.{◌≡◌, refl, sym, ◌∙◌, subst}
use mathlib.Core.Logic.{◌≢◌, inl, inr}
use mathlib.Core.Bool.{Bool, false, false≢true}
use mathlib.Core.Option.{Option, none, some, some-injective}
use mathlib.Core.List.{List, [], ◌∷◌}
use native.Mathlib.Omega.{arith}
use rh_reclaw.Common.Tests.{HasEq, All, is_some, ◌==◌, ==_iff, ==-refl, if◌then◌else◌, Bool-cases}

-- `SELECT ... WHERE p`
abbrev pub select : {A : Type 0} → (A → Bool) → List A → List A
select p [] = []
select p (x ∷ xs) = let rest = select p xs in if p x then x ∷ rest else rest

module _ {A K : Type 0} ⦃e : HasEq K⦄ (key : A → K) where
  -- `SELECT ... WHERE key = k`, at most one row.
  unfoldable pub find_row : K → List A → Option A
  find_row k [] = none
  find_row k (x ∷ xs) = if key x == k then some x else find_row k xs

  -- `UPDATE ... WHERE key = k`: the row of `v`'s key becomes `v`.
  unfoldable pub update_row : A → List A → List A
  update_row v [] = []
  update_row v (x ∷ xs) = (if key x == key v then v else x) ∷ update_row v xs

  pub key-find_row : (k : K) (xs : List A) (x : A) → find_row k xs ≡ some x → key x ≡ k
  unfolding find_row
  key-find_row k [] x h = ground arith
  key-find_row k (y ∷ xs) x h = ground (arith, e.equals_iff (key y) k, key-find_row k xs x)

  pub find_row-update_row :
      (v : A) (k : K) (xs : List A) (old : A)
      → find_row k xs ≡ some old
      → find_row k (update_row v xs) ≡ (if key v == k then some v else some old)
  unfolding find_row update_row
  find_row-update_row v k [] old h = ground arith
  find_row-update_row v k (x ∷ xs) old h = ground (
    arith,
    e.equals_iff (key x) k,
    e.equals_iff (key x) (key v),
    e.equals_iff (key v) k,
    e.equals_iff (key v) (key v),
    find_row-update_row v k xs old,
  )

  missing_row :
      (j k : K) (xs : List A) (x : A) → find_row j xs ≡ none → find_row k xs ≡ some x → j ≢ k
  missing_row j k xs x hj hk p = cc (hj, hk, p)

  same_row :
      (j k : K) (xs : List A) (x y : A)
      → find_row j xs ≡ some x
      → find_row k xs ≡ some y
      → j ≡ k
      → x ≡ y
  same_row j k xs x y hx hy p = some-injective x y (cc (hx, hy, p))

  -- Every row of `xs` is still there in `ys`, changed at most as `R` allows.
  pub record Persists (R : A → A → Type 0) (xs ys : List A) : Type 0 where
    pub at : (k : K) (x : A) → find_row k xs ≡ some x → (y : A) × (find_row k ys ≡ some y) × R x y

  module _ {R : A → A → Type 0} where
    pub Persists-refl : ((x : A) → R x x) → (xs : List A) → Persists R xs xs
    Persists-refl same xs = record { at = λ k x h. (x, h, same x) }

    pub Persists-trans :
        ((x y z : A) → R x y → R y z → R x z)
        → {xs ys zs : List A} → Persists R xs ys
        → Persists R ys zs
        → Persists R xs zs
    Persists-trans step p q = record {
      at = λ k x h.
          let (y, hy, r) = p.at k x h in let (z, hz, r') = q.at k y hy in (z, hz, step x y z r r');
    }

    pub Persists-update_row :
        ((x : A) → R x x)
        → (v old : A) (xs : List A) → find_row (key v) xs ≡ some old
        → R old v
        → Persists R xs (update_row v xs)
    Persists-update_row same v old xs found r = record {
      at = λ k x h. elim (Bool-cases (key v == k)) [
        | inl e ↦ (
          v,
          find_row-update_row v k xs x h ∙ rw e refl,
          subst (λ o. R o v) (same_row (key v) k xs old x found h ((==_iff _ _).0 e)) r,
        )
        | inr e ↦ (x, find_row-update_row v k xs x h ∙ rw e refl, same x)
      ];
    }

    pub Persists-cons :
        ((x : A) → R x x)
        → (v : A) (xs : List A) → find_row (key v) xs ≡ none
        → Persists R xs (v ∷ xs)
    unfolding find_row
    Persists-cons same v xs fresh = record {
      at = λ k x h. elim (Bool-cases (key v == k)) [
        | inl e' ↦ absurd (missing_row (key v) k xs x fresh h ((==_iff _ _).0 e'))
        | inr e' ↦ (x, rw e' h, same x)
      ];
    }

  -- Each row is the one that its key finds.
  abbrev pub Keyed : List A → Type 0
  Keyed xs = All (λ x. find_row (key x) xs ≡ some x) xs

  module _ (P : A → Type 0) where
    pub All-find_row : (k : K) (xs : List A) (x : A) → All P xs → find_row k xs ≡ some x → P x
    unfolding find_row
    All-find_row k [] x h found = absurd (cc found)
    All-find_row k (y ∷ ys) x h found = elim (Bool-cases (key y == k)) [
      | inl same ↦ subst P (some-injective y x (rw same at found)) h.0
      | inr other ↦ All-find_row k ys x h.1 (rw other at found)
    ]

    pub All-update_row : (v : A) (xs : List A) → All P xs → P v → All P (update_row v xs)
    unfolding update_row
    All-update_row v [] h p = tt
    All-update_row v (x ∷ xs) h p = elim (Bool-cases (key x == key v)) [
      | inl same ↦ rw same (p, All-update_row v xs h.1 p)
      | inr other ↦ rw other (h.0, All-update_row v xs h.1 p)
    ]

    -- The rows of other keys are those that stay.
    All-update_row-other :
        (v : A) (xs : List A)
        → All (λ x. (key x == key v) ≡ false → P x) xs
        → P v
        → All P (update_row v xs)
    unfolding update_row
    All-update_row-other v [] h p = tt
    All-update_row-other v (x ∷ xs) h p = elim (Bool-cases (key x == key v)) [
      | inl same ↦ rw same (p, All-update_row-other v xs h.1 p)
      | inr other ↦ rw other (h.0 other, All-update_row-other v xs h.1 p)
    ]

pub none_of_is_some {ℓ} : {A : Type ℓ} (o : Option A) → is_some o ≡ false → o ≡ none
none_of_is_some none h = refl
none_of_is_some (some a) h = cc

pub All-map {ℓ κ μ} :
    {A : Type ℓ} {P : A → Type κ} {Q : A → Type μ} (xs : List A)
    → ((x : A) → P x → Q x)
    → All P xs
    → All Q xs
All-map [] f h = tt
All-map (x ∷ xs) f h = (f x h.0, All-map xs f h.1)

module _ {A K : Type 0} ⦃e : HasEq K⦄ (key : A → K) where
  pub Keyed-cons :
      (v : A) (xs : List A) → find_row key (key v) xs ≡ none → Keyed key xs → Keyed key (v ∷ xs)
  unfolding find_row
  Keyed-cons v xs fresh keyed = (
    rw (==-refl (key v)) refl,
    All-map xs
        (λ x h. elim (Bool-cases (key v == key x)) [
          | inl same ↦ absurd (missing_row key (key v) (key x) xs x fresh h ((==_iff _ _).0 same))
          | inr other ↦ rw other h
        ])
        keyed,
  )

  pub Keyed-update_row :
      (v old : A) (xs : List A)
      → find_row key (key v) xs ≡ some old
      → Keyed key xs
      → Keyed key (update_row key v xs)
  Keyed-update_row v old xs found keyed =
      All-update_row-other key (λ x. find_row key (key x) (update_row key v xs) ≡ some x) v xs
        (All-map xs
          (λ x h other.
            find_row-update_row key v (key x) xs x h ∙ elim (Bool-cases (key v == key x)) [
              | inl same ↦ absurd (
                  false≢true (
                    sym other ∙ (==_iff (key x) (key v)).1 (sym ((==_iff (key v) (key x)).0 same))))
              | inr different ↦ rw different refl
            ])
          keyed)
        (find_row-update_row key v (key v) xs old found ∙ rw (==-refl (key v)) refl)
