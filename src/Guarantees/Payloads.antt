-- ===== src/Guarantees/Payloads.antt =====
-- What the model validators of the payloads accept.
use mathlib.Core.Bool.{false≢true}
use rh_reclaw.Common.{
  nat_eq, HasEq, ◌==◌, sym, ◌∙◌, subst, ap, ◌≤◌, length, ◌||◌, ◌≡◌, ◌≢◌, ◌↔◌, ◌⊎◌, inl, inr, refl,
  ℕ, String, Option, none, some, List, [], ◌∷◌, true, false, Bool-cases, ==_iff, string_eq, arith,
  contains,
}
use rh_reclaw.Common.Result.{ok, ◌>>◌, ◌>>=◌}
use rh_reclaw.Schemas.Models.{
  set_of, repeats, check_no_duplicates, no_duplicates, given, TimeWindow, TaskAssign,
  task_actions_requiring_window_and_duration, required_fields_for_action, Slot,
  AvailabilityResponse, refuse_if, exactly_one_branch,
}

-- At least one slot and nothing else, or the reason why there is none.
abbrev pub OneBranch : AvailabilityResponse → Type 0
OneBranch r =
    ((s : Slot) × (ss : List Slot) × (r.slots ≡ some (s ∷ ss))
      × (r.none_available ≡ none)
      × (r.reason ≡ none))
    ⊎ ((reason : String) × (r.slots ≡ none)
        × (r.none_available ≡ some tt)
        × (r.reason ≡ some reason))

abbrev response : Option (List Slot) → Option (Unit {0}) → Option String → AvailabilityResponse
response slots none_available reason = record {
  slots = slots;
  none_available = none_available;
  reason = reason;
}

OneBranch-of_ok :
    (slots : Option (List Slot)) (absent : Option (Unit {0})) (reason : Option String)
    → exactly_one_branch (response slots absent reason) ≡ ok tt
    → OneBranch (response slots absent reason)
unfolding exactly_one_branch refuse_if ◌>>=◌ ◌>>◌
OneBranch-of_ok none none reason h = absurd (cc h)
OneBranch-of_ok none (some tt) none h = absurd (cc h)
OneBranch-of_ok none (some tt) (some r) h = inr (r, refl, refl, refl)
OneBranch-of_ok (some ss) (some tt) reason h = absurd (cc h)
OneBranch-of_ok (some ss) none (some r) h = absurd (cc h)
OneBranch-of_ok (some []) none none h = absurd (cc h)
OneBranch-of_ok (some (s ∷ ss)) none none h = inl (s, ss, refl, refl, refl)

ok-OneBranch : (r : AvailabilityResponse) → OneBranch r → exactly_one_branch r ≡ ok tt
unfolding exactly_one_branch refuse_if ◌>>=◌ ◌>>◌
ok-OneBranch r (inl (s, ss, slots, absent, reason)) = rw (slots, absent, reason) refl
ok-OneBranch r (inr (why, slots, absent, reason)) = rw (slots, absent, reason) refl

pub exactly_one_branch_iff_lem :
    (r : AvailabilityResponse) → (exactly_one_branch r ≡ ok tt) ↔ OneBranch r
exactly_one_branch_iff_lem r = (OneBranch-of_ok r.slots r.none_available r.reason, ok-OneBranch r)

-- A time window and a duration for the actions that plan a meeting, a time window for
-- "confirm_slot", and nothing for any other.
abbrev pub FieldsGiven : TaskAssign → Type 0
FieldsGiven t =
    ((contains t.action task_actions_requiring_window_and_duration ≡ true)
      × ((w : TimeWindow) × (t.window ≡ some w))
      × ((d : ℕ) × (t.duration_min ≡ some d)))
    ⊎ ((contains t.action task_actions_requiring_window_and_duration ≡ false)
        × ((t.action ≢ "confirm_slot") ⊎ ((w : TimeWindow) × (t.window ≡ some w))))

given_iff : {A : Type 0} (x : Option A) → (given x ≡ true) ↔ ((a : A) × (x ≡ some a))
given_iff none = (λ h. absurd (cc h), λ (a, h). absurd (cc h))
given_iff (some a) = (λ h. (a, refl), λ h. refl)

pub required_fields_for_action_iff_lem :
    (t : TaskAssign) → (required_fields_for_action t ≡ ok tt) ↔ FieldsGiven t
unfolding required_fields_for_action refuse_if
required_fields_for_action_iff_lem t =
    elim (Bool-cases (contains t.action task_actions_requiring_window_and_duration)) [
      | inl e ↦ rw e (ground (arith, given_iff t.window, given_iff t.duration_min))
      | inr e ↦ rw e (ground (arith, given_iff t.window, ==_iff t.action "confirm_slot"))
    ]

module _ {A : Type 0} ⦃e : HasEq A⦄ where
  -- No value is there twice.
  abbrev pub Distinct : List A → Type 0
  Distinct [] = Unit
  Distinct (x ∷ xs) = (contains x xs ≡ false) × Distinct xs

  contains-set_of : (x : A) (xs : List A) → contains x (set_of xs) ≡ contains x xs
  unfolding set_of
  contains-set_of x [] = refl
  contains-set_of x (y ∷ ys) = elim (Bool-cases (contains y (set_of ys))) [
    | inl there ↦ rw there (elim (Bool-cases (x == y)) [
      | inl same ↦
          rw same (subst (λ z. contains z (set_of ys) ≡ true) (sym ((==_iff x y).0 same)) there)
      | inr other ↦ rw other (contains-set_of x ys)
    ])
    | inr absent ↦ rw absent (ap (λ b. (x == y) || b) (contains-set_of x ys))
  ]

  length-set_of : (xs : List A) → length (set_of xs) ≤ length xs
  unfolding set_of
  length-set_of [] = ground arith
  length-set_of (x ∷ xs) = ground (arith, length-set_of xs)

  repeats-Distinct : (xs : List A) → (repeats xs ≡ false) ↔ Distinct xs
  unfolding set_of
  repeats-Distinct [] = (λ h. tt, λ h. refl)
  repeats-Distinct (x ∷ xs) = elim (Bool-cases (contains x (set_of xs))) [
    | inl there ↦ rw there (
        (
          λ h. absurd (ground (arith, length-set_of xs)),
          λ (absent, rest). absurd (false≢true (sym absent ∙ (sym (contains-set_of x xs) ∙ there))),
        ))
    | inr absent ↦ rw absent (
        (
          λ h. (sym (contains-set_of x xs) ∙ absent, (repeats-Distinct xs).0 (ground arith)),
          λ (_, rest). let h = (repeats-Distinct xs).1 rest in ground arith,
        ))
  ]

pub no_duplicates_iff_lem :
    (t : TaskAssign)
    → (no_duplicates t ≡ ok tt) ↔ (Distinct t.constraints × Distinct t.counterparty_agent_ids)
unfolding no_duplicates check_no_duplicates refuse_if
no_duplicates_iff_lem t =
    ground (arith, repeats-Distinct t.constraints, repeats-Distinct t.counterparty_agent_ids)
