-- ===== src/Schemas/Models.antt =====
-- schemas.py: the `model_validator`s of the Pydantic models, on fields that are already parsed: a
-- moment is a number of microseconds, a `Literal` and a float are texts. What else Pydantic checks of
-- a field is not modelled.
use Prim.Native.String.{◌++◌}
use rh_reclaw.Common.{
  ℕ, String, Option, none, some, List, [], ◌∷◌, Bool, true, false, not, ◌&&◌, ◌||◌, leb, length,
  contains, ◌==◌, string_eq, nat_eq, HasEq, if◌then◌else◌,
}
use rh_reclaw.Common.Result.{Result, ok, err, ◌>>◌}

-- `value is not None`
abbrev pub given : {A : Type 0} → Option A → Bool
given none = false
given (some _) = true

-- `if test: raise ValueError(message)`
unfoldable pub refuse_if : Bool → String → Result String Unit
refuse_if true message = err message
refuse_if false message = ok tt

pub record TimeWindow : Type 0 where
  pub start : ℕ
  pub end : ℕ

pub record Slot : Type 0 where
  pub start : ℕ
  pub end : ℕ
  pub preference : String

unfoldable pub end_after_start : ℕ → ℕ → Result String Unit
unfolding refuse_if
end_after_start start end = refuse_if (leb end start) "end must be after start"

-- `set(values)`
unfoldable pub set_of : {A : Type 0} ⦃e : HasEq A⦄ → List A → List A
set_of [] = []
set_of (x ∷ xs) = let rest = set_of xs in if contains x rest then rest else x ∷ rest

abbrev pub repeats : {A : Type 0} ⦃e : HasEq A⦄ → List A → Bool
repeats values = not (length (set_of values) == length values)

unfoldable pub no_duplicate_constraints : List String → Result String Unit
no_duplicate_constraints constraints =
    refuse_if (repeats constraints) "constraints must not contain duplicates"

-- The fields of `AvailabilityResponseV1`; `none_available` is `True` where it is given.
pub record AvailabilityResponse : Type 0 where
  pub slots : Option (List Slot)
  pub none_available : Option (Unit {0})
  pub reason : Option String

-- `not self.slots`, of slots that are given
abbrev no_slot : Option (List Slot) → Bool
no_slot (some (s ∷ ss)) = false
no_slot _ = true

unfoldable pub exactly_one_branch : AvailabilityResponse → Result String Unit
unfolding refuse_if
exactly_one_branch r =
    let has_slots = given r.slots in
    let has_none_available = given r.none_available in
    do
      refuse_if (has_slots && has_none_available)
          "provide either 'slots' or 'none_available'+'reason', not both"
      refuse_if (not has_slots && not has_none_available)
          "must provide either 'slots' or 'none_available'+'reason'"
      refuse_if (has_slots && given r.reason) "'reason' is only valid alongside 'none_available'"
      refuse_if (has_none_available && not (given r.reason))
          "'reason' is required when 'none_available' is set"
      refuse_if (has_slots && no_slot r.slots)
          "'slots' must contain at least one slot when provided"

-- The fields of `TaskAssignV1` that its validators read.
pub record TaskAssign : Type 0 where
  pub action : String
  pub counterparty_agent_ids : List ℕ
  pub window : Option TimeWindow
  pub duration_min : Option ℕ
  pub constraints : List String

unfoldable pub check_no_duplicates :
    {A : Type 0} ⦃e : HasEq A⦄ → List A → String → Result String Unit
check_no_duplicates values field_name =
    refuse_if (repeats values) (field_name ++ " must not contain duplicates")

unfoldable pub no_duplicates : TaskAssign → Result String Unit
no_duplicates t = do
  check_no_duplicates t.constraints "constraints"
  check_no_duplicates t.counterparty_agent_ids "counterparty_agent_ids"

abbrev pub task_actions_requiring_window_and_duration : List String
task_actions_requiring_window_and_duration =
    "gather_availability" ∷ "schedule_meeting" ∷ "reschedule_meeting" ∷ []

unfoldable pub required_fields_for_action : TaskAssign → Result String Unit
required_fields_for_action t =
    if contains t.action task_actions_requiring_window_and_duration
    then refuse_if (not (given t.window) || not (given t.duration_min))
        ("action '" ++ t.action ++ "' requires 'window' and 'duration_min'")
    else refuse_if (t.action == "confirm_slot" && not (given t.window))
        "action 'confirm_slot' requires 'window'"
