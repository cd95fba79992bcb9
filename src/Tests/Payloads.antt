-- ===== src/Tests/Payloads.antt =====
-- The validators at small payloads.
use rh_reclaw.Common.{◌≡◌, ◌↔◌, refl, none, some, [], ◌∷◌, string_eq, nat_eq}
use rh_reclaw.Common.Result.{ok}
use rh_reclaw.Schemas.Models.{
  AvailabilityResponse, TaskAssign, exactly_one_branch, no_duplicates, required_fields_for_action,
  check_no_duplicates, refuse_if, set_of,
}
use rh_reclaw.Guarantees.Payloads.{OneBranch, Distinct, FieldsGiven}
use rh_reclaw.Properties.Payloads.{model_validators_iff}

abbrev no_overlap : AvailabilityResponse
no_overlap = record { slots = none; none_available = some tt; reason = some "no_overlap" }

abbrev meeting : TaskAssign
meeting = record {
  action = "schedule_meeting";
  counterparty_agent_ids = 1 ∷ 2 ∷ [];
  window = some (record { start = 0; end = 3600 });
  duration_min = some 30;
  constraints = "mornings_only" ∷ "buffer_15min" ∷ [];
}

no_overlap_accepted : exactly_one_branch no_overlap ≡ ok tt
unfolding exactly_one_branch refuse_if
no_overlap_accepted = refl

meeting_accepted : (no_duplicates meeting ≡ ok tt) × (required_fields_for_action meeting ≡ ok tt)
unfolding no_duplicates check_no_duplicates set_of required_fields_for_action refuse_if
meeting_accepted = (refl, refl)

model_validators_iff_example :
    ((exactly_one_branch no_overlap ≡ ok tt) ↔ OneBranch no_overlap)
    × (((no_duplicates meeting ≡ ok tt) × (required_fields_for_action meeting ≡ ok tt)) ↔ (
        Distinct meeting.constraints
        × Distinct meeting.counterparty_agent_ids
        × FieldsGiven meeting))
model_validators_iff_example = model_validators_iff no_overlap meeting
