-- ===== src/Properties/Payloads.antt =====
-- The validators of the payload models.
use rh_reclaw.Common.{◌≡◌, ◌↔◌, string_eq, nat_eq}
use rh_reclaw.Common.Result.{ok}
use rh_reclaw.Schemas.Models.{
  AvailabilityResponse, TaskAssign, exactly_one_branch, no_duplicates, required_fields_for_action,
}
use rh_reclaw.Guarantees.Payloads.{
  OneBranch, exactly_one_branch_iff_lem, Distinct, FieldsGiven, no_duplicates_iff_lem,
  required_fields_for_action_iff_lem,
}

-- The validator of an availability response accepts exactly the responses with at least one slot
-- and nothing else, and those without slots that say that there are none, and why. Those of a task
-- accept exactly the tasks in which no constraint and no counterparty is there twice, with a time
-- window and a duration if the action plans a meeting, and with a time window if it is
-- "confirm_slot".
pub model_validators_iff :
    (r : AvailabilityResponse) (t : TaskAssign)
    → ((exactly_one_branch r ≡ ok tt) ↔ OneBranch r)
      × (((no_duplicates t ≡ ok tt) × (required_fields_for_action t ≡ ok tt))
          ↔ (Distinct t.constraints × Distinct t.counterparty_agent_ids × FieldsGiven t))
model_validators_iff r t =
    let distinct = no_duplicates_iff_lem t in
    let fields = required_fields_for_action_iff_lem t in
    (
      exactly_one_branch_iff_lem r,
      (
        λ (a, b). ((distinct.0 a).0, (distinct.0 a).1, fields.0 b),
        λ (a, b, c). (distinct.1 (a, b), fields.1 c),
      ),
    )
