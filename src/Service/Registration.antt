-- ===== src/Service/Registration.antt =====
-- service.py, board admission: register_agent. The owner's identity is what the caller passes; the
-- tools take it from verified claims.
use rh_reclaw.Common.{
  String, Option, none, some, List, [], ◌∷◌, true, not, ltb, length, any, contains, ◌==◌, string_eq,
  is_some,
}
use rh_reclaw.Common.Json.{bool}
use rh_reclaw.Common.Rows.{select}
use rh_reclaw.Common.Text.{strip, len, sorted_set, str_lt}
use rh_reclaw.Models.{Agent, AgentStatus}
use rh_reclaw.Schemas.{
  message_types, max_display_name_length, max_accepted_types, max_accepted_type_length,
}
use rh_reclaw.Exceptions.{value_error, unknown_accepted_types}
use rh_reclaw.Session.{
  Exec, pure, ◌>>=◌, ◌>>◌, raise, write, when, now, uuid4, commit, add_agent, set_agent,
}
use rh_reclaw.Service.Denials.{audit}
use rh_reclaw.Service.Lookups.{get_agent_by_sub}

-- `sorted(set(accepted_types) - MESSAGE_TYPES)`
unfoldable pub unknown_types : List String → List String
unknown_types accepted_types =
    sorted_set str_lt (select (λ t. not (contains t message_types)) accepted_types)

-- The checks of the arguments, in the order of the code; the stripped `sub` and `display_name`.
unfoldable pub check_registration : String → String → List String → Exec (String × String)
check_registration sub display_name accepted_types = do
  let sub' = strip sub
  when (sub' == "") (raise (value_error "sub must be non-empty"))
  let display_name' = strip display_name
  when (display_name' == "") (raise (value_error "display_name must be non-empty"))
  when (ltb max_display_name_length (len display_name'))
      (raise (value_error "display_name exceeds 255 characters"))
  when (ltb max_accepted_types (length accepted_types))
      (raise (value_error "accepted_types exceeds 20 entries"))
  when (not (any (λ t. true) accepted_types))
      (raise (value_error "accepted_types must be non-empty"))
  when (any (λ t. ltb max_accepted_type_length (len t)) accepted_types)
      (raise (value_error "accepted_types entries must not exceed 100 characters"))
  when (any (λ t. true) (unknown_types accepted_types))
      (raise (unknown_accepted_types (unknown_types accepted_types)))
  pure (sub', display_name')

-- The new row, or the row of `sub` bound again: its `owner_sub` stays.
unfoldable pub bind_agent :
    Option Agent → String → String → String → String → List String → Exec Agent
bind_agent none sub owner_sub owner_email display_name accepted_types = do
  t ← now
  id ← uuid4
  let agent : Agent = record {
    id = id;
    sub = sub;
    owner_sub = owner_sub;
    owner_email = owner_email;
    display_name = display_name;
    accepted_types = accepted_types;
    status = AgentStatus.active;
    bound_at = some t;
  }
  add_agent agent
  pure agent
bind_agent (some existing) sub owner_sub owner_email display_name accepted_types = do
  t ← now
  let agent = record existing {
    owner_email = owner_email;
    display_name = display_name;
    accepted_types = accepted_types;
    status = AgentStatus.active;
    bound_at = some t;
  }
  write (set_agent agent)
  pure agent

unfoldable pub register_agent : String → String → String → String → List String → Exec Agent
register_agent sub owner_sub owner_email display_name accepted_types = do
  (sub', display_name') ← check_registration sub display_name accepted_types
  let normalized_types = sorted_set str_lt accepted_types
  existing ← get_agent_by_sub sub'
  agent ← bind_agent existing sub' owner_sub owner_email display_name' normalized_types
  audit sub' "agent.register" (some agent.id) none none
      (some (("created", bool (not (is_some existing))) ∷ []))
  commit
  pure agent
