-- ===== src/Tools/Membership.antt =====
-- providers/comms.py: accept, decline_invite, invite, leave.
use rh_reclaw.Common.{ℕ, String, Option, [], ◌∷◌}
use rh_reclaw.Common.Json.{text, Dict}
use rh_reclaw.Common.Stdlib.{Stdlib}
use rh_reclaw.Models.{Participant, status_text, role_text}
use rh_reclaw.Service.Ownership.{agent_table_client}
use rh_reclaw.Service.Membership.{accept_invite, decline_invite, invite, leave}
use rh_reclaw.Service.Serialization.{id_text, optional_id, iso}
use rh_reclaw.Identity.{AccessToken}
use rh_reclaw.Call.{Call, done, ◌>>=◌, ◌>>◌, checked, open_session, in_session}
use rh_reclaw.Tools.Caller.{caller_sub, resolve_caller_agent}
use rh_reclaw.Tools.Errors.{map_service_errors}
use rh_reclaw.Tools.Parsing.{parse_uuid}

module _ (py : Stdlib) (found : Option AccessToken) where
  abbrev accepted_dict : String → Participant → Dict
  accepted_dict conversation_id p =
      ("conversation_id", text conversation_id)
      ∷ ("agent_id", id_text py p.agent_id)
      ∷ ("status", text (status_text p.status))
      ∷ ("role", text (role_text p.role))
      ∷ ("joined_at", iso py p.joined_at)
      ∷ []

  unfoldable pub accept_tool : String → Option String → Call Dict
  accept_tool conversation_id agent_key = do
    sub ← checked (caller_sub py found agent_key)
    conv_id ← checked (parse_uuid py "conversation_id" conversation_id)
    open_session
    caller ← resolve_caller_agent sub
    participant ← in_session (map_service_errors py) (accept_invite sub caller.id conv_id)
    done (accepted_dict conversation_id participant)

  abbrev exit_dict : String → ℕ → String → Dict
  exit_dict conversation_id agent_id status =
      ("conversation_id", text conversation_id)
      ∷ ("agent_id", id_text py agent_id)
      ∷ ("status", text status)
      ∷ []

  unfoldable pub decline_invite_tool : String → Option String → Call Dict
  decline_invite_tool conversation_id agent_key = do
    sub ← checked (caller_sub py found agent_key)
    conv_id ← checked (parse_uuid py "conversation_id" conversation_id)
    open_session
    caller ← resolve_caller_agent sub
    participant ← in_session (map_service_errors py) (decline_invite sub caller.id conv_id)
    done (exit_dict conversation_id caller.id "declined")

  abbrev invited_dict : String → Participant → Dict
  invited_dict conversation_id p =
      ("conversation_id", text conversation_id)
      ∷ ("target_agent_id", id_text py p.agent_id)
      ∷ ("status", text (status_text p.status))
      ∷ ("invited_by", optional_id py p.invited_by)
      ∷ []

  unfoldable pub invite_tool : String → String → Option String → Call Dict
  invite_tool conversation_id target_agent_id agent_key = do
    sub ← checked (caller_sub py found agent_key)
    conv_id ← checked (parse_uuid py "conversation_id" conversation_id)
    target_id ← checked (parse_uuid py "target_agent_id" target_agent_id)
    open_session
    caller ← resolve_caller_agent sub
    participant ←
        in_session (map_service_errors py)
          (invite agent_table_client sub caller.id conv_id target_id)
    done (invited_dict conversation_id participant)

  unfoldable pub leave_tool : String → Option String → Call Dict
  leave_tool conversation_id agent_key = do
    sub ← checked (caller_sub py found agent_key)
    conv_id ← checked (parse_uuid py "conversation_id" conversation_id)
    open_session
    caller ← resolve_caller_agent sub
    participant ← in_session (map_service_errors py) (leave sub caller.id conv_id)
    done (exit_dict conversation_id caller.id "left")
