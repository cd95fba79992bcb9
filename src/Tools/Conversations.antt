-- ===== src/Tools/Conversations.antt =====
-- providers/comms.py: start_conversation, post_message, get_conversation, inbox, list_conversations.
use rh_reclaw.Common.{
  ℕ, String, Option, some, List, [], ◌∷◌, Bool, map, ltb, length, ◌==◌, string_eq, if◌then◌else◌,
}
use rh_reclaw.Common.Json.{text, nat, array, object, texts, Dict}
use rh_reclaw.Common.Stdlib.{Stdlib, ℤ, is_negative, to_nat}
use rh_reclaw.Models.{Conversation, Message, state_text}
use rh_reclaw.Schemas.{Pydantic}
use rh_reclaw.Service.Ownership.{agent_table_client}
use rh_reclaw.Service.Conversations.{start_conversation}
use rh_reclaw.Service.Messages.{post_message}
use rh_reclaw.Service.Reads.{get_conversation}
use rh_reclaw.Service.Listings.{list_conversations}
use rh_reclaw.Service.Inbox.{inbox}
use rh_reclaw.Service.Serialization.{
  id_text, iso, fields_of, reading_dict, inbox_dict, conversation_page_dict,
}
use rh_reclaw.Identity.{AccessToken}
use rh_reclaw.Call.{Call, done, ◌>>=◌, ◌>>◌, checked, reject_if, open_session, in_session, unmapped}
use rh_reclaw.Tools.Caller.{caller_sub, resolve_caller_agent}
use rh_reclaw.Tools.Errors.{map_service_errors}
use rh_reclaw.Tools.Parsing.{
  parse_uuid, parse_uuids, parse_expires_at, parse_role, parse_type, parse_state,
}

-- `result["messages_returned"] = result.pop("total_count")`, where there is one
unfoldable pub rename_count : Dict → Dict
rename_count [] = []
rename_count ((k, v) ∷ d) =
    let rest = rename_count d in
    if k == "total_count" then ("messages_returned", v) ∷ d else (k, v) ∷ rest

module _ (py : Stdlib) (px : Pydantic) (found : Option AccessToken) where
  abbrev started_dict : Conversation → List ℕ → Dict
  started_dict c targets =
      ("conversation_id", id_text py c.id)
      ∷ ("type", text c.type)
      ∷ ("state", text (state_text c.state))
      ∷ ("created_by", id_text py c.created_by)
      ∷ ("target_agent_ids", array (texts (map py.uuid_text targets)))
      ∷ ("expires_at", iso py (some c.expires_at))
      ∷ ("created_at", iso py (some c.created_at))
      ∷ []

  unfoldable pub start_conversation_tool :
      String → List String → Dict → String → Option String → ℕ → Option String → Call Dict
  start_conversation_tool conversation_type target_agent_ids initial_message message_type expires_at
        schema_version agent_key =
      do
        sub ← checked (caller_sub py found agent_key)
        reject_if (ltb 50 (length target_agent_ids))
            "invalid_request: target_agent_ids exceeds the participant cap (50)"
        target_uuids ← checked (parse_uuids py "target_agent_ids" target_agent_ids)
        expires_dt ← checked (parse_expires_at py expires_at)
        open_session
        caller ← resolve_caller_agent sub
        conversation ← in_session (map_service_errors py) (
            start_conversation px agent_table_client sub caller.id conversation_type target_uuids
              initial_message message_type schema_version expires_dt)
        done (started_dict conversation target_uuids)

  abbrev posted_dict : String → Message → Dict
  posted_dict conversation_id m =
      ("conversation_id", text conversation_id)
      ∷ ("seq", nat m.seq)
      ∷ ("type", text m.type)
      ∷ ("schema_version", nat m.schema_version)
      ∷ ("payload", object (fields_of m.payload))
      ∷ ("created_at", iso py (some m.created_at))
      ∷ []

  unfoldable pub post_message_tool : String → String → Dict → ℕ → Option String → Call Dict
  post_message_tool conversation_id message_type payload schema_version agent_key = do
    sub ← checked (caller_sub py found agent_key)
    conv_id ← checked (parse_uuid py "conversation_id" conversation_id)
    open_session
    caller ← resolve_caller_agent sub
    message ← in_session (map_service_errors py) (
        post_message px agent_table_client sub caller.id conv_id message_type payload
          schema_version)
    done (posted_dict conversation_id message)

  module _ (collation : String → String → Bool) where
    unfoldable pub get_conversation_tool : String → ℤ → Option String → Call Dict
    get_conversation_tool conversation_id since_seq agent_key = do
      sub ← checked (caller_sub py found agent_key)
      conv_id ← checked (parse_uuid py "conversation_id" conversation_id)
      reject_if (is_negative since_seq) "invalid_request: since_seq must be >= 0"
      open_session
      caller ← resolve_caller_agent sub
      result ←
          in_session (map_service_errors py)
            (get_conversation collation sub caller.id conv_id (to_nat since_seq))
      done (rename_count (reading_dict py result))

  unfoldable pub inbox_tool : Option String → Call Dict
  inbox_tool agent_key = do
    sub ← checked (caller_sub py found agent_key)
    open_session
    caller ← resolve_caller_agent sub
    result ← in_session unmapped (inbox caller.id)
    done (inbox_dict py result)

  unfoldable pub list_conversations_tool :
      Option String → Option String → Option String → ℤ → Option String → Option String → Call Dict
  list_conversations_tool role type state limit cursor agent_key = do
    sub ← checked (caller_sub py found agent_key)
    role' ← checked (parse_role py role)
    type' ← checked (parse_type py type)
    state' ← checked (parse_state py state)
    open_session
    caller ← resolve_caller_agent sub
    page ←
        in_session (map_service_errors py)
          (list_conversations py caller.id role' type' state' limit cursor)
    done (conversation_page_dict py page)
