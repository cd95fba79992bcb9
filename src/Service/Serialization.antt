-- ===== src/Service/Serialization.antt =====
-- service.py, serialization helpers: the dicts that the service returns.
use rh_reclaw.Common.{ℕ, String, Option, none, some, List, [], ◌∷◌, ◌++◌, length}
use rh_reclaw.Common.Json.{
  Json, null, bool, nat, text, array, object, Items, nil, cons, Fields, end, field, Dict, texts,
}
use rh_reclaw.Common.Stdlib.{Stdlib}
use rh_reclaw.Models.{Agent, AgentStatus, state_text, role_text, status_text}
use rh_reclaw.Service.Reads.{ParticipantView, MessageView, ConversationView, Reading}
use rh_reclaw.Service.Listings.{AgentPage, ConversationPage}
use rh_reclaw.Service.Inbox.{UnreadView, InviteView, Inbox}

abbrev pub agent_status_text : AgentStatus → String
agent_status_text AgentStatus.active = "active"
agent_status_text AgentStatus.suspended = "suspended"

-- `[f(x) for x in xs]`
unfoldable pub items : {A : Type 0} → (A → Json) → List A → Items
items f [] = nil
items f (x ∷ xs) = cons (f x) (items f xs)

unfoldable pub fields_of : Dict → Fields
fields_of [] = end
fields_of ((k, v) ∷ d) = field k v (fields_of d)

abbrev pub optional_text : Option String → Json
optional_text none = null
optional_text (some s) = text s

module _ (py : Stdlib) where
  abbrev pub id_text : ℕ → Json
  id_text id = text (py.uuid_text id)

  -- `str(id) if id else None`
  abbrev pub optional_id : Option ℕ → Json
  optional_id none = null
  optional_id (some id) = id_text id

  -- `_iso`
  unfoldable pub iso : Option ℕ → Json
  iso none = null
  iso (some t) = text (py.isoformat t)

  unfoldable pub agent_public : Agent → Dict
  agent_public agent =
      ("agent_id", id_text agent.id)
      ∷ ("sub", text agent.sub)
      ∷ ("display_name", text agent.display_name)
      ∷ ("owner_email", text agent.owner_email)
      ∷ ("accepted_types", array (texts agent.accepted_types))
      ∷ ("status", text (agent_status_text agent.status))
      ∷ []

  -- The dict of `_conversation_dict`, of the reconciled state.
  unfoldable pub conversation_fields : ConversationView → Dict
  conversation_fields v =
      ("conversation_id", id_text v.conversation.id)
      ∷ ("type", text v.conversation.type)
      ∷ ("state", text (state_text v.state))
      ∷ ("created_by", id_text v.conversation.created_by)
      ∷ ("expires_at", iso (some v.conversation.expires_at))
      ∷ ("created_at", iso (some v.conversation.created_at))
      ∷ []

  unfoldable pub message_dict : MessageView → Dict
  message_dict v =
      ("seq", nat v.message.seq)
      ∷ ("sender_agent_id", id_text v.message.sender_id)
      ∷ ("sender_sub", text v.sender_sub)
      ∷ ("type", text v.message.type)
      ∷ ("schema_version", nat v.message.schema_version)
      ∷ ("payload", object (fields_of v.message.payload))
      ∷ ("created_at", iso (some v.message.created_at))
      ∷ []

  unfoldable pub participant_dict : ParticipantView → Dict
  participant_dict v =
      ("agent_id", id_text v.agent_id)
      ∷ ("sub", text v.sub)
      ∷ ("display_name", text v.display_name)
      ∷ ("role", text (role_text v.role))
      ∷ ("status", text (status_text v.status))
      ∷ ("invited_by", optional_id v.invited_by)
      ∷ []

  abbrev object_of : {A : Type 0} → (A → Dict) → A → Json
  object_of f a = object (fields_of (f a))

  -- The end of the dict of get_conversation.
  abbrev reading_tail : Reading → Option ℕ → Dict
  reading_tail r none = ("invited_by", optional_id r.invited_by) ∷ []
  reading_tail r (some last_read_seq) =
      ("total_count", nat (length r.messages)) ∷ ("last_read_seq", nat last_read_seq) ∷ []

  unfoldable pub reading_dict : Reading → Dict
  reading_dict r =
      ("conversation", object_of conversation_fields r.conversation)
      ∷ ("participants", array (items (object_of participant_dict) r.participants))
      ∷ ("messages", array (items (object_of message_dict) r.messages))
      ∷ ("invited", bool r.invited)
      ∷ reading_tail r r.last_read_seq

  unfoldable pub agent_page_dict : AgentPage → Dict
  agent_page_dict page =
      ("agents", array (items (object_of agent_public) page.agents))
      ∷ ("total_count", nat page.total_count)
      ∷ ("has_more", bool page.has_more)
      ∷ ("next_cursor", optional_text page.next_cursor)
      ∷ []

  unfoldable pub conversation_page_dict : ConversationPage → Dict
  conversation_page_dict page =
      ("conversations", array (items (object_of conversation_fields) page.conversations))
      ∷ ("has_more", bool page.has_more)
      ∷ ("next_cursor", optional_text page.next_cursor)
      ∷ []

  unfoldable pub unread_dict : UnreadView → Dict
  unread_dict v =
      conversation_fields v.conversation
      ++ ("unread_count", nat v.unread_count)
        ∷ ("last_read_seq", nat v.last_read_seq)
        ∷ ("latest_message", object_of message_dict v.latest_message)
        ∷ []

  unfoldable pub invite_dict : InviteView → Dict
  invite_dict v =
      conversation_fields v.conversation
      ++ ("invited_by", optional_id v.invited_by) ∷ ("invited_at", iso (some v.invited_at)) ∷ []

  unfoldable pub inbox_dict : Inbox → Dict
  inbox_dict b =
      ("unread", array (items (object_of unread_dict) b.unread))
      ∷ ("pending_invites", array (items (object_of invite_dict) b.pending_invites))
      ∷ ("total_count", nat b.total_count)
      ∷ []
