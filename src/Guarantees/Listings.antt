-- ===== src/Guarantees/Listings.antt =====
-- The listings leave the tables as they are.
use rh_reclaw.Common.{ℕ, String, Option, none, some, List, [], ◌∷◌, Bool, ◌==◌, string_eq}
use rh_reclaw.Common.Stdlib.{Stdlib, ℤ, Datetime, naive, aware}
use rh_reclaw.Models.{Conversation, ConversationState, state_eq, ParticipantRole, Participant}
use rh_reclaw.Session.Reading.{
  ReadOnly, ReadOnly-pure, ReadOnly-raise, ReadOnly-query, ReadOnly-if, ReadOnly-now, ReadOnly->>=,
}
use rh_reclaw.Service.Reads.{conversation_dict, MessageView}
use rh_reclaw.Service.Lookups.{get_agent_by_sub}
use rh_reclaw.Service.Listings.{
  list_agents, state_time, conversation_dicts, cursor_place, cursor_of_parts, read_cursor,
  conversation_cursor, list_conversations,
}
use rh_reclaw.Service.Inbox.{UnreadRow, require_latest, unread_views, invite_views, inbox}

pub ReadOnly-get_agent_by_sub : (sub : String) → ReadOnly (get_agent_by_sub sub)
unfolding get_agent_by_sub
ReadOnly-get_agent_by_sub sub = ReadOnly-query _

pub ReadOnly-conversation_dict : (c : Conversation) → ReadOnly (conversation_dict c)
unfolding conversation_dict
ReadOnly-conversation_dict c =
    ReadOnly-if (c.state == ConversationState.active)
      (ReadOnly->>= ReadOnly-now λ t. ReadOnly-pure _) (ReadOnly-pure _)

ReadOnly-conversation_dicts : (cs : List Conversation) → ReadOnly (conversation_dicts cs)
unfolding conversation_dicts
ReadOnly-conversation_dicts [] = ReadOnly-pure _
ReadOnly-conversation_dicts (c ∷ cs) =
    ReadOnly->>= (ReadOnly-conversation_dict c)
      λ shown. ReadOnly->>= (ReadOnly-conversation_dicts cs) λ rest. ReadOnly-pure _

pub ReadOnly-list_agents :
    (collation : String → String → Bool) (limit : ℤ) (cursor : Option String)
    → ReadOnly (list_agents collation limit cursor)
unfolding list_agents
ReadOnly-list_agents collation limit cursor = ReadOnly-query _

ReadOnly-state_time : (state : Option ConversationState) → ReadOnly (state_time state)
unfolding state_time
ReadOnly-state_time none = ReadOnly-pure _
ReadOnly-state_time (some ConversationState.active) = ReadOnly-now
ReadOnly-state_time (some ConversationState.expired) = ReadOnly-now
ReadOnly-state_time (some ConversationState.completed) = ReadOnly-pure _
ReadOnly-state_time (some ConversationState.canceled) = ReadOnly-pure _

ReadOnly-require_latest : (m : Option MessageView) → ReadOnly (require_latest m)
unfolding require_latest
ReadOnly-require_latest none = ReadOnly-raise _
ReadOnly-require_latest (some m) = ReadOnly-pure _

ReadOnly-unread_views : (rows : List UnreadRow) → ReadOnly (unread_views rows)
unfolding unread_views
ReadOnly-unread_views [] = ReadOnly-pure _
ReadOnly-unread_views (r ∷ rs) = ReadOnly->>= (ReadOnly-query _) λ found.
    ReadOnly->>= (ReadOnly-require_latest found) λ latest.
      ReadOnly->>= (ReadOnly-conversation_dict _)
        λ shown. ReadOnly->>= (ReadOnly-unread_views rs) λ rest. ReadOnly-pure _

ReadOnly-invite_views : (rows : List (Conversation × Participant)) → ReadOnly (invite_views rows)
unfolding invite_views
ReadOnly-invite_views [] = ReadOnly-pure _
ReadOnly-invite_views ((c, p) ∷ rows) =
    ReadOnly->>= (ReadOnly-conversation_dict c)
      λ shown. ReadOnly->>= (ReadOnly-invite_views rows) λ rest. ReadOnly-pure _

pub ReadOnly-inbox : (caller_agent_id : ℕ) → ReadOnly (inbox caller_agent_id)
unfolding inbox
ReadOnly-inbox caller_agent_id = ReadOnly->>= (ReadOnly-query _) λ rows.
    ReadOnly->>= (ReadOnly-unread_views rows) λ unread.
      ReadOnly->>= (ReadOnly-query _)
        λ pending. ReadOnly->>= (ReadOnly-invite_views pending) λ pending_invites. ReadOnly-pure _

module _ (py : Stdlib) where
  ReadOnly-cursor_place :
      (cursor : String) (t : Option Datetime) (id : Option ℕ)
      → ReadOnly (cursor_place py cursor t id)
  unfolding cursor_place
  ReadOnly-cursor_place cursor none id = ReadOnly-raise _
  ReadOnly-cursor_place cursor (some t) none = ReadOnly-raise _
  ReadOnly-cursor_place cursor (some (naive ts)) (some id) = ReadOnly-pure _
  ReadOnly-cursor_place cursor (some (aware ts)) (some id) = ReadOnly-pure _

  ReadOnly-cursor_of_parts :
      (cursor : String) (parts : Option (String × String))
      → ReadOnly (cursor_of_parts py cursor parts)
  unfolding cursor_of_parts
  ReadOnly-cursor_of_parts cursor none = ReadOnly-raise _
  ReadOnly-cursor_of_parts cursor (some (ts_part, id_part)) = ReadOnly-cursor_place cursor _ _

  ReadOnly-read_cursor : (cursor : String) → ReadOnly (read_cursor py cursor)
  unfolding read_cursor
  ReadOnly-read_cursor cursor = ReadOnly-cursor_of_parts cursor _

  ReadOnly-conversation_cursor : (cursor : Option String) → ReadOnly (conversation_cursor py cursor)
  unfolding conversation_cursor
  ReadOnly-conversation_cursor none = ReadOnly-pure _
  ReadOnly-conversation_cursor (some cursor) =
      ReadOnly-if (cursor == "") (ReadOnly-pure _)
        (ReadOnly->>= (ReadOnly-read_cursor cursor) λ place. ReadOnly-pure _)

  pub ReadOnly-list_conversations :
      (caller_agent_id : ℕ) (role : Option ParticipantRole) (conversation_type : Option String)
      (state : Option ConversationState) (limit : ℤ) (cursor : Option String)
      → ReadOnly (list_conversations py caller_agent_id role conversation_type state limit cursor)
  unfolding list_conversations
  ReadOnly-list_conversations caller_agent_id role conversation_type state limit cursor =
      ReadOnly->>= (ReadOnly-state_time state) λ t.
        ReadOnly->>= (ReadOnly-conversation_cursor cursor) λ place.
          ReadOnly->>= (ReadOnly-query _)
            λ rows. ReadOnly->>= (ReadOnly-conversation_dicts _) λ shown. ReadOnly-pure _
