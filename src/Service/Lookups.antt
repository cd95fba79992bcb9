-- ===== src/Service/Lookups.antt =====
-- service.py, lookups: rows by key, lazy expiry, and the loading of a caller's membership. The row
-- lock that `for_update` takes has no part in the model, where transactions run one by one.
use Prim.Native.String.{◌++◌}
use mathlib.Core.Option
use rh_reclaw.Common.{
  ℕ, String, Option, none, some, [], ◌∷◌, not, ◌||◌, leb, ◌==◌, string_eq, if◌then◌else◌,
}
use rh_reclaw.Common.Json.{text, nat}
use rh_reclaw.Common.Rows.{find_row}
use rh_reclaw.Models.{
  Agent, Conversation, Participant, AgentStatus, agent_status_eq, ConversationState, state_eq,
  ParticipantStatus, status_eq, status_text,
}
use rh_reclaw.Session.{
  Exec, pure, ◌>>=◌, ◌>>◌, query, write, when, or_else, now, set_conversation, agent_row,
  conversation_row, participant_row,
}
use rh_reclaw.Service.Denials.{audit, deny}

unfoldable pub find_agent_by_id : ℕ → Exec (Option Agent)
find_agent_by_id agent_id = query (agent_row agent_id)

unfoldable pub get_agent_by_sub : String → Exec (Option Agent)
get_agent_by_sub sub = query (λ db. find_row (λ (a : Agent). a.sub) sub db.agents)

unfoldable pub fk_safe_agent_id : ℕ → Exec (Option ℕ)
fk_safe_agent_id agent_id = query (λ db. Option.map (λ (a : Agent). a.id) (agent_row agent_id db))

unfoldable pub find_conversation : ℕ → Exec (Option Conversation)
find_conversation conversation_id = query (conversation_row conversation_id)

unfoldable pub find_participant : ℕ → ℕ → Exec (Option Participant)
find_participant conversation_id agent_id = query (participant_row conversation_id agent_id)

-- The flip of maybe_expire.
unfoldable pub expire : String → Conversation → Exec Conversation
expire actor_sub conversation = do
  let expired = record conversation { state = ConversationState.expired }
  write (set_conversation expired)
  audit actor_sub "conversation.expire" none (some conversation.id) none none
  pure expired

unfoldable pub maybe_expire : String → Conversation → Exec Conversation
maybe_expire actor_sub conversation =
    if conversation.state == ConversationState.active
    then (do
      t ← now
      if leb conversation.expires_at t then expire actor_sub conversation else pure conversation)
    else pure conversation

unfoldable pub require_active_agent : String → ℕ → Exec Agent
require_active_agent actor_sub agent_id = do
  found ← find_agent_by_id agent_id
  agent ← or_else found (deny actor_sub "denied.unknown_agent" none none none)
  when (not (agent.status == AgentStatus.active))
      (deny actor_sub "denied.unknown_agent" (some agent.id) none none)
  pure agent

-- `await _find_participant(...) if conversation else None`
unfoldable pub find_member : Option Conversation → ℕ → ℕ → Exec (Option Participant)
find_member none conversation_id agent_id = pure none
find_member (some c) conversation_id agent_id = find_participant conversation_id agent_id

-- The first denial of both loaders: no conversation, or no participant row.
unfoldable pub require_member :
    String → ℕ → Option Conversation → Option Participant → Exec (Conversation × Participant)
require_member actor_sub agent_id (some c) (some p) = pure (c, p)
require_member actor_sub agent_id found _ = do
  safe ← fk_safe_agent_id agent_id
  deny actor_sub "denied.not_member" safe (Option.map (λ (c : Conversation). c.id) found)
      (some (("attempted_agent_id", nat agent_id) ∷ []))

unfoldable pub wrong_state : String → String
wrong_state status = "denied.wrong_state." ++ status

unfoldable pub load_participant_for_transition :
    String → ℕ → ℕ → ParticipantStatus → Exec (Conversation × Participant)
load_participant_for_transition actor_sub agent_id conversation_id required_status = do
  found ← find_conversation conversation_id
  membership ← find_member found conversation_id agent_id
  (conversation, participant) ← require_member actor_sub agent_id found membership
  conversation' ← maybe_expire actor_sub conversation
  when (not (participant.status == required_status)) (
      deny actor_sub (wrong_state (status_text participant.status)) (some agent_id)
        (some conversation'.id)
        (some (
          ("required_status", text (status_text required_status))
          ∷ ("current_status", text (status_text participant.status))
          ∷ [])))
  pure (conversation', participant)

unfoldable pub load_participant_for_read : String → ℕ → ℕ → Exec (Conversation × Participant)
load_participant_for_read actor_sub agent_id conversation_id = do
  found ← find_conversation conversation_id
  membership ← find_member found conversation_id agent_id
  (conversation, participant) ← require_member actor_sub agent_id found membership
  when
      (participant.status == ParticipantStatus.left
        || participant.status == ParticipantStatus.declined)
      (deny actor_sub (wrong_state (status_text participant.status)) (some agent_id)
        (some conversation.id)
        (some (("current_status", text (status_text participant.status)) ∷ [])))
  conversation' ← maybe_expire actor_sub conversation
  pure (conversation', participant)
