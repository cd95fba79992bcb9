-- ===== src/Service/Messages.antt =====
-- service.py: post_message and what it is made of. `SELECT ... FOR UPDATE` makes the posts to one
-- conversation run one after another, as the transactions of the model do.
use Prim.Native.Nat.{max}
use rh_reclaw.Common.{
  ℕ, ◌+◌, String, Option, none, some, List, [], ◌∷◌, Bool, true, false, not, ◌&&◌, ◌||◌, ltb, leb,
  length, any, all, contains, ◌==◌, nat_eq, string_eq, if◌then◌else◌,
}
use rh_reclaw.Common.Json.{Dict, text, nat, null, Json, get, to_int}
use rh_reclaw.Common.Rows.{select, find_row}
use rh_reclaw.Models.{
  Db, Agent, Conversation, Participant, Message, ParticipantRole, role_eq, ParticipantStatus,
  status_eq,
}
use rh_reclaw.Schemas.{Pydantic, no_prior_message}
use rh_reclaw.StateMachine.{is_message_legal, resulting_conversation_state}
use rh_reclaw.Session.{
  Exec, pure, ◌>>=◌, ◌>>◌, query, write, when, now, transaction_now, uuid4, commit, set_participant,
  add_message,
}
use rh_reclaw.Service.Denials.{audit, deny_bad_state, deny_rate_limited, deny_bad_schema}
use rh_reclaw.Service.Lookups.{require_active_agent, load_participant_for_transition}
use rh_reclaw.Service.Ownership.{OwnershipClient}
use rh_reclaw.Service.Gates.{
  require_message_sender_role, enforce_message_type_accepted, enforce_boundary_crossing,
}
use rh_reclaw.Service.Conversations.{hour, validate_or_deny, close_conversation}

abbrev pub max_messages_per_conversation_per_hour : ℕ
max_messages_per_conversation_per_hour = 30

-- How many messages the agent has posted to the conversation in the hour before `t`.
abbrev pub recent_messages : ℕ → ℕ → ℕ → List Message → ℕ
recent_messages conversation_id sender_agent_id t messages = length (
    select
      (λ m.
        m.conversation_id == conversation_id
        && m.sender_id == sender_agent_id
        && ltb t (m.created_at + hour))
      messages)

unfoldable pub enforce_message_rate_limit : String → ℕ → Conversation → Exec Unit
enforce_message_rate_limit actor_sub sender_agent_id conversation = do
  t ← now
  count ← query (λ db. recent_messages conversation.id sender_agent_id t db.messages)
  when (leb max_messages_per_conversation_per_hour count) (
      deny_rate_limited actor_sub sender_agent_id (some conversation.id)
        "messages_per_conversation_per_hour"
        "rate_limited: at most 30 messages per conversation per hour")

-- The members of a conversation: its rows with `role = 'member'`.
abbrev pub members : ℕ → Db → List Participant
members conversation_id db =
    select (λ p. p.conversation_id == conversation_id && p.role == ParticipantRole.member)
      db.participants

unfoldable pub all_non_owners_declined : ℕ → Db → Bool
all_non_owners_declined conversation_id db =
    any (λ p. true) (members conversation_id db)
    && all (λ (p : Participant). p.status == ParticipantStatus.declined)
        (members conversation_id db)

-- `participants JOIN agents`: the id, status and accepted types of each row.
unfoldable pub join_agents :
    List Participant → List Agent → List (ℕ × ParticipantStatus × List String)
join_agents [] agents = []
join_agents (p ∷ ps) agents =
    let rest = join_agents ps agents in
    elim (find_row (λ (a : Agent). a.id) p.agent_id agents) [
      | none ↦ rest
      | some a ↦ (p.agent_id, p.status, a.accepted_types) ∷ rest
    ]

-- The other participants of the conversation that are active or invited.
abbrev pub other_participants : ℕ → ℕ → Db → List Participant
other_participants conversation_id sender_agent_id db =
    select
      (λ p.
        p.conversation_id == conversation_id
        && not (p.agent_id == sender_agent_id)
        && (p.status == ParticipantStatus.active || p.status == ParticipantStatus.invited))
      db.participants

abbrev pub row_ids : List (ℕ × ParticipantStatus × List String) → List ℕ
row_ids [] = []
row_ids ((i, s, accepted) ∷ rows) = i ∷ row_ids rows

-- `[(agent_id, accepted) for agent_id, status, accepted in rows if status == "active"]`
abbrev pub active_rows : List (ℕ × ParticipantStatus × List String) → List (ℕ × List String)
active_rows [] = []
active_rows ((i, s, accepted) ∷ rows) =
    let rest = active_rows rows in
    if s == ParticipantStatus.active then (i, accepted) ∷ rest else rest

unfoldable pub check_boundary_crossing :
    String → ℕ → Conversation → String → ℕ → OwnershipClient → Exec Unit
check_boundary_crossing actor_sub sender_agent_id conversation message_type schema_version
      ownership_client =
    do
      rows ←
          query
            (λ db. join_agents (other_participants conversation.id sender_agent_id db) db.agents)
      enforce_message_type_accepted actor_sub sender_agent_id (some conversation.id)
          (active_rows rows) message_type
      enforce_boundary_crossing actor_sub sender_agent_id conversation.type (some conversation.id)
          (row_ids rows) message_type schema_version ownership_client

-- `SELECT coalesce(max(seq), 0)`
unfoldable pub max_seq : ℕ → List Message → ℕ
max_seq conversation_id [] = 0
max_seq conversation_id (m ∷ ms) =
    let rest = max_seq conversation_id ms in
    if m.conversation_id == conversation_id then max m.seq rest else rest

unfoldable pub check_about_seq : String → ℕ → Conversation → String → Dict → ℕ → Exec Unit
check_about_seq actor_sub sender_agent_id conversation message_type validated next_seq =
    let about_seq = to_int (get "about_seq" validated) in
    when (message_type == "needs_clarification" && leb next_seq about_seq) (
      deny_bad_schema actor_sub sender_agent_id (some conversation.id) message_type
        (no_prior_message about_seq))

abbrev pub or_null : Option Json → Json
or_null none = null
or_null (some j) = j

-- `decline`: the sender's own status, and the conversation's once all members have declined.
unfoldable pub apply_decline : String → ℕ → Conversation → Participant → Dict → Exec Conversation
apply_decline actor_sub sender_agent_id conversation participant validated = do
  write (set_participant (record participant { status = ParticipantStatus.declined }))
  audit actor_sub "participant.decline" (some sender_agent_id) (some conversation.id) none
      (some (("reason", or_null (get "reason" validated)) ∷ []))
  all_declined ← query (all_non_owners_declined conversation.id)
  close_conversation actor_sub sender_agent_id conversation "decline"
      (resulting_conversation_state "decline" all_declined)

-- The state-machine side effects of a posted message.
unfoldable pub apply_effects :
    String → ℕ → Conversation → Participant → String → Dict → Exec Conversation
apply_effects actor_sub sender_agent_id conversation participant message_type validated =
    if message_type == "decline"
    then apply_decline actor_sub sender_agent_id conversation participant validated
    else if contains message_type
        ("confirm" ∷ "task_complete" ∷ "task_decline" ∷ "task_cancel" ∷ [])
    then close_conversation actor_sub sender_agent_id conversation message_type
        (resulting_conversation_state message_type false)
    else pure conversation

-- The message is written under the next number, and its effects are applied.
unfoldable pub append_message :
    String → ℕ → Conversation → Participant → String → ℕ → Dict → Exec Message
append_message actor_sub sender_agent_id conversation participant message_type schema_version
      validated =
    do
      highest ← query (λ db. max_seq conversation.id db.messages)
      let next_seq = highest + 1
      check_about_seq actor_sub sender_agent_id conversation message_type validated next_seq
      at ← transaction_now
      id ← uuid4
      let message : Message = record {
        id = id;
        conversation_id = conversation.id;
        seq = next_seq;
        sender_id = sender_agent_id;
        type = message_type;
        schema_version = schema_version;
        payload = validated;
        created_at = at;
      }
      add_message message
      audit actor_sub "message.post" (some sender_agent_id) (some conversation.id) (some id)
          (some (("seq", nat next_seq) ∷ ("message_type", text message_type) ∷ []))
      apply_effects actor_sub sender_agent_id conversation participant message_type validated
      commit
      pure message

unfoldable pub post_message :
    Pydantic → OwnershipClient → String → ℕ → ℕ → String → Dict → ℕ → Exec Message
post_message px ownership_client actor_sub sender_agent_id conversation_id message_type payload
      schema_version =
    do
      require_active_agent actor_sub sender_agent_id
      (conversation, participant) ←
          load_participant_for_transition actor_sub sender_agent_id conversation_id
            ParticipantStatus.active
      enforce_message_rate_limit actor_sub sender_agent_id conversation
      when (not (is_message_legal conversation.state message_type))
          (deny_bad_state actor_sub sender_agent_id conversation.id conversation.state message_type)
      require_message_sender_role actor_sub sender_agent_id (some conversation.id) message_type
          participant.role
      validated ←
          validate_or_deny px actor_sub sender_agent_id (some conversation.id) message_type
            schema_version payload
      check_boundary_crossing actor_sub sender_agent_id conversation message_type schema_version
          ownership_client
      append_message actor_sub sender_agent_id conversation participant message_type schema_version
          validated
