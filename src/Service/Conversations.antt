-- ===== src/Service/Conversations.antt =====
-- service.py, conversation lifecycle: start_conversation and what it is made of.
use mathlib.Core.List.{flat_map}
use rh_reclaw.Common.{
  ℕ, ◌+◌, ◌*◌, String, Option, none, some, List, [], ◌∷◌, map, true, false, not, ◌&&◌, ltb, leb,
  length, any, contains, ◌==◌, nat_eq, string_eq, if◌then◌else◌,
}
use rh_reclaw.Common.Json.{Json, Dict, text, nat, array, null, object, Fields, texts, nats}
use rh_reclaw.Common.Result.{ok, err}
use rh_reclaw.Common.Rows.{select}
use rh_reclaw.Common.Text.{len, sorted_set, str_lt}
use rh_reclaw.Models.{
  Agent, AgentStatus, agent_status_eq, Conversation, ConversationState, state_text, ParticipantRole,
  ParticipantStatus,
}
use rh_reclaw.Schemas.{Pydantic, conversation_types, max_accepted_type_length, validate_payload}
use rh_reclaw.StateMachine.{resulting_conversation_state}
use rh_reclaw.Exceptions.{value_error, unknown_conversation_type}
use rh_reclaw.Session.{
  Exec, pure, ◌>>=◌, ◌>>◌, raise, query, write, when, or_else, now, transaction_now, uuid4, commit,
  add_conversation, add_participant, add_message, set_conversation, agent_row,
}
use rh_reclaw.Service.Denials.{audit, deny, deny_rate_limited, deny_bad_schema}
use rh_reclaw.Service.Lookups.{require_active_agent}
use rh_reclaw.Service.Ownership.{OwnershipClient, owner_sets_for, pairwise_admitted}
use rh_reclaw.Service.Gates.{
  require_message_sender_role, enforce_message_type_accepted, enforce_boundary_crossing,
}

abbrev pub hour : ℕ
hour = 3600000000

abbrev day : ℕ
day = 24 * hour

-- `CONVERSATION_TTL[conversation_type]`
unfoldable pub conversation_ttl : String → ℕ
conversation_ttl conversation_type =
    if conversation_type == "open"
    then 7 * day
    else if conversation_type == "asymmetric"
    then 14 * day
    else 30 * day

abbrev pub max_conversation_starts_per_hour : ℕ
max_conversation_starts_per_hour = 10

-- How many conversations the agent has started in the hour before `t`.
abbrev pub recent_starts : ℕ → ℕ → List Conversation → ℕ
recent_starts initiator_id t conversations =
    length (select (λ c. c.created_by == initiator_id && ltb t (c.created_at + hour)) conversations)

unfoldable pub enforce_start_rate_limit : String → Agent → Exec Unit
enforce_start_rate_limit actor_sub initiator = do
  t ← now
  count ← query (λ db. recent_starts initiator.id t db.conversations)
  when (leb max_conversation_starts_per_hour count) (
      deny_rate_limited actor_sub initiator.id none "conversation_starts_per_hour"
        "rate_limited: at most 10 conversation starts per hour")

unfoldable pub resolve_targets : String → Agent → List ℕ → Exec (List Agent)
resolve_targets actor_sub initiator [] = pure []
resolve_targets actor_sub initiator (target_id ∷ rest) = do
  found ← query (agent_row target_id)
  let detail = ("target_agent_id", nat target_id) ∷ []
  target ←
      or_else found (deny actor_sub "denied.unknown_agent" (some initiator.id) none (some detail))
  when (not (target.status == AgentStatus.active))
      (deny actor_sub "denied.unknown_agent" (some initiator.id) none (some detail))
  targets ← resolve_targets actor_sub initiator rest
  pure (target ∷ targets)

-- The snapshot that is persisted, or a denial: part of authorize_conversation_open past `open`.
unfoldable pub admit :
    String → Agent → List ℕ → String → OwnershipClient → Exec (Option (List String))
admit actor_sub initiator participant_ids conversation_type ownership_client = do
  let detail = ("conversation_type", text conversation_type) ∷ []
  resolved ← query (owner_sets_for ownership_client participant_ids)
  owner_sets ←
      or_else resolved
        (deny actor_sub "denied.ownership_unverified" (some initiator.id) none (some detail))
  when (any (λ (e : ℕ × List String). not (any (λ o. true) e.1)) owner_sets)
      (deny actor_sub "denied.ownership_unverified" (some initiator.id) none (some detail))
  when (not (pairwise_admitted conversation_type owner_sets)) (
      deny actor_sub
        (if conversation_type == "internal"
          then "denied.not_same_owner"
          else "denied.no_owner_overlap")
        (some initiator.id) none (some detail))
  pure (some (sorted_set str_lt (flat_map (λ (e : ℕ × List String). e.1) owner_sets)))

unfoldable pub authorize_conversation_open :
    String → Agent → List Agent → String → OwnershipClient → Exec (Option (List String))
authorize_conversation_open actor_sub initiator targets conversation_type ownership_client =
    if conversation_type == "open"
    then pure none
    else admit actor_sub initiator (initiator.id ∷ map (λ (a : Agent). a.id) targets)
        conversation_type ownership_client

-- `try: validate_payload(...) except PayloadValidationError: await _deny_bad_schema(...)`
unfoldable pub validate_or_deny : Pydantic → String → ℕ → Option ℕ → String → ℕ → Dict → Exec Dict
validate_or_deny px actor_sub agent_id conversation_id message_type schema_version payload =
    elim (validate_payload px message_type schema_version payload) [
      | ok validated ↦ pure validated
      | err exc ↦ deny_bad_schema actor_sub agent_id conversation_id message_type exc
    ]

-- The rows of the targets.
unfoldable pub add_targets : ℕ → ℕ → List Agent → Exec Unit
add_targets conversation_id initiator_id [] = pure tt
add_targets conversation_id initiator_id (target ∷ rest) = do
  at ← transaction_now
  add_participant (record {
    conversation_id = conversation_id;
    agent_id = target.id;
    role = ParticipantRole.member;
    status = ParticipantStatus.invited;
    invited_by = some initiator_id;
    invited_at = at;
    joined_at = none;
    last_read_seq = 0;
  })
  add_targets conversation_id initiator_id rest

-- `sorted({t for t in target_agent_ids if t != initiator.id}, key=str)`
unfoldable pub other_targets : ℕ → List ℕ → List ℕ
other_targets initiator_id target_agent_ids =
    sorted_set ltb (select (λ t. not (t == initiator_id)) target_agent_ids)

abbrev snapshot_json : Option (List String) → Json
snapshot_json none = null
snapshot_json (some owners) = object (Fields.field "owners" (array (texts owners)) Fields.end)

-- The end of start_conversation and post_message: the new state, if the message leads to one.
unfoldable pub close_conversation :
    String → ℕ → Conversation → String → Option ConversationState → Exec Conversation
close_conversation actor_sub agent_id conversation message_type none = pure conversation
close_conversation actor_sub agent_id conversation message_type (some new_state) = do
  let closed = record conversation { state = new_state }
  write (set_conversation closed)
  audit actor_sub "conversation.close" (some agent_id) (some conversation.id) none
      (some (("new_state", text (state_text new_state)) ∷ ("via", text message_type) ∷ []))
  pure closed

-- The writes of start_conversation, once every check has passed.
unfoldable pub open_conversation :
    String
    → Agent
    → List Agent
    → String
    → Option (List String)
    → String
    → ℕ
    → Dict
    → Option ℕ
    → Exec Conversation
open_conversation actor_sub initiator targets conversation_type owner_snapshot message_type
      schema_version payload expires_at =
    do
      t ← now
      at ← transaction_now
      id ← uuid4
      let conversation : Conversation = record {
        id = id;
        type = conversation_type;
        state = ConversationState.active;
        created_by = initiator.id;
        expires_at = elim expires_at [ none ↦ t + conversation_ttl conversation_type | some e ↦ e ];
        owner_snapshot = owner_snapshot;
        created_at = at;
      }
      add_conversation conversation
      add_participant (record {
        conversation_id = id;
        agent_id = initiator.id;
        role = ParticipantRole.owner;
        status = ParticipantStatus.active;
        invited_by = none;
        invited_at = at;
        joined_at = some t;
        last_read_seq = 0;
      })
      add_targets id initiator.id targets
      message_id ← uuid4
      add_message (record {
        id = message_id;
        conversation_id = id;
        seq = 1;
        sender_id = initiator.id;
        type = message_type;
        schema_version = schema_version;
        payload = payload;
        created_at = at;
      })
      audit actor_sub "conversation.start" (some initiator.id) (some id) none (
          some (
            ("type", text conversation_type)
            ∷ ("target_agent_ids", array (nats (map (λ (a : Agent). a.id) targets)))
            ∷ ("owner_snapshot", snapshot_json owner_snapshot)
            ∷ []))
      audit actor_sub "message.post" (some initiator.id) (some id) (some message_id)
          (some (("seq", nat 1) ∷ ("message_type", text message_type) ∷ []))
      closed ←
          close_conversation actor_sub initiator.id conversation message_type
            (resulting_conversation_state message_type false)
      commit
      pure closed

unfoldable pub start_conversation :
    Pydantic
    → OwnershipClient
    → String
    → ℕ
    → String
    → List ℕ
    → Dict
    → String
    → ℕ
    → Option ℕ
    → Exec Conversation
start_conversation px ownership_client actor_sub initiator_agent_id conversation_type
      target_agent_ids initial_message message_type schema_version expires_at =
    do
      initiator ← require_active_agent actor_sub initiator_agent_id
      when (ltb max_accepted_type_length (len conversation_type))
          (raise (value_error "conversation_type exceeds 100 characters"))
      when (not (contains conversation_type conversation_types))
          (raise (unknown_conversation_type (conversation_type ∷ [])))
      let target_ids = other_targets initiator.id target_agent_ids
      when (not (any (λ t. true) target_ids))
          (raise (value_error "target_agent_ids must name at least one other agent"))
      enforce_start_rate_limit actor_sub initiator
      targets ← resolve_targets actor_sub initiator target_ids
      owner_snapshot ←
          authorize_conversation_open actor_sub initiator targets conversation_type ownership_client
      payload ←
          validate_or_deny px actor_sub initiator.id none message_type schema_version
            initial_message
      require_message_sender_role actor_sub initiator.id none message_type ParticipantRole.owner
      enforce_message_type_accepted actor_sub initiator.id none
          (map (λ (t : Agent). (t.id, t.accepted_types)) targets) message_type
      enforce_boundary_crossing actor_sub initiator.id conversation_type none
          (map (λ (t : Agent). t.id) targets) message_type schema_version ownership_client
      open_conversation actor_sub initiator targets conversation_type owner_snapshot message_type
          schema_version payload expires_at
