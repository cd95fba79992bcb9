-- ===== src/Service/Membership.antt =====
-- service.py: accept_invite, decline_invite, invite and leave.
use rh_reclaw.Common.{
  ℕ, String, Option, none, some, List, [], ◌∷◌, true, not, ◌||◌, any, ◌==◌, string_eq,
  if◌then◌else◌,
}
use rh_reclaw.Common.Json.{text, nat}
use rh_reclaw.Models.{
  Agent, AgentStatus, agent_status_eq, Conversation, ConversationState, state_eq, state_text,
  Participant, ParticipantRole, ParticipantStatus, status_text,
}
use rh_reclaw.StateMachine.{subset}
use rh_reclaw.Session.{
  Exec, pure, ◌>>=◌, ◌>>◌, query, write, when, or_else, now, transaction_now, commit,
  set_participant, add_participant,
}
use rh_reclaw.Service.Denials.{audit, deny, deny_bad_state}
use rh_reclaw.Service.Lookups.{
  find_agent_by_id, find_participant, load_participant_for_transition, wrong_state,
}
use rh_reclaw.Service.Ownership.{OwnershipClient, owners_of, may_invite}

unfoldable pub accept_invite : String → ℕ → ℕ → Exec Participant
accept_invite actor_sub agent_id conversation_id = do
  (conversation, participant) ←
      load_participant_for_transition actor_sub agent_id conversation_id ParticipantStatus.invited
  when
      (conversation.state == ConversationState.completed
        || conversation.state == ConversationState.canceled)
      (deny actor_sub (wrong_state (state_text conversation.state)) (some agent_id)
        (some conversation.id) none)
  t ← now
  let accepted = record participant { status = ParticipantStatus.active; joined_at = some t }
  write (set_participant accepted)
  audit actor_sub "participant.accept" (some agent_id) (some conversation.id) none none
  commit
  pure accepted

unfoldable pub decline_invite : String → ℕ → ℕ → Exec Unit
decline_invite actor_sub agent_id conversation_id = do
  (conversation, participant) ←
      load_participant_for_transition actor_sub agent_id conversation_id ParticipantStatus.invited
  write (set_participant (record participant { status = ParticipantStatus.declined }))
  audit actor_sub "participant.decline_invite" (some agent_id) (some conversation.id) none none
  commit
  pure tt

-- `(conversation.owner_snapshot or {}).get("owners") or []`
abbrev pub snapshot_owners : Conversation → List String
snapshot_owners conversation = elim conversation.owner_snapshot [ none ↦ [] | some owners ↦ owners ]

-- Past the test for `open`.
unfoldable pub check_owner_freeze : String → ℕ → Conversation → Agent → OwnershipClient → Exec Unit
check_owner_freeze actor_sub inviter_agent_id conversation target ownership_client = do
  let detail = ("target_agent_id", nat target.id) ∷ []
  resolved ← query (ownership_client target.id)
  info ← or_else resolved (
      deny actor_sub "denied.ownership_unverified" (some inviter_agent_id) (some conversation.id)
        (some detail))
  when (not (any (λ o. true) (owners_of info))) (
      deny actor_sub "denied.ownership_unverified" (some inviter_agent_id) (some conversation.id)
        (some detail))
  when (not (subset (owners_of info) (snapshot_owners conversation))) (
      deny actor_sub "denied.owner_set_frozen" (some inviter_agent_id) (some conversation.id)
        (some detail))

unfoldable pub authorize_invite_owner_freeze :
    String → ℕ → Conversation → Agent → OwnershipClient → Exec Unit
authorize_invite_owner_freeze actor_sub inviter_agent_id conversation target ownership_client =
    if conversation.type == "open"
    then pure tt
    else check_owner_freeze actor_sub inviter_agent_id conversation target ownership_client

-- The denial of a target that has a row already; its `detail` names that row's status.
unfoldable pub deny_existing : String → ℕ → ℕ → ℕ → Option Participant → Exec Unit
deny_existing actor_sub inviter_agent_id conversation_id target_agent_id none = pure tt
deny_existing actor_sub inviter_agent_id conversation_id target_agent_id (some existing) =
    deny actor_sub "denied.already_participant" (some inviter_agent_id) (some conversation_id) (
      some (
        ("target_agent_id", nat target_agent_id)
        ∷ ("current_status", text (status_text existing.status))
        ∷ []))

unfoldable pub invite : OwnershipClient → String → ℕ → ℕ → ℕ → Exec Participant
invite ownership_client actor_sub inviter_agent_id conversation_id target_agent_id = do
  (conversation, inviter) ←
      load_participant_for_transition actor_sub inviter_agent_id conversation_id
        ParticipantStatus.active
  when (not (may_invite inviter.status)) (
      deny actor_sub "denied.invite_not_allowed" (some inviter_agent_id) (some conversation.id)
        none)
  when (not (conversation.state == ConversationState.active))
      (deny_bad_state actor_sub inviter_agent_id conversation.id conversation.state "invite")
  found ← find_agent_by_id target_agent_id
  let detail = ("target_agent_id", nat target_agent_id) ∷ []
  target ← or_else found (
      deny actor_sub "denied.unknown_agent" (some inviter_agent_id) (some conversation.id)
        (some detail))
  when (not (target.status == AgentStatus.active)) (
      deny actor_sub "denied.unknown_agent" (some inviter_agent_id) (some conversation.id)
        (some detail))
  authorize_invite_owner_freeze actor_sub inviter_agent_id conversation target ownership_client
  existing ← find_participant conversation.id target.id
  deny_existing actor_sub inviter_agent_id conversation.id target_agent_id existing
  at ← transaction_now
  let participant : Participant = record {
    conversation_id = conversation.id;
    agent_id = target.id;
    role = ParticipantRole.member;
    status = ParticipantStatus.invited;
    invited_by = some inviter_agent_id;
    invited_at = at;
    joined_at = none;
    last_read_seq = 0;
  }
  add_participant participant
  audit actor_sub "participant.invite" (some target.id) (some conversation.id) none
      (some (("invited_by_agent_id", nat inviter_agent_id) ∷ []))
  commit
  pure participant

unfoldable pub leave : String → ℕ → ℕ → Exec Unit
leave actor_sub agent_id conversation_id = do
  (conversation, participant) ←
      load_participant_for_transition actor_sub agent_id conversation_id ParticipantStatus.active
  write (set_participant (record participant { status = ParticipantStatus.left }))
  audit actor_sub "participant.leave" (some agent_id) (some conversation.id) none none
  commit
  pure tt
