-- ===== src/Models.antt =====
-- models.py: the rows of the five tables. A UUID is a number: its text has a fixed width, so the
-- order of the texts is that of the numbers. A time is a number of microseconds. The vocabularies
-- that a CHECK constraint closes are enumerations; conversation and message types are open texts.
-- `updated_at` and the columns that service.py neither reads nor writes are left out.
use rh_reclaw.Common.{
  ℕ, String, Option, List, ◌≡◌, Bool, true, false, arith, ◌↔◌, HasEq, ==_iff, ◌==◌, nat_eq, ◌&&◌,
}
use rh_reclaw.Common.Json.{Dict}

pub data AgentStatus : Type 0 where
  active suspended : AgentStatus

pub data ConversationState : Type 0 where
  active completed canceled expired : ConversationState

pub data ParticipantRole : Type 0 where
  owner member : ParticipantRole

pub data ParticipantStatus : Type 0 where
  invited active left declined : ParticipantStatus

abbrev pub agent_status_beq : AgentStatus → AgentStatus → Bool
agent_status_beq AgentStatus.active AgentStatus.active = true
agent_status_beq AgentStatus.suspended AgentStatus.suspended = true
agent_status_beq _ _ = false

pub agent_status_beq_iff : (a b : AgentStatus) → (agent_status_beq a b ≡ true) ↔ (a ≡ b)
agent_status_beq_iff AgentStatus.active b = ground arith
agent_status_beq_iff AgentStatus.suspended b = ground arith

instance abbrev pub agent_status_eq : HasEq AgentStatus
agent_status_eq = record { equals = agent_status_beq; equals_iff = agent_status_beq_iff }

abbrev pub state_beq : ConversationState → ConversationState → Bool
state_beq ConversationState.active ConversationState.active = true
state_beq ConversationState.completed ConversationState.completed = true
state_beq ConversationState.canceled ConversationState.canceled = true
state_beq ConversationState.expired ConversationState.expired = true
state_beq _ _ = false

pub state_beq_iff : (a b : ConversationState) → (state_beq a b ≡ true) ↔ (a ≡ b)
state_beq_iff ConversationState.active b = ground arith
state_beq_iff ConversationState.completed b = ground arith
state_beq_iff ConversationState.canceled b = ground arith
state_beq_iff ConversationState.expired b = ground arith

instance abbrev pub state_eq : HasEq ConversationState
state_eq = record { equals = state_beq; equals_iff = state_beq_iff }

abbrev pub role_beq : ParticipantRole → ParticipantRole → Bool
role_beq ParticipantRole.owner ParticipantRole.owner = true
role_beq ParticipantRole.member ParticipantRole.member = true
role_beq _ _ = false

pub role_beq_iff : (a b : ParticipantRole) → (role_beq a b ≡ true) ↔ (a ≡ b)
role_beq_iff ParticipantRole.owner b = ground arith
role_beq_iff ParticipantRole.member b = ground arith

instance abbrev pub role_eq : HasEq ParticipantRole
role_eq = record { equals = role_beq; equals_iff = role_beq_iff }

abbrev pub status_beq : ParticipantStatus → ParticipantStatus → Bool
status_beq ParticipantStatus.invited ParticipantStatus.invited = true
status_beq ParticipantStatus.active ParticipantStatus.active = true
status_beq ParticipantStatus.left ParticipantStatus.left = true
status_beq ParticipantStatus.declined ParticipantStatus.declined = true
status_beq _ _ = false

pub status_beq_iff : (a b : ParticipantStatus) → (status_beq a b ≡ true) ↔ (a ≡ b)
status_beq_iff ParticipantStatus.invited b = ground arith
status_beq_iff ParticipantStatus.active b = ground arith
status_beq_iff ParticipantStatus.left b = ground arith
status_beq_iff ParticipantStatus.declined b = ground arith

instance abbrev pub status_eq : HasEq ParticipantStatus
status_eq = record { equals = status_beq; equals_iff = status_beq_iff }

-- The text of each value, as the database holds it.
abbrev pub state_text : ConversationState → String
state_text ConversationState.active = "active"
state_text ConversationState.completed = "completed"
state_text ConversationState.canceled = "canceled"
state_text ConversationState.expired = "expired"

abbrev pub status_text : ParticipantStatus → String
status_text ParticipantStatus.invited = "invited"
status_text ParticipantStatus.active = "active"
status_text ParticipantStatus.left = "left"
status_text ParticipantStatus.declined = "declined"

abbrev pub role_text : ParticipantRole → String
role_text ParticipantRole.owner = "owner"
role_text ParticipantRole.member = "member"

pub record Agent : Type 0 where
  pub id : ℕ
  pub sub : String
  pub owner_sub : String
  pub owner_email : String
  pub display_name : String
  pub accepted_types : List String
  pub status : AgentStatus
  pub bound_at : Option ℕ

pub record Conversation : Type 0 where
  pub id : ℕ
  pub type : String
  pub state : ConversationState
  pub created_by : ℕ
  pub expires_at : ℕ
  pub owner_snapshot : Option (List String)
  pub created_at : ℕ

pub record Participant : Type 0 where
  pub conversation_id : ℕ
  pub agent_id : ℕ
  pub role : ParticipantRole
  pub status : ParticipantStatus
  pub invited_by : Option ℕ
  pub invited_at : ℕ
  pub joined_at : Option ℕ
  pub last_read_seq : ℕ

pub record Message : Type 0 where
  pub id : ℕ
  pub conversation_id : ℕ
  pub seq : ℕ
  pub sender_id : ℕ
  pub type : String
  pub schema_version : ℕ
  pub payload : Dict
  pub created_at : ℕ

pub record AuditLog : Type 0 where
  pub at : ℕ
  pub actor_sub : String
  pub action : String
  pub agent_id : Option ℕ
  pub conversation_id : Option ℕ
  pub message_id : Option ℕ
  pub detail : Option Dict

-- The tables, each with its newest row first.
pub record Db : Type 0 where
  pub agents : List Agent
  pub conversations : List Conversation
  pub participants : List Participant
  pub messages : List Message
  pub audit_log : List AuditLog

-- The primary key of `participants`.
abbrev pub participant_key : Participant → ℕ × ℕ
participant_key p = (p.conversation_id, p.agent_id)

abbrev pub pair_beq : ℕ × ℕ → ℕ × ℕ → Bool
pair_beq (a, b) (c, d) = (a == c) && (b == d)

pub pair_beq_iff : (p q : ℕ × ℕ) → (pair_beq p q ≡ true) ↔ (p ≡ q)
pair_beq_iff (a, b) (c, d) = ground (arith, ==_iff a c, ==_iff b d)

instance abbrev pub pair_eq : HasEq (ℕ × ℕ)
pair_eq = record { equals = pair_beq; equals_iff = pair_beq_iff }
