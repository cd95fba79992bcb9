-- ===== src/Board/Steps.antt =====
-- How the tables may change from one state to a later one.
use rh_reclaw.Common.{
  ◌≡◌, refl, sym, ◌∙◌, ap, ◌≤◌, List, [], ◌∷◌, ◌++◌, Bool, true, false, arith, ◌==◌, nat_eq,
  string_eq,
}
use mathlib.Core.List.{append_assoc}
use rh_reclaw.Common.Rows.{Persists, Persists-refl, Persists-trans}
use rh_reclaw.Models.{
  Agent, Conversation, ConversationState, state_eq, Participant, ParticipantStatus, participant_key,
  pair_eq, Db,
}

-- The state machine of a conversation: only `active` is ever left.
abbrev pub may_become : ConversationState → ConversationState → Bool
may_become ConversationState.active b = true
may_become a b = a == b

-- The state machine of a membership: `invited` leads anywhere, `active` out, and nothing leads back.
abbrev pub may_turn : ParticipantStatus → ParticipantStatus → Bool
may_turn ParticipantStatus.invited b = true
may_turn ParticipantStatus.active ParticipantStatus.active = true
may_turn ParticipantStatus.active ParticipantStatus.left = true
may_turn ParticipantStatus.active ParticipantStatus.declined = true
may_turn ParticipantStatus.left ParticipantStatus.left = true
may_turn ParticipantStatus.declined ParticipantStatus.declined = true
may_turn _ _ = false

pub may_become_refl : (a : ConversationState) → may_become a a ≡ true
may_become_refl ConversationState.active = refl
may_become_refl _ = refl

pub may_become_trans :
    (a b c : ConversationState)
    → may_become a b ≡ true
    → may_become b c ≡ true
    → may_become a c ≡ true
may_become_trans a b c h k = ground arith

pub may_turn_refl : (a : ParticipantStatus) → may_turn a a ≡ true
may_turn_refl ParticipantStatus.active = refl
may_turn_refl _ = refl

pub may_turn_trans :
    (a b c : ParticipantStatus) → may_turn a b ≡ true → may_turn b c ≡ true → may_turn a c ≡ true
may_turn_trans a b c h k = ground arith

-- An agent keeps its subject and its owner.
pub record AgentStep (a b : Agent) : Type 0 where
  pub sub : b.sub ≡ a.sub
  pub owner_sub : b.owner_sub ≡ a.owner_sub

-- A conversation keeps all but its state.
pub record ConversationStep (a b : Conversation) : Type 0 where
  pub type : b.type ≡ a.type
  pub created_by : b.created_by ≡ a.created_by
  pub expires_at : b.expires_at ≡ a.expires_at
  pub owner_snapshot : b.owner_snapshot ≡ a.owner_snapshot
  pub created_at : b.created_at ≡ a.created_at
  pub state : may_become a.state b.state ≡ true

-- A membership keeps its role and inviter, and its read cursor does not go back.
pub record ParticipantStep (a b : Participant) : Type 0 where
  pub role : b.role ≡ a.role
  pub invited_by : b.invited_by ≡ a.invited_by
  pub status : may_turn a.status b.status ≡ true
  pub last_read_seq : a.last_read_seq ≤ b.last_read_seq

-- `ys` is `xs` with newer rows before it.
pub record Extends {A : Type 0} (xs ys : List A) : Type 0 where
  pub newer : List A
  pub rows : ys ≡ newer ++ xs

-- The tables `b` are a later state of the tables `a`: rows change as their steps allow, none is
-- lost, and the messages and the audit trail only grow.
pub record Evolves (a b : Db) : Type 0 where
  pub agents : Persists (λ (x : Agent). x.id) AgentStep a.agents b.agents
  pub conversations :
      Persists (λ (x : Conversation). x.id) ConversationStep a.conversations b.conversations
  pub participants : Persists participant_key ParticipantStep a.participants b.participants
  pub messages : Extends a.messages b.messages
  pub audit_log : Extends a.audit_log b.audit_log

pub AgentStep-refl : (a : Agent) → AgentStep a a
AgentStep-refl a = record { sub = refl; owner_sub = refl }

AgentStep-trans : (a b c : Agent) → AgentStep a b → AgentStep b c → AgentStep a c
AgentStep-trans a b c h k = record { sub = k.sub ∙ h.sub; owner_sub = k.owner_sub ∙ h.owner_sub }

pub ConversationStep-refl : (a : Conversation) → ConversationStep a a
ConversationStep-refl a = record {
  type = refl;
  created_by = refl;
  expires_at = refl;
  owner_snapshot = refl;
  created_at = refl;
  state = may_become_refl a.state;
}

ConversationStep-trans :
    (a b c : Conversation) → ConversationStep a b → ConversationStep b c → ConversationStep a c
ConversationStep-trans a b c h k = record {
  type = k.type ∙ h.type;
  created_by = k.created_by ∙ h.created_by;
  expires_at = k.expires_at ∙ h.expires_at;
  owner_snapshot = k.owner_snapshot ∙ h.owner_snapshot;
  created_at = k.created_at ∙ h.created_at;
  state = may_become_trans a.state b.state c.state h.state k.state;
}

pub ParticipantStep-refl : (a : Participant) → ParticipantStep a a
ParticipantStep-refl a = record {
  role = refl;
  invited_by = refl;
  status = may_turn_refl a.status;
  last_read_seq = omega arith;
}

ParticipantStep-trans :
    (a b c : Participant) → ParticipantStep a b → ParticipantStep b c → ParticipantStep a c
ParticipantStep-trans a b c h k = record {
  role = k.role ∙ h.role;
  invited_by = k.invited_by ∙ h.invited_by;
  status = may_turn_trans a.status b.status c.status h.status k.status;
  last_read_seq = omega arith;
}

module _ {A : Type 0} where
  pub Extends-refl : (xs : List A) → Extends xs xs
  Extends-refl xs = record { newer = []; rows = refl }

  pub Extends-cons : (x : A) (xs : List A) → Extends xs (x ∷ xs)
  Extends-cons x xs = record { newer = x ∷ []; rows = refl }

  pub Extends-trans : {xs ys zs : List A} → Extends xs ys → Extends ys zs → Extends xs zs
  Extends-trans {xs} h k = record {
    newer = k.newer ++ h.newer;
    rows = k.rows ∙ ap (λ l. k.newer ++ l) h.rows ∙ sym (append_assoc k.newer h.newer xs);
  }

pub Evolves-refl : (a : Db) → Evolves a a
Evolves-refl a = record {
  agents = Persists-refl _ AgentStep-refl a.agents;
  conversations = Persists-refl _ ConversationStep-refl a.conversations;
  participants = Persists-refl _ ParticipantStep-refl a.participants;
  messages = Extends-refl a.messages;
  audit_log = Extends-refl a.audit_log;
}

pub Evolves-trans : {a b c : Db} → Evolves a b → Evolves b c → Evolves a c
Evolves-trans h k = record {
  agents = Persists-trans _ AgentStep-trans h.agents k.agents;
  conversations = Persists-trans _ ConversationStep-trans h.conversations k.conversations;
  participants = Persists-trans _ ParticipantStep-trans h.participants k.participants;
  messages = Extends-trans h.messages k.messages;
  audit_log = Extends-trans h.audit_log k.audit_log;
}
