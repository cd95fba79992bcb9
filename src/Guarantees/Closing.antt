-- ===== src/Guarantees/Closing.antt =====
-- close_conversation: the state a message leaves its conversation in.
use rh_reclaw.Common.{◌≡◌, refl, sym, ap, subst, ℕ, String, Option, none, some, true, is_some}
use rh_reclaw.Models.{Db, Conversation, ConversationState, state_eq}
use rh_reclaw.Exceptions.{ServiceError}
use rh_reclaw.Session.{Session, conversation_row}
use rh_reclaw.Session.Triple.{Leads, Spec-step, Spec-write, Leads-pure}
use rh_reclaw.Service.Conversations.{close_conversation}
use rh_reclaw.Board.Steps.{ConversationStep, may_become}
use rh_reclaw.Board.Integrity.{KnownAgent}
use rh_reclaw.Board.Known.{conversation_row-set_conversation}
use rh_reclaw.Board.Writes.{Sound, Sound-with_audit, Sound-set_conversation}
use rh_reclaw.Guarantees.Denials.{Spec-audit}

-- The new state, or the old one where there is none.
abbrev pub state_or : ConversationState → Option ConversationState → ConversationState
state_or s none = s
state_or s (some new_state) = new_state

-- The tables after `close_conversation`: only the conversation's row and the trail may differ.
pub record Closed (base db : Db) (c : Conversation) (new_state : Option ConversationState)
    (db' : Db) (c' : Conversation) : Type 0 where
  pub sound : Sound base db'
  pub agents : db'.agents ≡ db.agents
  pub participants : db'.participants ≡ db.participants
  pub messages : db'.messages ≡ db.messages
  pub row : conversation_row c.id db' ≡ some c'
  pub change : c' ≡ record c { state = state_or c.state new_state }

closing_step :
    (c : Conversation) (s : ConversationState)
    → c.state ≡ ConversationState.active
    → ConversationStep c (record c { state = s })
closing_step c s was_active = record {
  type = refl;
  created_by = refl;
  expires_at = refl;
  owner_snapshot = refl;
  created_at = refl;
  state = subst (λ a. may_become a s ≡ true) (sym was_active) refl;
}

pub Leads-close_conversation :
    {base db : Db} {E : ServiceError → Session → Type 0}
    → Sound base db
    → (actor_sub : String) (agent_id : ℕ) (c : Conversation) (message_type : String)
      (new_state : Option ConversationState)
    → KnownAgent db agent_id
    → conversation_row c.id db ≡ some c
    → c.state ≡ ConversationState.active
    → Leads base db
        (close_conversation actor_sub agent_id c message_type new_state)
        (Closed base db c new_state)
        E
unfolding close_conversation
Leads-close_conversation sound actor_sub agent_id c message_type none known row was_active =
    Leads-pure c (record {
      sound = sound;
      agents = refl;
      participants = refl;
      messages = refl;
      row = row;
      change = refl;
    })
Leads-close_conversation {db = db} sound actor_sub agent_id c message_type (some new_state) known
      row was_active =
    Spec-step (Spec-write _) λ _ _. Spec-audit λ at. Leads-pure _ (record {
      sound =
          Sound-with_audit
            (Sound-set_conversation sound c _ row (closing_step c new_state was_active)) _ known
            (ap is_some (conversation_row-set_conversation db c _ row)) tt;
      agents = refl;
      participants = refl;
      messages = refl;
      row = conversation_row-set_conversation db c _ row;
      change = refl;
    })
