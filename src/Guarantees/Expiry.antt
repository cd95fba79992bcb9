-- ===== src/Guarantees/Expiry.antt =====
-- Lazy expiry: what `_maybe_expire` does to a conversation and its row.
use rh_reclaw.Common.{
  ◌≡◌, ◌≢◌, refl, ◌⊎◌, inl, inr, String, some, Bool-cases, leb, ◌==◌, ==_iff, ◌≤◌, ◌<◌, arith,
}
use rh_reclaw.Common.Result.{Result, ok}
use rh_reclaw.Models.{Conversation, ConversationState, state_eq}
use rh_reclaw.Exceptions.{ServiceError}
use rh_reclaw.Session.{Session, pure, ◌>>=◌, now, write, transaction_now, conversation_row}
use rh_reclaw.Service.Denials.{audit}
use rh_reclaw.Service.Lookups.{maybe_expire, expire}
use rh_reclaw.Board.Known.{conversation_row-set_conversation}
use rh_reclaw.Guarantees.Denials.{Recorded}

abbrev pub expired_of : Conversation → Conversation
expired_of c = record c { state = ConversationState.expired }

-- The conversation is given back and stored as expired, with an audit row, and nothing else changed.
pub record Expired (actor : String) (c : Conversation) (s : Session)
    (x : Result ServiceError Conversation × Session) : Type 0 where
  pub returned : x.0 ≡ ok (expired_of c)
  pub stored : conversation_row c.id x.1.working ≡ some (expired_of c)
  pub recorded : Recorded actor "conversation.expire" x.1.working
  pub agents : x.1.working.agents ≡ s.working.agents
  pub participants : x.1.working.participants ≡ s.working.participants
  pub messages : x.1.working.messages ≡ s.working.messages

abbrev pub ExpiresWhenDue :
    String → Conversation → Session → Result ServiceError Conversation × Session → Type 0
ExpiresWhenDue actor c s x =
    ((c.state ≡ ConversationState.active) × (c.expires_at ≤ s.ticks s.reads) × Expired actor c s x)
    ⊎ (((c.state ≢ ConversationState.active) ⊎ (s.ticks s.reads < c.expires_at))
        × (x.0 ≡ ok c)
        × (x.1.working ≡ s.working))

pub maybe_expire_lem :
    (actor : String) (c : Conversation) (s : Session)
    → conversation_row c.id s.working ≡ some c
    → ExpiresWhenDue actor c s (maybe_expire actor c s)
unfolding maybe_expire expire audit now write transaction_now pure ◌>>=◌
maybe_expire_lem actor c s row = elim (Bool-cases (c.state == ConversationState.active)) [
  | inl e ↦ elim (Bool-cases (leb c.expires_at (s.ticks s.reads))) [
    | inl late ↦
        rw (e, late)
          (inl (
            (==_iff c.state ConversationState.active).0 e,
            ground arith,
            record {
              returned = refl;
              stored = conversation_row-set_conversation s.working c (expired_of c) row;
              recorded = record {
                newest = _;
                older = s.working.audit_log;
                trail = refl;
                actor_sub_eq = refl;
                action_eq = refl;
              };
              agents = refl;
              participants = refl;
              messages = refl;
            },
          ))
    | inr early ↦ rw (e, early) (inr (inr (ground arith), refl, refl))
  ]
  | inr e ↦
      rw e
        (inr (inl (λ same. cc (e, (==_iff c.state ConversationState.active).1 same)), refl, refl))
]
