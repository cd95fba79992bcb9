-- ===== src/Board/Writes.antt =====
-- The writes of the service, from a sound state.
use rh_reclaw.Common.{◌≡◌, sym, subst, ◌+◌, some, List, false, is_some, nat_eq}
use rh_reclaw.Common.Rows.{
  Keyed, Persists, Persists-cons, Persists-update_row, All-find_row, All-update_row,
  none_of_is_some,
}
use rh_reclaw.Models.{
  Agent, Conversation, Participant, Message, AuditLog, Db, participant_key, pair_eq,
}
use rh_reclaw.Session.{
  conversation_row, participant_row, with_audit, with_conversation, set_conversation,
  with_participant, set_participant, with_message,
}
use rh_reclaw.Service.Messages.{max_seq}
use rh_reclaw.Board.Steps.{
  Evolves, Evolves-refl, Evolves-trans, AgentStep, ConversationStep, ConversationStep-refl,
  ParticipantStep, ParticipantStep-refl, Extends-cons,
}
use rh_reclaw.Board.Known.{
  conversations-later, participants-later, messages-later, audit_log-later, ParticipantKnown,
  ParticipantKnown-row, numbered-cons,
}
use rh_reclaw.Board.Integrity.{IsValid, KnownAgent, KnownConversation, KnownMessage, Nullable}

-- `db` is a valid state that `base` may come to.
pub record Sound (base db : Db) : Type 0 where
  pub evolves : Evolves base db
  pub valid : IsValid db

module _ {base db : Db} (sound : Sound base db) where
  pub Sound-with_audit :
      (r : AuditLog)
      → Nullable (KnownAgent db) r.agent_id
      → Nullable (KnownConversation db) r.conversation_id
      → Nullable (KnownMessage db) r.message_id
      → Sound base (with_audit r db)
  Sound-with_audit r agent conversation message = record {
    evolves = Evolves-trans sound.evolves step;
    valid = record {
      agents = sound.valid.agents;
      conversations = sound.valid.conversations;
      participants = sound.valid.participants;
      messages = sound.valid.messages;
      audit_log = ((agent, conversation, message), sound.valid.audit_log);
      numbered = sound.valid.numbered;
    };
  }
    where
      same : Evolves db db
      same = Evolves-refl db

      step : Evolves db (with_audit r db)
      step = record {
        agents = same.agents;
        conversations = same.conversations;
        participants = same.participants;
        messages = same.messages;
        audit_log = Extends-cons r db.audit_log;
      }

  pub Sound-set_conversation :
      (old v : Conversation)
      → conversation_row v.id db ≡ some old
      → ConversationStep old v
      → Sound base (set_conversation v db)
  Sound-set_conversation old v found change = record {
    evolves = Evolves-trans sound.evolves step;
    valid = record {
      agents = sound.valid.agents;
      conversations =
          All-update_row (λ (x : Conversation). x.id) (λ c. KnownAgent db c.created_by) v
            db.conversations (conversations-later step sound.valid)
            (subst (KnownAgent db) (sym change.created_by) (
              All-find_row (λ (x : Conversation). x.id) (λ c. KnownAgent db c.created_by) v.id
                db.conversations old sound.valid.conversations found));
      participants = participants-later step sound.valid;
      messages = messages-later step sound.valid;
      audit_log = audit_log-later step sound.valid;
      numbered = sound.valid.numbered;
    };
  }
    where
      same : Evolves db db
      same = Evolves-refl db

      step : Evolves db (set_conversation v db)
      step = record {
        agents = same.agents;
        conversations =
            Persists-update_row _ ConversationStep-refl v old db.conversations found change;
        participants = same.participants;
        messages = same.messages;
        audit_log = same.audit_log;
      }

  pub Sound-set_participant :
      (old v : Participant)
      → participant_row v.conversation_id v.agent_id db ≡ some old
      → ParticipantStep old v
      → Sound base (set_participant v db)
  Sound-set_participant old v found change = record {
    evolves = Evolves-trans sound.evolves step;
    valid = record {
      agents = sound.valid.agents;
      conversations = sound.valid.conversations;
      participants =
          All-update_row participant_key (ParticipantKnown db) v db.participants
            sound.valid.participants
            (let known = ParticipantKnown-row sound.valid v.conversation_id v.agent_id old found in
              (known.0, known.1, subst (Nullable (KnownAgent db)) (sym change.invited_by) known.2));
      messages = sound.valid.messages;
      audit_log = sound.valid.audit_log;
      numbered = sound.valid.numbered;
    };
  }
    where
      same : Evolves db db
      same = Evolves-refl db

      step : Evolves db (set_participant v db)
      step = record {
        agents = same.agents;
        conversations = same.conversations;
        participants =
            Persists-update_row _ ParticipantStep-refl v old db.participants found change;
        messages = same.messages;
        audit_log = same.audit_log;
      }

  pub Sound-with_participant :
      (v : Participant)
      → is_some (participant_row v.conversation_id v.agent_id db) ≡ false
      → KnownAgent db v.agent_id
      → KnownConversation db v.conversation_id
      → Nullable (KnownAgent db) v.invited_by
      → Sound base (with_participant v db)
  Sound-with_participant v fresh agent conversation inviter = record {
    evolves = Evolves-trans sound.evolves step;
    valid = record {
      agents = sound.valid.agents;
      conversations = sound.valid.conversations;
      participants = ((agent, conversation, inviter), sound.valid.participants);
      messages = sound.valid.messages;
      audit_log = sound.valid.audit_log;
      numbered = sound.valid.numbered;
    };
  }
    where
      same : Evolves db db
      same = Evolves-refl db

      step : Evolves db (with_participant v db)
      step = record {
        agents = same.agents;
        conversations = same.conversations;
        participants =
            Persists-cons _ ParticipantStep-refl v db.participants (none_of_is_some _ fresh);
        messages = same.messages;
        audit_log = same.audit_log;
      }

  pub Sound-with_message :
      (v : Message)
      → KnownAgent db v.sender_id
      → KnownConversation db v.conversation_id
      → v.seq ≡ max_seq v.conversation_id db.messages + 1
      → Sound base (with_message v db)
  Sound-with_message v agent conversation next = record {
    evolves = Evolves-trans sound.evolves step;
    valid = record {
      agents = sound.valid.agents;
      conversations = sound.valid.conversations;
      participants = sound.valid.participants;
      messages = ((agent, conversation), sound.valid.messages);
      audit_log = audit_log-later step sound.valid;
      numbered = λ i. numbered-cons i v db.messages (sound.valid.numbered i) next;
    };
  }
    where
      same : Evolves db db
      same = Evolves-refl db

      step : Evolves db (with_message v db)
      step = record {
        agents = same.agents;
        conversations = same.conversations;
        participants = same.participants;
        messages = Extends-cons v db.messages;
        audit_log = same.audit_log;
      }

  pub Sound-with_conversation :
      (v : Conversation)
      → is_some (conversation_row v.id db) ≡ false
      → KnownAgent db v.created_by
      → Sound base (with_conversation v db)
  Sound-with_conversation v fresh agent = record {
    evolves = Evolves-trans sound.evolves step;
    valid = record {
      agents = sound.valid.agents;
      conversations = (agent, conversations-later step sound.valid);
      participants = participants-later step sound.valid;
      messages = messages-later step sound.valid;
      audit_log = audit_log-later step sound.valid;
      numbered = sound.valid.numbered;
    };
  }
    where
      same : Evolves db db
      same = Evolves-refl db

      step : Evolves db (with_conversation v db)
      step = record {
        agents = same.agents;
        conversations =
            Persists-cons _ ConversationStep-refl v db.conversations (none_of_is_some _ fresh);
        participants = same.participants;
        messages = same.messages;
        audit_log = same.audit_log;
      }

  -- The agents change to `rows`, in which every old row persists.
  pub Sound-agents :
      (rows : List Agent)
      → Persists (λ (x : Agent). x.id) AgentStep db.agents rows
      → Keyed (λ (x : Agent). x.id) rows
      → Sound base (record db { agents = rows })
  Sound-agents rows kept keyed = record {
    evolves = Evolves-trans sound.evolves step;
    valid = record {
      agents = keyed;
      conversations = conversations-later step sound.valid;
      participants = participants-later step sound.valid;
      messages = messages-later step sound.valid;
      audit_log = audit_log-later step sound.valid;
      numbered = sound.valid.numbered;
    };
  }
    where
      same : Evolves db db
      same = Evolves-refl db

      step : Evolves db (record db { agents = rows })
      step = record {
        agents = kept;
        conversations = same.conversations;
        participants = same.participants;
        messages = same.messages;
        audit_log = same.audit_log;
      }
