-- ===== src/Service/Reads.antt =====
-- service.py: get_conversation. The order of `ORDER BY sub` is the database's collation.
use rh_reclaw.Common.{
  ℕ, String, Option, none, some, List, [], ◌∷◌, Bool, true, false, ◌&&◌, ltb, leb, ◌==◌, nat_eq,
  if◌then◌else◌,
}
use rh_reclaw.Common.Rows.{select, find_row}
use rh_reclaw.Common.Text.{sort_by}
use rh_reclaw.Models.{
  Db, Agent, Conversation, ConversationState, state_eq, Participant, ParticipantRole,
  ParticipantStatus, status_eq, Message,
}
use rh_reclaw.Session.{Exec, pure, ◌>>=◌, ◌>>◌, query, write, now, commit, set_participant}
use rh_reclaw.Service.Lookups.{load_participant_for_read}

pub record ParticipantView : Type 0 where
  pub agent_id : ℕ
  pub sub : String
  pub display_name : String
  pub role : ParticipantRole
  pub status : ParticipantStatus
  pub invited_by : Option ℕ

-- `_message_dict`: a message with its sender's `sub`.
pub record MessageView : Type 0 where
  pub message : Message
  pub sender_sub : String

-- `_conversation_dict`: the state is the reconciled one.
pub record ConversationView : Type 0 where
  pub conversation : Conversation
  pub state : ConversationState

pub record Reading : Type 0 where
  pub conversation : ConversationView
  pub participants : List ParticipantView
  pub messages : List MessageView
  pub invited : Bool
  pub invited_by : Option ℕ
  pub last_read_seq : Option ℕ

unfoldable pub conversation_dict : Conversation → Exec ConversationView
conversation_dict conversation =
    if conversation.state == ConversationState.active
    then (do
      t ← now
      pure (record {
        conversation = conversation;
        state =
            if leb conversation.expires_at t
            then ConversationState.expired
            else ConversationState.active;
      }))
    else pure (record { conversation = conversation; state = conversation.state })

unfoldable pub view_participants : List Participant → List Agent → List ParticipantView
view_participants [] agents = []
view_participants (p ∷ ps) agents =
    let rest = view_participants ps agents in
    elim (find_row (λ (a : Agent). a.id) p.agent_id agents) [
      | none ↦ rest
      | some a ↦
          record {
            agent_id = a.id;
            sub = a.sub;
            display_name = a.display_name;
            role = p.role;
            status = p.status;
            invited_by = p.invited_by;
          }
          ∷ rest
    ]

unfoldable pub view_messages : List Message → List Agent → List MessageView
view_messages [] agents = []
view_messages (m ∷ ms) agents =
    let rest = view_messages ms agents in
    elim (find_row (λ (a : Agent). a.id) m.sender_id agents) [
      | none ↦ rest
      | some a ↦ record { message = m; sender_sub = a.sub } ∷ rest
    ]

-- `messages JOIN agents WHERE seq > since_seq ORDER BY seq`
unfoldable pub messages_since : ℕ → ℕ → Db → List MessageView
messages_since conversation_id since_seq db =
    view_messages
      (sort_by (λ (a b : Message). ltb a.seq b.seq)
        (select (λ m. m.conversation_id == conversation_id && ltb since_seq m.seq) db.messages))
      db.agents

unfoldable pub participants_view : (String → String → Bool) → ℕ → Db → List ParticipantView
participants_view collation conversation_id db =
    sort_by (λ (a b : ParticipantView). collation a.sub b.sub)
      (view_participants (select (λ p. p.conversation_id == conversation_id) db.participants)
        db.agents)

-- `max(m.seq for m in rows)`, 0 for no rows: a number of a message is at least 1.
unfoldable pub last_seq : List MessageView → ℕ
last_seq [] = 0
last_seq (v ∷ vs) = let rest = last_seq vs in if ltb rest v.message.seq then v.message.seq else rest

-- An invited caller gets the metadata.
unfoldable pub read_as_invited : Conversation → Participant → List ParticipantView → Exec Reading
read_as_invited conversation participant people = do
  commit
  shown ← conversation_dict conversation
  pure (record {
    conversation = shown;
    participants = people;
    messages = [];
    invited = true;
    invited_by = participant.invited_by;
    last_read_seq = none;
  })

-- An active caller gets the messages, and the read cursor moves up to the last of them. Where it
-- does not move, the row is written as it was.
unfoldable pub read_as_member : Conversation → Participant → List ParticipantView → ℕ → Exec Reading
read_as_member conversation participant people since_seq = do
  rows ← query (messages_since conversation.id since_seq)
  let cursor =
      if ltb participant.last_read_seq (last_seq rows)
      then last_seq rows
      else participant.last_read_seq
  write (set_participant (record participant { last_read_seq = cursor }))
  commit
  shown ← conversation_dict conversation
  pure (record {
    conversation = shown;
    participants = people;
    messages = rows;
    invited = false;
    invited_by = none;
    last_read_seq = some cursor;
  })

unfoldable pub get_conversation : (String → String → Bool) → String → ℕ → ℕ → ℕ → Exec Reading
get_conversation collation actor_sub caller_agent_id conversation_id since_seq = do
  (conversation, participant) ← load_participant_for_read actor_sub caller_agent_id conversation_id
  people ← query (participants_view collation conversation.id)
  if participant.status == ParticipantStatus.invited
      then read_as_invited conversation participant people
      else read_as_member conversation participant people since_seq
