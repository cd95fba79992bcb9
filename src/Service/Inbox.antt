-- ===== src/Service/Inbox.antt =====
-- service.py: inbox. Rows that the ordering does not tell apart come in the order of the table.
use mathlib.Core.Option
use rh_reclaw.Common.{
  ℕ, ◌+◌, Option, none, some, List, [], ◌∷◌, ◌&&◌, ltb, length, ◌==◌, nat_eq, if◌then◌else◌,
}
use rh_reclaw.Common.Rows.{select, find_row}
use rh_reclaw.Common.Text.{sort_by}
use rh_reclaw.Common.Pages.{collect}
use rh_reclaw.Models.{
  Db, Agent, Conversation, Participant, ParticipantStatus, status_eq, Message, pair_eq,
}
use rh_reclaw.Exceptions.{key_error}
use rh_reclaw.Session.{Exec, pure, ◌>>=◌, raise, query, agent_row, conversation_row}
use rh_reclaw.Service.Messages.{max_seq}
use rh_reclaw.Service.Reads.{ConversationView, MessageView, conversation_dict}

-- A row of the first query.
pub record UnreadRow : Type 0 where
  pub conversation : Conversation
  pub last_read_seq : ℕ
  pub max_seq : ℕ
  pub unread : ℕ
  pub newest_at : ℕ

pub record UnreadView : Type 0 where
  pub conversation : ConversationView
  pub unread_count : ℕ
  pub last_read_seq : ℕ
  pub latest_message : MessageView

pub record InviteView : Type 0 where
  pub conversation : ConversationView
  pub invited_by : Option ℕ
  pub invited_at : ℕ

pub record Inbox : Type 0 where
  pub unread : List UnreadView
  pub pending_invites : List InviteView
  pub total_count : ℕ

-- `max(created_at)` of a conversation's messages
unfoldable pub newest_at : ℕ → List Message → ℕ
newest_at conversation_id [] = 0
newest_at conversation_id (m ∷ ms) =
    let rest = newest_at conversation_id ms in
    if m.conversation_id == conversation_id
    then if ltb rest m.created_at then m.created_at else rest
    else rest

-- `count(id) FILTER (WHERE seq > last_read_seq)`
unfoldable pub unread_count : ℕ → ℕ → Db → ℕ
unread_count conversation_id last_read_seq db =
    length
      (select (λ m. m.conversation_id == conversation_id && ltb last_read_seq m.seq) db.messages)

-- The group of a membership's conversation, `HAVING max(seq) > last_read_seq`. A conversation
-- without messages has no group: its highest number reads as 0.
unfoldable pub unread_group : Db → Participant → Conversation → Option UnreadRow
unread_group db p c =
    if ltb p.last_read_seq (max_seq c.id db.messages)
    then some (record {
      conversation = c;
      last_read_seq = p.last_read_seq;
      max_seq = max_seq c.id db.messages;
      unread = unread_count c.id p.last_read_seq db;
      newest_at = newest_at c.id db.messages;
    })
    else none

-- The caller's membership of the status, joined with its conversation.
unfoldable pub joined_membership :
    ℕ → ParticipantStatus → Db → Participant → Option (Conversation × Participant)
joined_membership caller_agent_id status db p =
    if p.agent_id == caller_agent_id && p.status == status
    then elim (conversation_row p.conversation_id db) [ none ↦ none | some c ↦ some (c, p) ]
    else none

unfoldable pub memberships : ℕ → ParticipantStatus → Db → List (Conversation × Participant)
memberships caller_agent_id status db =
    collect (joined_membership caller_agent_id status db) db.participants

unfoldable pub unread_rows : ℕ → Db → List UnreadRow
unread_rows caller_agent_id db =
    sort_by (λ (a b : UnreadRow). ltb b.newest_at a.newest_at)
      (collect (λ x. unread_group db x.1 x.0)
        (memberships caller_agent_id ParticipantStatus.active db))

-- The columns of a unique constraint.
abbrev pub message_key : Message → ℕ × ℕ
message_key m = (m.conversation_id, m.seq)

-- `JOIN Agent ON Agent.id == Message.sender_id`
abbrev pub with_sender : Db → Option Message → Option MessageView
with_sender db none = none
with_sender db (some m) =
    Option.map (λ (a : Agent). record { message = m; sender_sub = a.sub })
      (agent_row m.sender_id db)

-- `SELECT Message, Agent.sub ... WHERE (conversation_id, seq) = ...`
unfoldable pub latest_message : ℕ → ℕ → Db → Option MessageView
latest_message conversation_id seq db =
    with_sender db (find_row message_key (conversation_id, seq) db.messages)

-- `latest_by_conversation_id[conversation.id]`
unfoldable pub require_latest : Option MessageView → Exec MessageView
require_latest none = raise key_error
require_latest (some m) = pure m

unfoldable pub unread_views : List UnreadRow → Exec (List UnreadView)
unread_views [] = pure []
unread_views (r ∷ rs) = do
  found ← query (latest_message r.conversation.id r.max_seq)
  latest ← require_latest found
  shown ← conversation_dict r.conversation
  rest ← unread_views rs
  pure (
      record {
        conversation = shown;
        unread_count = r.unread;
        last_read_seq = r.last_read_seq;
        latest_message = latest;
      }
      ∷ rest)

unfoldable pub invite_views : List (Conversation × Participant) → Exec (List InviteView)
invite_views [] = pure []
invite_views ((c, p) ∷ rows) = do
  shown ← conversation_dict c
  rest ← invite_views rows
  pure
      (record { conversation = shown; invited_by = p.invited_by; invited_at = p.invited_at } ∷ rest)

-- `ORDER BY invited_at DESC`
unfoldable pub pending_rows : ℕ → Db → List (Conversation × Participant)
pending_rows caller_agent_id db =
    sort_by (λ (a b : Conversation × Participant). ltb b.1.invited_at a.1.invited_at)
      (memberships caller_agent_id ParticipantStatus.invited db)

unfoldable pub inbox : ℕ → Exec Inbox
inbox caller_agent_id = do
  rows ← query (unread_rows caller_agent_id)
  unread ← unread_views rows
  pending ← query (pending_rows caller_agent_id)
  pending_invites ← invite_views pending
  pure (record {
    unread = unread;
    pending_invites = pending_invites;
    total_count = length unread + length pending_invites;
  })
